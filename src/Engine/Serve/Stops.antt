-- ===== src/Engine/Serve/Stops.antt =====
-- pkg/engine/engine.go: the goroutine of an engine after `Stop`.
use oktrading.Prelude.{
  ℕ, suc, ◌+◌, ◌*◌, ◌-◌, ◌%◌, ◌^◌, ◌≤◌, ◌≡◌, ◌≢◌, ◌⊎◌, refl, sym, ap, subst, ◌∙◌, true, false,
  Bool-cases, inl, inr, ◌==◌, none, some, arith,
}
use oktrading.Int64.{add64}
use oktrading.Types.{Command}
use oktrading.Engine.Serve.{
  Worker, polling, returned, stopped, after, end_round, Service, Serve, produce, poll, handle, rest,
  close, is_own,
}
use oktrading.Mpsc.{lap_of}
use oktrading.Mpsc.Shared.{
  Memory, Consumer, ready, Poll, nothing, find, take_cmd, clear, advance, slot,
}

-- The slot that the loop looks into is not published.
abbrev pub IsEmpty : Memory → Type 0
IsEmpty m = (slot m m.ring.tail).lap ≢ lap_of m.ring m.ring.tail

-- Any run of the goroutine and the others, with so many steps of the goroutine, in which no producer
-- publishes the slot that the loop looks into.
pub data Runs : Service → ℕ → Service → Type 0 where
  here : {s : Service} → Runs s 0 s
  own :
      {s t u : Service} {n : ℕ} (st : Serve s t) → is_own st ≡ true → Runs t n u → Runs s (suc n) u
  meanwhile :
      {s t u : Service} {n : ℕ} (st : Serve s t)
      → is_own st ≡ false
      → IsEmpty t.shared.memory
      → Runs t n u
      → Runs s n u

-- `Stop` was called, and the loop has no command in hand.
record IsClosing (s : Service) : Type 0 where
  quit : s.quit ≡ true
  at_rest : s.shared.consumer ≡ ready
  no_command : (c : Command) → s.worker ≢ returned (some c)

-- The rounds until the count of idle rounds is next looked at, and the steps that they take.
rounds : ℕ → ℕ
rounds idle = 2 ^ 14 - idle % 2 ^ 14

left_in : Worker → ℕ → ℕ
unfolding rounds
left_in polling idle = 2 * rounds idle
left_in (returned c) idle = 2 * rounds idle - 1
left_in stopped idle = 0

abbrev left : Service → ℕ
left s = left_in s.worker s.idle

-- What a step of the goroutine leaves.
record Nearer (s t : Service) : Type 0 where
  closing : IsClosing t
  empty : IsEmpty t.shared.memory
  fewer : suc (left t) ≤ left s
  same_engine : t.engine ≡ s.engine
  same_handled : t.handled ≡ s.handled

finds_nothing :
    {m m' : Memory} {k k' : Consumer} (p : Poll m k m' k')
    → k ≡ ready
    → IsEmpty m
    → (m' ≡ m) × (k' ≡ ready) × (after p ≡ returned none)
finds_nothing (nothing g) e empty = (refl, refl, refl)
finds_nothing (find g) e empty = absurd (empty g)
finds_nothing take_cmd e empty = cc
finds_nothing clear e empty = cc
finds_nothing advance e empty = cc

own_step :
    {s t : Service} (st : Serve s t)
    → is_own st ≡ true
    → IsClosing s
    → IsEmpty s.shared.memory
    → Nearer s t
unfolding left_in rounds add64
own_step (produce i mv) o c empty = cc
own_step {s} (poll w p) o c empty =
    let (same, idle_again, found) = finds_nothing p c.at_rest empty in
    record {
      closing = record { quit = c.quit; at_rest = idle_again; no_command = λ x e. cc (found, e) };
      empty = rw same empty;
      fewer = rw (found, w) (omega arith);
      same_engine = refl;
      same_handled = refl;
    }
own_step (handle now w q) o c empty = absurd (c.no_command _ w)
own_step {s} (rest w) o c empty = elim (Bool-cases (add64 s.idle 1 % 2 ^ 14 == 0)) [
  | inl due ↦
      let ends : end_round (add64 s.idle 1) s.quit ≡ stopped = rw (due, c.quit) refl in
      record {
        closing = record { quit = c.quit; at_rest = c.at_rest; no_command = λ x e. cc (ends, e) };
        empty = empty;
        fewer = rw (ends, w) (omega arith);
        same_engine = refl;
        same_handled = refl;
      }
  | inr later ↦
      let goes_on : end_round (add64 s.idle 1) s.quit ≡ polling = rw (later) refl in
      record {
        closing = record {
          quit = c.quit;
          at_rest = c.at_rest;
          no_command = λ x e. cc (goes_on, e);
        };
        empty = empty;
        fewer = rw (goes_on, w) (ground (arith, later));
        same_engine = refl;
        same_handled = refl;
      }
]
own_step close o c empty = cc

-- What a step of the others leaves.
record Unmoved (s t : Service) : Type 0 where
  closing : IsClosing t
  same : left t ≡ left s
  same_engine : t.engine ≡ s.engine
  same_handled : t.handled ≡ s.handled

other_step : {s t : Service} (st : Serve s t) → is_own st ≡ false → IsClosing s → Unmoved s t
other_step (produce i mv) o c = record {
  closing = record { quit = c.quit; at_rest = c.at_rest; no_command = c.no_command };
  same = refl;
  same_engine = refl;
  same_handled = refl;
}
other_step (poll w p) o c = cc
other_step (handle now w q) o c = cc
other_step (rest w) o c = cc
other_step close o c = record {
  closing = record { quit = refl; at_rest = c.at_rest; no_command = c.no_command };
  same = refl;
  same_engine = refl;
  same_handled = refl;
}

-- The goroutine is at its end, or has a next step.
abbrev pub GoesOn : Service → Type 0
GoesOn s = (s.worker ≡ stopped) ⊎ ((t : Service) × (st : Serve s t) × (is_own st ≡ true))

can_poll :
    (s : Service)
    → s.worker ≡ polling
    → s.shared.consumer ≡ ready
    → IsEmpty s.shared.memory
    → GoesOn s
can_poll s w r empty = inr (
  _,
  poll {m = s.shared.memory} {k = ready} w
      (subst (λ k. Poll s.shared.memory k s.shared.memory ready) (sym r) (nothing empty)),
  refl,
)

goes_on : (s : Service) → IsClosing s → IsEmpty s.shared.memory → GoesOn s
goes_on s c empty = by_worker s.worker refl
  where
    by_worker : (w : Worker) → s.worker ≡ w → GoesOn s
    by_worker polling e = can_poll s e c.at_rest empty
    by_worker (returned none) e = inr (_, rest e, refl)
    by_worker (returned (some x)) e = absurd (c.no_command x e)
    by_worker stopped e = inl e

Runs-left :
    {s u : Service} {n : ℕ}
    → Runs s n u
    → IsClosing s
    → IsEmpty s.shared.memory
    → (n + left u ≤ left s) × (u.engine ≡ s.engine) × (u.handled ≡ s.handled) × GoesOn u
Runs-left {s} here c empty = (omega arith, refl, refl, goes_on s c empty)
Runs-left (own st o more) c empty =
    let d = own_step st o c empty in
    let (le, same_engine, same_handled, on) = Runs-left more d.closing d.empty in
    let fewer = d.fewer in
    (omega (arith, le, fewer), same_engine ∙ d.same_engine, same_handled ∙ d.same_handled, on)
Runs-left (meanwhile st o empty' more) c empty =
    let d = other_step st o c in
    let (le, same_engine, same_handled, on) = Runs-left more d.closing empty' in
    let same = d.same in
    (omega (arith, le, same), same_engine ∙ d.same_engine, same_handled ∙ d.same_handled, on)

at_most : (idle : ℕ) → left_in polling idle ≤ 2 ^ 15
unfolding left_in rounds
at_most idle = omega arith

-- Once `Stop` was called and the loop is about to look into the ring: in every run in which no producer
-- publishes the slot that the loop looks into, whatever the producers do otherwise, the goroutine takes
-- at most 2 ^ 15 steps, which are 2 ^ 14 rounds, does not touch the engine and handles no command; and
-- as long as it has not come to its end, it has a next step.
pub goroutine_stops :
    {s u : Service} {n : ℕ}
    → s.quit ≡ true
    → s.worker ≡ polling
    → s.shared.consumer ≡ ready
    → IsEmpty s.shared.memory
    → Runs s n u
    → (n ≤ 2 ^ 15) × (u.engine ≡ s.engine) × (u.handled ≡ s.handled) × GoesOn u
goroutine_stops {s} {u} q w r empty run =
    let closing : IsClosing s = record { quit = q; at_rest = r; no_command = λ x e. cc (w, e) } in
    let (le, same_engine, same_handled, on) = Runs-left run closing empty in
    let start : left s ≡ left_in polling s.idle = ap (λ k. left_in k s.idle) w in
    (omega (arith, le, start, at_most s.idle), same_engine, same_handled, on)
