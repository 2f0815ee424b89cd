-- ===== src/Engine/Serve/Runs.antt =====
-- pkg/engine/engine.go: what the goroutine of an engine has done.
use oktrading.Prelude.{
  ℕ, ◌^◌, ◌≤◌, ◌≡◌, refl, sym, ap, subst, ◌∙◌, Option, none, some, List, [], ◌∷◌, ◌++◌, arith,
  length, take, append-nil, Option-cases, inl, inr,
}
use mathlib.Core.List.{map-append}
use oktrading.Types.{Command}
use oktrading.Engine.{Engine, process, run}
use oktrading.Engine.Serve.{
  Service, after, Serve, produce, poll, handle, rest, close, Serves, started, on,
}
use oktrading.Mpsc.Shared.{
  Memory, Pc, Consumer, System, Reach, start, later, Step, Move, call, load, refuse, pass, lose,
  win, write, publish, Poll, nothing, find, take_cmd, clear, advance,
}
use oktrading.Mpsc.Shared
use oktrading.Mpsc.Shared.Invariant.{Inv, IsSmall}
use oktrading.Mpsc.Shared.Reached.{Reach-Inv, Step-IsSmall}
use oktrading.Engine.Serve.Take.{in_hand, commands_of, Move-take, Poll-take, end_round-in_hand}

pub run-append :
    (cmds : List (ℕ × Command)) (now : ℕ) (c : Command) (e e1 : Engine)
    → run cmds e ≡ some e1
    → run (cmds ++ ((now, c) ∷ [])) e ≡ process now c e1
unfolding run
run-append [] now c e e1 q = elim (Option-cases (process now c e1)) [
  | inl n ↦ rw (n) (go none n)
  | inr (e2, p) ↦ rw (p) (go (some e2) p)
]
  where
    same : e1 ≡ e
    same = cc q

    go : (r : Option Engine) → process now c e1 ≡ r → run ((now, c) ∷ []) e ≡ r
    go none p = rw (run, subst (λ k. process now c k ≡ none) same p) refl
    go (some e2) p = rw (run, subst (λ k. process now c k ≡ some e2) same p) refl
run-append ((t, d) ∷ cmds) now c e e1 q = elim (Option-cases (process t d e)) [
  | inl n ↦ absurd (cc (rw (run, n) at q))
  | inr (e', eq) ↦ rw (run, eq) (run-append cmds now c e' e1 (rw (run, eq) at q))
]

-- The shared ring of a service is one that its own steps reach.
Serves-Reach :
    {capacity : ℕ} {e : Engine} {s : Service} → Serves capacity e s → Reach capacity s.shared
Serves-Reach started = start
Serves-Reach (on r (produce i mv)) = later (Serves-Reach r) (Shared.produce i mv)
Serves-Reach (on r (poll w p)) = later (Serves-Reach r) (Shared.consume p)
Serves-Reach (on r (handle now w q)) = Serves-Reach r
Serves-Reach (on r (rest w)) = Serves-Reach r
Serves-Reach (on r close) = Serves-Reach r

-- The engine has run the commands that were handled, which with what is in hand are those that were
-- claimed first.
record Served (e : Engine) (s : Service) : Type 0 where
  ran : run s.handled e ≡ some s.engine
  order :
      commands_of s.handled ++ in_hand s.worker
      ≡ take (length s.shared.memory.popped) s.shared.memory.claims

Serve-Served : {e : Engine} {s t : Service} → Serve s t → Inv s.shared → Served e s → Served e t
Serve-Served (produce i mv) inv v = record {
  ran = v.ran;
  order =
      v.order
      ∙ Move-take mv (omega (arith, inv.counts.behind, inv.counts.counted, inv.counts.drained));
}
Serve-Served {s = s} (poll w p) inv v = record {
  ran = v.ran;
  order =
      ap (λ xs. xs ++ in_hand (after p))
        (sym (append-nil (commands_of s.handled))
          ∙ ap (λ k. commands_of s.handled ++ in_hand k) (sym w)
          ∙ v.order)
      ∙ Poll-take p inv.counts inv.current;
}
Serve-Served {e} {s} (handle now {c} {e = e1} w q) inv v = record {
  ran = run-append s.handled now c e s.engine v.ran ∙ q;
  order =
      append-nil _
      ∙ map-append (λ x. x.1) s.handled ((now, c) ∷ [])
      ∙ ap (λ k. commands_of s.handled ++ in_hand k) (sym w)
      ∙ v.order;
}
Serve-Served {s = s} (rest w) inv v = record {
  ran = v.ran;
  order =
      ap (λ xs. commands_of s.handled ++ xs) (end_round-in_hand _ s.quit ∙ sym (ap in_hand w))
      ∙ v.order;
}
Serve-Served close inv v = record { ran = v.ran; order = v.order }

Serve-IsSmall : {s t : Service} → Serve s t → IsSmall t.shared.memory → IsSmall s.shared.memory
Serve-IsSmall {s} (produce i mv) small = Step-IsSmall {s = s.shared} (Shared.produce i mv) small
Serve-IsSmall {s} (poll w p) small = Step-IsSmall {s = s.shared} (Shared.consume p) small
Serve-IsSmall (handle now w q) small = small
Serve-IsSmall (rest w) small = small
Serve-IsSmall close small = small

module _ {capacity : ℕ} {e : Engine} (le : capacity ≤ 2 ^ 62) where
  served : {s : Service} → Serves capacity e s → IsSmall s.shared.memory → Served e s
  unfolding run
  served started small = record { ran = refl; order = refl }
  served (on r st) small =
      let before = Serve-IsSmall st small in
      Serve-Served st (Reach-Inv le (Serves-Reach r) before) (served r before)

  -- The engine of a service has run the commands that were handled, and these with the one in hand
  -- are the commands that producers claimed first, in the order of the claims.
  pub goroutine_runs :
      {s : Service}
      → Serves capacity e s
      → IsSmall s.shared.memory
      → (run s.handled e ≡ some s.engine)
        × (commands_of s.handled ++ in_hand s.worker
            ≡ take (length s.shared.memory.popped) s.shared.memory.claims)
  goroutine_runs r small = let v = served r small in (v.ran, v.order)
