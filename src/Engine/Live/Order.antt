-- ===== src/Engine/Live/Order.antt =====
-- The events that a reader sees are those of the log, in its order.
use oktrading.Prelude.{
  ℕ, zero, suc, ◌^◌, ◌≤◌, ◌≡◌, refl, sym, ap, subst, ◌∙◌, true, false, some, List, [], ◌∷◌, ◌++◌,
  append-nil, append_assoc, arith, map, length, take, drop,
}
use oktrading.Offheap.{RawEvent}
use oktrading.Offheap.Shared.{
  Memory, Producer, resting, acquiring, loaded, filling, filled, Reader, Push, call, load, wait,
  acquire, scribble, fill, publish, Read, look, nothing, see, copy, advance, Outbound, Reach, start,
  later,
}
use oktrading.Offheap.Shared
use oktrading.Offheap.Shared.Invariant.{IsSmall}
use oktrading.Offheap.Shared.Safety.{events_fifo}
use oktrading.Mpsc.Shared.Invariant as Inbound
use oktrading.Engine.{Engine, run}
use oktrading.Engine.Log.{process-Publishes}
use oktrading.Engine.Serve.{
  is_own, Service, Worker, Serve, produce, poll, handle, rest, close, Serves,
}
use oktrading.Engine.Serve
use oktrading.Engine.Serve.Take.{commands_of, in_hand}
use oktrading.Engine.Serve.Runs.{goroutine_runs}
use oktrading.Engine.Live.{
  Live, goes_on, new_events, Step, others, goroutine, next_event, push, read, Lives, started, on,
}

-- The event that is being pushed.
abbrev in_push : Producer → List RawEvent
in_push resting = []
in_push (acquiring evt) = evt ∷ []
in_push (loaded evt h) = evt ∷ []
in_push (filling evt h) = evt ∷ []
in_push (filled evt) = evt ∷ []

Push-in_push :
    {m m' : Memory} {p p' : Producer} (st : Push m p m' p')
    → goes_on st ≡ true
    → m'.pushed ++ in_push p' ≡ m.pushed ++ in_push p
Push-in_push call g = cc
Push-in_push load g = refl
Push-in_push (wait x) g = refl
Push-in_push (acquire x) g = refl
Push-in_push (scribble anything) g = refl
Push-in_push fill g = refl
Push-in_push publish g = append-nil _

Read-pushed : {m m' : Memory} {k k' : Reader} → Read m k m' k' → m'.pushed ≡ m.pushed
Read-pushed look = refl
Read-pushed (nothing x) = refl
Read-pushed (see x) = refl
Read-pushed copy = refl
Read-pushed advance = refl

drop-append : (xs ys : List RawEvent) → drop (length xs) (xs ++ ys) ≡ ys
drop-append [] ys = refl
drop-append (x ∷ xs) ys = drop-append xs ys

-- An engine only adds to its log.
adds :
    (e e' : Engine) (evts : List RawEvent)
    → e'.outbound ≡ e.outbound ++ evts
    → e'.outbound ≡ e.outbound ++ new_events e e'
adds e e' evts q =
    q
    ∙ ap (λ xs. e.outbound ++ xs)
        (sym (ap (drop (length e.outbound)) q ∙ drop-append e.outbound evts))

adds_nothing : (e : Engine) → e.outbound ≡ e.outbound ++ new_events e e
adds_nothing e = adds e e [] (sym (append-nil e.outbound))

Serve-new_events :
    {s t : Service}
    → Serve s t
    → t.engine.outbound ≡ s.engine.outbound ++ new_events s.engine t.engine
Serve-new_events {s} (produce i mv) = adds_nothing s.engine
Serve-new_events {s} (poll w p) = adds_nothing s.engine
Serve-new_events {s} (handle now {c} {e} w q) =
    let p = process-Publishes now c s.engine e q in adds s.engine e p.events p.logged
Serve-new_events {s} (rest w) = adds_nothing s.engine
Serve-new_events {s} close = adds_nothing s.engine

others_log :
    {s t : Service} (st : Serve s t) → is_own st ≡ false → t.engine.outbound ≡ s.engine.outbound
others_log (produce i mv) g = refl
others_log (poll w p) g = cc
others_log (handle now w q) g = cc
others_log (rest w) g = cc
others_log close g = refl

-- Every event of the log since the start has been pushed, is being pushed, or waits in the queue.
abbrev Accounts : Engine → Live → Type 0
Accounts e s =
    s.service.engine.outbound
    ≡ e.outbound ++ (s.outbound.memory.pushed ++ (in_push s.outbound.producer ++ s.queue))

extends :
    {log : List RawEvent} (a p q evts : List RawEvent)
    → log ≡ a ++ (p ++ q)
    → q ≡ []
    → log ++ evts ≡ a ++ (p ++ evts)
extends a p q evts e n = rw (e, n) (simp (append-nil, append_assoc))

regroups :
    {log : List RawEvent} (a p q r p' q' : List RawEvent)
    → log ≡ a ++ (p ++ (q ++ r))
    → p' ++ q' ≡ p ++ q
    → log ≡ a ++ (p' ++ (q' ++ r))
regroups a p q r p' q' e same =
    e
    ∙ ap (λ k. a ++ k)
        (sym (append_assoc p q r) ∙ ap (λ k. k ++ r) (sym same) ∙ append_assoc p' q' r)

Step-Accounts : (e : Engine) {s t : Live} → Step s t → Accounts e s → Accounts e t
Step-Accounts e (others st g) a = others_log st g ∙ a
Step-Accounts e {s} (goroutine {t} st g idle free) a =
    let evts = new_events s.service.engine t.engine in
    let none_left : in_push s.outbound.producer ++ s.queue ≡ [] =
      ap (λ k. k ++ s.queue) (ap in_push free) ∙ idle in
    Serve-new_events st
    ∙ extends e.outbound s.outbound.memory.pushed (in_push s.outbound.producer ++ s.queue) evts a
        none_left
    ∙ ap (λ k. e.outbound ++ (s.outbound.memory.pushed ++ (k ++ evts))) (sym (ap in_push free))
Step-Accounts e {s} (next_event {evt} {queue} q free) a =
    a
    ∙ ap (λ k. e.outbound ++ (s.outbound.memory.pushed ++ k))
        (ap (λ k. k ++ s.queue) (ap in_push free) ∙ q)
Step-Accounts e {s} (push {m} {p} st g) a =
    regroups e.outbound s.outbound.memory.pushed (in_push s.outbound.producer) s.queue m.pushed
      (in_push p) a (Push-in_push st g)
Step-Accounts e {s} (read st) a =
    a
    ∙ ap (λ k. e.outbound ++ (k ++ (in_push s.outbound.producer ++ s.queue))) (sym (Read-pushed st))

-- The two parts of a live engine, each on its own.
Lives-Serves :
    {inbound_cap outbound_cap : ℕ} {e : Engine} {s : Live}
    → Lives inbound_cap outbound_cap e s
    → Serves inbound_cap e s.service
Lives-Serves started = Serve.started
Lives-Serves (on r (others st g)) = Serve.on (Lives-Serves r) st
Lives-Serves (on r (goroutine st g q f)) = Serve.on (Lives-Serves r) st
Lives-Serves (on r (next_event q f)) = Lives-Serves r
Lives-Serves (on r (push st g)) = Lives-Serves r
Lives-Serves (on r (read st)) = Lives-Serves r

Lives-Reach :
    {inbound_cap outbound_cap : ℕ} {e : Engine} {s : Live}
    → Lives inbound_cap outbound_cap e s
    → Reach outbound_cap s.outbound
Lives-Reach started = start
Lives-Reach (on r (others st g)) = Lives-Reach r
Lives-Reach (on r (goroutine st g q f)) = Lives-Reach r
Lives-Reach (on {s} r (next_event {evt} q f)) =
    let m = s.outbound.memory in
    later (Lives-Reach r) (Shared.produce (subst (λ p. Push m p m (acquiring evt)) (sym f) call))
Lives-Reach (on r (push st g)) = later (Lives-Reach r) (Shared.produce st)
Lives-Reach (on r (read st)) = later (Lives-Reach r) (Shared.consume st)

Lives-Accounts :
    {inbound_cap outbound_cap : ℕ} {e : Engine} {s : Live}
    → Lives inbound_cap outbound_cap e s
    → Accounts e s
Lives-Accounts {e} started = sym (append-nil e.outbound)
Lives-Accounts {e} (on r st) = Step-Accounts e st (Lives-Accounts r)

take_of_append : (n : ℕ) (xs ys : List RawEvent) → n ≤ length xs → take n (xs ++ ys) ≡ take n xs
take_of_append zero xs ys le = refl
take_of_append (suc n) [] ys le = absurd (omega arith)
take_of_append (suc n) (x ∷ xs) ys le = ap (λ r. x ∷ r) (take_of_append n xs ys (omega arith))

-- Whatever the order of the accesses of the producers, the goroutine and the reader, from an engine
-- whose log is empty: the engine has run the commands that were handled, which with the one in hand
-- are those that producers claimed first; what the reader has seen are the first events of the log of
-- that run, in its order; and once the goroutine has pushed all it had to, the published events are
-- the whole log.
pub live_order :
    {inbound_cap outbound_cap : ℕ} {e : Engine} {s : Live}
    → inbound_cap ≤ 2 ^ 62
    → e.outbound ≡ []
    → Lives inbound_cap outbound_cap e s
    → Inbound.IsSmall s.service.shared.memory
    → IsSmall s.outbound.memory
    → (run s.service.handled e ≡ some s.service.engine)
      × (commands_of s.service.handled ++ in_hand s.service.worker
          ≡ take (length s.service.shared.memory.popped) s.service.shared.memory.claims)
      × (s.outbound.memory.popped
          ≡ map some (take (length s.outbound.memory.popped) s.service.engine.outbound))
      × (s.queue ≡ []
          → s.outbound.producer ≡ resting
          → s.outbound.memory.pushed ≡ s.service.engine.outbound)
live_order {e} {s} le fresh r small_in small_out =
    let (ran, order) = goroutine_runs le (Lives-Serves r) small_in in
    let (fifo, fewer, near) = events_fifo (Lives-Reach r) small_out in
    let pushed = s.outbound.memory.pushed in
    let rest = in_push s.outbound.producer ++ s.queue in
    let log : s.service.engine.outbound ≡ pushed ++ rest =
      Lives-Accounts r ∙ ap (λ k. k ++ (pushed ++ rest)) fresh in
    (
      ran,
      order,
      fifo
          ∙ ap (map some) (
              sym (
                ap (take (length s.outbound.memory.popped)) log
                ∙ take_of_append (length s.outbound.memory.popped) pushed rest fewer)),
      λ idle free. sym (
          log
          ∙ ap (λ k. pushed ++ (k ++ s.queue)) (ap in_push free)
          ∙ ap (λ k. pushed ++ k) idle
          ∙ append-nil pushed),
    )
