-- ===== src/Engine/Numbering.antt =====
-- pkg/engine/engine.go: the sequence number and the log through `run`.
use oktrading.Prelude.{
  ℕ, suc, ◌+◌, ◌%◌, ◌^◌, ◌<◌, ◌≡◌, refl, ap, sym, subst, ◌∙◌, none, some, List, [], ◌∷◌, ◌++◌,
  append-nil, append_assoc, arith, length, Option-cases, inl, inr, result_unique,
}
use oktrading.Int64.{add64}
use oktrading.Types.{Command}
use oktrading.Offheap.{RawEvent}
use oktrading.Engine.{Engine, process, run}
use oktrading.Engine.Events.{TradeIds, TradeIds-append}
use oktrading.Engine.Log.{process-Publishes}

stuck : {x : Engine} → none ≡ some x → ⊥
stuck e = cc

-- The first command of a list that was processed, and the rest.
run_cons :
    (now : ℕ) (c : Command) (cmds : List (ℕ × Command)) (e e' : Engine)
    → run ((now, c) ∷ cmds) e ≡ some e'
    → (e1 : Engine) × (process now c e ≡ some e1) × (run cmds e1 ≡ some e')
unfolding run
run_cons now c cmds e e' r = elim (Option-cases (process now c e)) [
  | inl panic ↦ absurd (stuck (rw (run, panic) at r))
  | inr (e1, ok) ↦ (e1, ok, rw (run, ok) at r)
]

run_nil : (e e' : Engine) → run [] e ≡ some e' → e ≡ e'
unfolding run
run_nil e e' r = result_unique refl r

add64-lt : (a b : ℕ) → add64 a b < 2 ^ 64
unfolding add64
add64-lt a b = omega arith

one_more : (a n : ℕ) → (add64 a 1 + n) % 2 ^ 64 ≡ (a + suc n) % 2 ^ 64
unfolding add64
one_more a n = omega arith

-- When the engine has processed a list of commands of whatever kinds, its sequence number has advanced
-- by exactly as many, modulo 2 ^ 64.
pub run_numbers :
    (cmds : List (ℕ × Command)) (e e' : Engine)
    → e.local_seq < 2 ^ 64
    → run cmds e ≡ some e'
    → e'.local_seq ≡ (e.local_seq + length cmds) % 2 ^ 64
run_numbers [] e e' lt r = omega (arith, ap (λ (x : Engine). x.local_seq) (run_nil e e' r), lt)
run_numbers ((now, c) ∷ cmds) e e' lt r =
    let (e1, ok, later) = run_cons now c cmds e e' r in
    let one = (process-Publishes now c e e1 ok).same_seq in
    let small = subst (λ s. s < 2 ^ 64) (sym one) (add64-lt e.local_seq 1) in
    run_numbers cmds e1 e' small later
    ∙ ap (λ s. (s + length cmds) % 2 ^ 64) one
    ∙ one_more e.local_seq (length cmds)

-- When the engine has processed a list of commands, its log is the old one with events behind it, and
-- the trades among these have all the trade ids between the old and the new counter, in order.
pub run_logs :
    (cmds : List (ℕ × Command)) (e e' : Engine)
    → run cmds e ≡ some e'
    → (events : List RawEvent) × (e'.outbound ≡ e.outbound ++ events)
      × TradeIds e.trade_seq events e'.trade_seq
run_logs [] e e' r =
    let same = run_nil e e' r in
    (
      [],
      sym (append-nil e.outbound ∙ ap (λ (x : Engine). x.outbound) same),
      ap (λ (x : Engine). x.trade_seq) same,
    )
run_logs ((now, c) ∷ cmds) e e' r =
    let (e1, ok, later) = run_cons now c cmds e e' r in
    let p = process-Publishes now c e e1 ok in
    let (events, logged, trades) = run_logs cmds e1 e' later in
    (
      p.events ++ events,
      logged ∙ ap (λ l. l ++ events) p.logged ∙ append_assoc e.outbound p.events events,
      TradeIds-append e.trade_seq e1.trade_seq e'.trade_seq p.events events p.trades trades,
    )
