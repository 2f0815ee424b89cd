-- ===== src/Engine/Replay.antt =====
-- pkg/engine/engine.go: what the wall clock decides.
use oktrading.Prelude.{
  ℕ, ◌≡◌, ◌≢◌, refl, ap, Option, none, some, List, [], ◌∷◌, arith, All, map, Option-cases, inl, inr,
}
use oktrading.Int64.{add64}
use oktrading.Types.{Order, Command, CommandType, cmd_new_order, cmd_cancel_order, other_command}
use oktrading.Engine.{Engine, stamp, new_order, handle_new_order, dispatch, process, run}

-- The command carries no order, or an order with a time.
abbrev pub IsTimed : Option Order → Type 0
IsTimed none = Unit
IsTimed (some o) = o.timestamp ≢ 0

stamp_timed : (now now' seq : ℕ) (o : Order) → o.timestamp ≢ 0 → stamp now seq o ≡ stamp now' seq o
stamp_timed now now' seq o ne = ground (arith, ne)

dispatch_timed :
    (t : CommandType) (now now' : ℕ) (c : Command) (e : Engine)
    → IsTimed c.order
    → dispatch t now c e ≡ dispatch t now' c e
unfolding dispatch handle_new_order
dispatch_timed cmd_new_order now now' c e timed = elim (Option-cases c.order) [
  | inl nil ↦ rw (handle_new_order, nil) refl
  | inr (o, ok) ↦
      rw (handle_new_order, ok)
        (ap (λ (x : Order). new_order x.type x e)
          (stamp_timed now now' c.sequence_no o (rw ok at timed)))
]
dispatch_timed cmd_cancel_order now now' c e timed = refl
dispatch_timed (other_command k) now now' c e timed = refl

process_timed :
    (now now' : ℕ) (c : Command) (e : Engine) → IsTimed c.order → process now c e ≡ process now' c e
unfolding process
process_timed now now' c e timed =
    let c' : Command = record c { sequence_no = add64 e.local_seq 1 } in
    let e' : Engine = record e { local_seq = add64 e.local_seq 1 } in
    rw (process, dispatch_timed c.type now now' c' e' timed) refl

-- A command with what the clock of the engine and that of a replica read when they process it.
abbrev pub Entry : Type 0
Entry = ℕ × ℕ × Command

abbrev pub on_engine : Entry → ℕ × Command
on_engine x = (x.0, x.2)

abbrev pub on_replica : Entry → ℕ × Command
on_replica x = (x.1, x.2)

-- A replica that processes the same commands from the same state ends in the same state, whatever its
-- clock reads, if every order carries a time already.
pub run_replays :
    (entries : List Entry) (e : Engine)
    → All (λ (x : Entry). IsTimed x.2.order) entries
    → run (map on_engine entries) e ≡ run (map on_replica entries) e
unfolding run
run_replays [] e timed = refl
run_replays (x ∷ entries) e timed =
    let same = process_timed x.0 x.1 x.2 e timed.0 in
    elim (Option-cases (process x.1 x.2 e)) [
      | inl panic ↦ rw (run, same, panic) refl
      | inr (e1, ok) ↦ rw (run, same, ok) (run_replays entries e1 timed.1)
    ]
