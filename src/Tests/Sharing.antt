-- ===== src/Tests/Sharing.antt =====
-- A shared ring of two slots: one producer submits while another still holds the cursor that it loaded
-- before, and the consumer pops.
use oktrading.Prelude.{
  ℕ, ◌+◌, ◌≤◌, ◌<◌, ◌≡◌, ◌↔◌, ◌⊎◌, refl, true, none, some, length, arith, [], ◌∷◌,
}
use oktrading.Bits.{digits}
use oktrading.Int64.{add64, sub64, bias}
use oktrading.Types.{Command, cmd_cancel_order}
use oktrading.Mpsc.{lap_of, is_full, next_pow2, new}
use oktrading.Mpsc.Shared.{
  System, Reach, start, later, produce, consume, call, load, pass, win, write, publish, find,
  take_cmd, clear, advance, slot,
}
use oktrading.Mpsc.Shared.Cells.{span}
use oktrading.Mpsc.Shared.Invariant.{owned}
use oktrading.Mpsc.Shared.Safety.{shared_fifo, shared_bounds, shared_kept, shared_refused}

abbrev cancel : Command
cancel = record {
  type = cmd_cancel_order;
  order = none;
  cancel_id = 1;
  user_id = 5;
  sequence_no = 0;
}

-- Producer 1 has loaded the cursor of the empty ring; producer 0 has submitted.
abbrev submitted : (s : System) × Reach 2 s
unfolding new next_pow2 digits bias sub64 add64
submitted = (
  _,
  later
      (later
        (later
          (later
            (later
              (later (later (later start (produce 1 (call {c = cancel}))) (produce 1 load))
                (produce 0 (call {c = cancel})))
              (produce 0 load))
            (produce 0 (pass refl)))
          (produce 0 (win refl)))
        (produce 0 write))
      (produce 0 publish),
)

-- The consumer has popped the command.
abbrev popped : (s : System) × Reach 2 s
unfolding new next_pow2 digits bias sub64 add64
popped = (
  _,
  later
      (later (later (later (submitted.1) (consume (find refl))) (consume take_cmd)) (consume clear))
      (consume advance),
)

shared_fifo_example : popped.0.memory.popped ≡ some cancel ∷ []
unfolding popped
shared_fifo_example = shared_fifo (omega arith) (popped.1) (omega arith)

shared_bounds_example :
    (length submitted.0.memory.popped ≤ length submitted.0.memory.claims)
    × (length submitted.0.memory.claims ≤ length submitted.0.memory.popped + next_pow2 2)
unfolding submitted
shared_bounds_example = shared_bounds (omega arith) (submitted.1) (omega arith)

shared_kept_example :
    (((slot submitted.0.memory 0).lap ≡ lap_of submitted.0.memory.ring 0)
      × ((slot submitted.0.memory 0).cmd ≡ some cancel))
    ⊎ ((i : ℕ) × (owned (submitted.0.pc i) ≡ some 0)
        × ((j : ℕ) → owned (submitted.0.pc j) ≡ some 0 → j ≡ i))
unfolding submitted
shared_kept_example =
    shared_kept (omega arith) (submitted.1) (omega arith) 0 (omega arith) (omega arith)

-- The ring is empty, and producer 1 is refused.
shared_refused_example :
    (is_full popped.0.memory.ring 0 ≡ true)
    ↔ ((0 < popped.0.memory.ring.tail) ⊎ (popped.0.memory.ring.tail + span popped.0.memory ≤ 0))
unfolding popped
shared_refused_example = shared_refused (omega arith) (popped.1) (omega arith) 1 cancel 0 refl
