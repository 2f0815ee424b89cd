-- ===== src/Tests/Publishing.antt =====
-- An outbound ring of two slots: the producer fills the second slot while the reader copies the first.
use oktrading.Prelude.{ℕ, ◌+◌, ◌≤◌, ◌<◌, ◌≡◌, ◌≢◌, ◌↔◌, refl, true, some, length, arith, [], ◌∷◌}
use oktrading.Int64.{add64, sub64}
use oktrading.Offheap.{RawEvent, zero_slot}
use oktrading.Disruptor.{slot_of}
use oktrading.Offheap.Shared.{
  Outbound, Reach, start, later, produce, consume, call, load, acquire, scribble, fill, publish,
  look, see, copy, advance, has_room, next_pow2, new,
}
use oktrading.Offheap.Shared.Invariant.{span}
use oktrading.Offheap.Shared.Safety.{events_fifo, events_apart, events_wait}

abbrev event : ℕ → RawEvent
event id = record zero_slot { order_id = id }

-- One event is published, and the producer has loaded the head for another.
abbrev acquiring_second : (s : Outbound) × Reach 2 s
unfolding new next_pow2 sub64 add64
acquiring_second = (
  _,
  later
      (later
        (later
          (later
            (later (later (later start (produce (call {evt = event 1}))) (produce load))
              (produce (acquire refl)))
            (produce fill))
          (produce publish))
        (produce (call {evt = event 2})))
      (produce load),
)

-- The producer has half filled the second slot, and the reader is about to copy the first.
abbrev both_busy : (s : Outbound) × Reach 2 s
unfolding new next_pow2 sub64 add64 acquiring_second
both_busy = (
  _,
  later
      (later
        (later (later (acquiring_second.1) (produce (acquire refl))) (produce (scribble zero_slot)))
        (consume look))
      (consume (see (λ e. omega (arith, e)))),
)

abbrev one_read : (s : Outbound) × Reach 2 s
unfolding new next_pow2 sub64 add64 both_busy
one_read = (_, later (later (both_busy.1) (consume copy)) (consume advance))

events_fifo_example :
    (one_read.0.memory.popped ≡ some (event 1) ∷ [])
    × (length one_read.0.memory.popped ≤ length one_read.0.memory.pushed)
    × (length one_read.0.memory.pushed ≤ length one_read.0.memory.popped + span one_read.0.memory)
unfolding one_read new next_pow2
events_fifo_example = events_fifo (one_read.1) (omega arith)

events_apart_example : slot_of both_busy.0.memory.ring 1 ≢ slot_of both_busy.0.memory.ring 0
unfolding both_busy new next_pow2
events_apart_example = events_apart (both_busy.1) (omega arith) (event 2) 1 0 refl refl

events_wait_example : (has_room acquiring_second.0.memory.ring 1 ≡ true) ↔ (
    length acquiring_second.0.memory.pushed
    < length acquiring_second.0.memory.popped + span acquiring_second.0.memory)
unfolding acquiring_second new next_pow2
events_wait_example = events_wait (acquiring_second.1) (omega arith) (event 2) 1 refl
