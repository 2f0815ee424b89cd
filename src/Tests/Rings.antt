-- ===== src/Tests/Rings.antt =====
-- The theorems on the rings, applied to rings of eight slots whose counters are about to wrap.
use oktrading.Prelude.{ℕ, ◌≡◌, ◌-◌, ◌^◌, none, List, [], ◌∷◌, arith}
use oktrading.Prelude.Maps.{empty}
use oktrading.Int64.{sub64}
use oktrading.Offheap.{RawEvent, zero_slot}
use oktrading.Offheap.Ring.{Pushes, Pops, event_ring_queue}
use oktrading.Disruptor.{RingBuffer}
use oktrading.Disruptor.Refine.{IsRing, Op, push, pop, run, queue_run, contents, run_refines}

abbrev eight {ℓ} : {A : Type ℓ} → RingBuffer A
eight = record { slots = empty; mask = 7; head = 2 ^ 64 - 1; tail = 2 ^ 64 - 1 }

eight-IsRing : IsRing (2 ^ 61) (eight {A = ℕ})
unfolding sub64
eight-IsRing = omega arith

events-IsRing : IsRing (2 ^ 61) (eight {A = RawEvent})
unfolding sub64
events-IsRing = omega arith

abbrev calls : List (Op ℕ)
calls = push 5 ∷ push 6 ∷ pop ∷ pop ∷ pop ∷ []

run_refines_example : run eight calls ≡ queue_run 8 (contents eight) calls
run_refines_example = run_refines (2 ^ 61) calls eight eight-IsRing

event_ring_queue_example :
    Pushes (2 ^ 61) eight events-IsRing zero_slot × Pops (2 ^ 61) eight events-IsRing none
event_ring_queue_example = event_ring_queue (2 ^ 61) eight events-IsRing zero_slot none
