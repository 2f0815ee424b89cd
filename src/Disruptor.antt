-- ===== src/Disruptor.antt =====
-- pkg/disruptor/ring_buffer.go: the ring of one producer and one consumer. The counters are `uint64`
-- and wrap. Each call is one step: only the producer moves `head` and only the consumer `tail`.
pub mod Window
pub mod Refine
use oktrading.Prelude.{
  ℕ, zero, suc, ◌+◌, ◌-◌, ◌/◌, ◌%◌, ◌^◌, Bool, true, false, Option, none, some, ltb, leb, ◌==◌,
  if◌then◌else◌,
}
use oktrading.Prelude.Maps.{update, empty}
use oktrading.Int64.{add64, sub64}
use Prim.Native.Nat.{bit_or}

-- `slots` maps an index to the pointer that was stored there, `none` for nil.
pub record RingBuffer {ℓ} (A : Type ℓ) : Type ℓ where
  pub slots : ℕ → Option A
  pub mask : ℕ
  pub head : ℕ
  pub tail : ℕ

unfoldable pub smear : ℕ → ℕ → ℕ
smear n k = bit_or n (n / 2 ^ k)

-- `nextPow2`, for an argument that is not negative and far from overflow.
pub next_pow2 : ℕ → ℕ
unfolding smear
next_pow2 n =
    if leb n 1 then 1 else smear (smear (smear (smear (smear (smear (n - 1) 1) 2) 4) 8) 16) 32 + 1

module _ {ℓ} {A : Type ℓ} where
  -- `i & mask`, for a mask below a power of two.
  abbrev pub slot_of : RingBuffer A → ℕ → ℕ
  slot_of rb i = i % (rb.mask + 1)

  -- `len(rb.slots)`
  abbrev pub capacity : RingBuffer A → ℕ
  capacity rb = rb.mask + 1

  pub try_push : RingBuffer A → A → Bool × RingBuffer A
  try_push rb item = if leb (capacity rb) (sub64 rb.head rb.tail) then (false, rb) else (
    true,
    record rb { slots = update rb.slots (slot_of rb rb.head) item; head = add64 rb.head 1 },
  )

  -- `none` for an empty ring, else the pointer in the slot.
  pub try_pop : RingBuffer A → Option (Option A) × RingBuffer A
  try_pop rb =
      if rb.head == rb.tail
      then (none, rb)
      else (some (rb.slots (slot_of rb rb.tail)), record rb { tail = add64 rb.tail 1 })

  pub len : RingBuffer A → ℕ
  len rb = if ltb rb.head rb.tail then 0 else sub64 rb.head rb.tail

pub new {ℓ} : (A : Type ℓ) → ℕ → RingBuffer A
unfolding next_pow2
new A size = record { slots = empty; mask = next_pow2 size - 1; head = 0; tail = 0 }
