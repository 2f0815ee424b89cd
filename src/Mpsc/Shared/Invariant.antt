-- ===== src/Mpsc/Shared/Invariant.antt =====
-- pkg/mpsc/ring.go: what holds between the accesses of `TrySubmit` and `TryPop`.
pub mod Frame
pub mod Moved
pub mod Claim
pub mod Fill
pub mod Produce
pub mod Consume
use oktrading.Prelude.{
  ℕ, ◌+◌, ◌^◌, ◌≤◌, ◌<◌, ◌≡◌, ◌≢◌, Option, none, some, map, length, get_elem?, take,
}
use oktrading.Types.{Command}
use oktrading.Mpsc.{lap_of}
use oktrading.Mpsc.Shared.{
  Memory, Pc, loaded, room, claimed, written, Consumer, ready, found, took, cleared, slot, System,
}
use oktrading.Mpsc.Shared.Cells.{span}

-- The sequence number whose slot a producer owns.
abbrev pub owned : Pc → Option ℕ
owned (claimed c s) = some s
owned (written s) = some s
owned _ = none

-- The first sequence number whose command the slots still hold.
abbrev pub held_from : Consumer → ℕ → ℕ
held_from (cleared c) t = t + 1
held_from _ t = t

-- The slot of `s` is claimed and not published.
pub record IsPending (m : Memory) (s : ℕ) : Type 0 where
  pub above : m.ring.tail ≤ s
  pub below : s < m.ring.cursor
  pub unpublished : (slot m s).lap ≢ lap_of m.ring s

-- What the locals of a producer say about the ring.
abbrev pub IsFresh : Memory → Pc → Type 0
IsFresh m (loaded c cur) = cur ≤ m.ring.cursor
IsFresh m (room c cur) = cur < m.ring.tail + span m
IsFresh m (claimed c s) = IsPending m s × (get_elem? m.claims s ≡ some c)
IsFresh m (written s) = IsPending m s × ((slot m s).cmd ≡ get_elem? m.claims s)
IsFresh m _ = Unit

-- The oldest slot is published.
pub record HasNext (m : Memory) : Type 0 where
  pub some_left : m.ring.tail < m.ring.cursor
  pub published : (slot m m.ring.tail).lap ≡ lap_of m.ring m.ring.tail

-- What the locals of the consumer say about the ring.
abbrev pub IsCurrent : Memory → Consumer → Type 0
IsCurrent m ready = Unit
IsCurrent m found = HasNext m
IsCurrent m (took c) = HasNext m × (c ≡ get_elem? m.claims m.ring.tail)
IsCurrent m (cleared c) = HasNext m × (c ≡ get_elem? m.claims m.ring.tail)

pub record Counts (m : Memory) : Type 0 where
  pub size : 2 ^ m.ring.log2 ≡ span m
  pub counted : m.ring.cursor ≡ length m.claims
  pub drained : m.ring.tail ≡ length m.popped
  pub behind : m.ring.tail ≤ m.ring.cursor
  pub bounded : m.ring.cursor ≤ m.ring.tail + span m
  pub fifo : m.popped ≡ map some (take m.ring.tail m.claims)

pub record Inv (s : System) : Type 0 where
  pub counts : Counts s.memory
  pub free :
      (t : ℕ)
      → s.memory.ring.cursor ≤ t
      → t < s.memory.ring.tail + span s.memory
      → (slot s.memory t).lap ≢ lap_of s.memory.ring t
  pub holds :
      (t : ℕ)
      → held_from s.consumer s.memory.ring.tail ≤ t
      → t < s.memory.ring.cursor
      → (slot s.memory t).lap ≡ lap_of s.memory.ring t
      → (slot s.memory t).cmd ≡ get_elem? s.memory.claims t
  pub unique : (i j t : ℕ) → owned (s.pc i) ≡ some t → owned (s.pc j) ≡ some t → i ≡ j
  pub covered : (t : ℕ) → IsPending s.memory t → (i : ℕ) × (owned (s.pc i) ≡ some t)
  pub fresh : (i : ℕ) → IsFresh s.memory (s.pc i)
  pub current : IsCurrent s.memory s.consumer

-- A state in which the counters have not wrapped, nor can a load of theirs see it.
abbrev pub IsSmall : Memory → Type 0
IsSmall m = length m.claims + span m + 1 ≤ 2 ^ 64
