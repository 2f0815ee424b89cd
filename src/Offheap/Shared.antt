-- ===== src/Offheap/Shared.antt =====
-- pkg/offheap/ring.go: the outbound ring an access at a time. The engine pushes and one reader pops,
-- interleaved in any order. The slab is plain memory: while the producer fills a slot, the slot may
-- hold anything.
pub mod Invariant
pub mod Keeps
pub mod Reached
pub mod Safety
use oktrading.Prelude.{
  ℕ, ◌+◌, ◌-◌, ◌<◌, ◌≡◌, ◌≢◌, Bool, true, false, Option, some, List, [], ◌∷◌, ◌++◌, ltb, leb,
  if◌then◌else◌,
}
use oktrading.Prelude.Maps.{update, empty}
use oktrading.Int64.{add64, sub64}
use oktrading.Offheap.{RawEvent}
use oktrading.Offheap.Ring.{EventRing}
use oktrading.Disruptor.{slot_of, smear}

-- `nextPow2`
unfoldable pub next_pow2 : ℕ → ℕ
next_pow2 n =
    if leb n 2 then 2 else smear (smear (smear (smear (smear (smear (n - 1) 1) 2) 4) 8) 16) 32 + 1

-- `New`, where `malloc` returns a slab for all the slots. The number of bytes it asks for, 128 for a slot,
-- wraps from 2 ^ 57 slots on; the slab is a map of slots here, and that is not modelled.
unfoldable pub new : ℕ → EventRing
new capacity = record { slots = empty; mask = next_pow2 capacity - 1; head = 0; tail = 0 }

-- The ring, and two histories: the events whose pushes have been published, and what the pops have
-- copied.
pub record Memory : Type 0 where
  pub ring : EventRing
  pub pushed : List RawEvent
  pub popped : List (Option RawEvent)

-- Where the producer stands in a `Push` function: in `acquireSlot`, filling the slot, about to publish.
pub data Producer : Type 0 where
  resting : Producer
  acquiring : RawEvent → Producer
  loaded : RawEvent → ℕ → Producer
  filling : RawEvent → ℕ → Producer
  filled : RawEvent → Producer

-- Where the reader stands in `TryPop`.
pub data Reader : Type 0 where
  ready : Reader
  looking : ℕ → Reader
  copying : ℕ → Reader
  copied : Option RawEvent → Reader

abbrev pub store : ℕ → RawEvent → Memory → Memory
store h evt m = record m {
  ring = record (m.ring) { slots = update m.ring.slots (slot_of m.ring h) evt };
}

-- `r.producer.head.Add(1)`
abbrev pub advance_head : RawEvent → Memory → Memory
advance_head evt m = record m {
  ring = record (m.ring) { head = add64 m.ring.head 1 };
  pushed = m.pushed ++ (evt ∷ []);
}

-- `r.consumer.tail.Add(1)`
abbrev pub advance_tail : Option RawEvent → Memory → Memory
advance_tail evt m = record m {
  ring = record (m.ring) { tail = add64 m.ring.tail 1 };
  popped = m.popped ++ (evt ∷ []);
}

-- `head-tail < r.mask+1`, for a head that was loaded before.
abbrev pub has_room : EventRing → ℕ → Bool
has_room r head = ltb (sub64 head r.tail) (r.mask + 1)

-- One access of the producer. `scribble` is any write on the way to the finished event.
pub data Push (m : Memory) : Producer → Memory → Producer → Type 0 where
  call : {evt : RawEvent} → Push m resting m (acquiring evt)
  load : {evt : RawEvent} → Push m (acquiring evt) m (loaded evt m.ring.head)
  wait :
      {evt : RawEvent} {h : ℕ} → has_room m.ring h ≡ false → Push m (loaded evt h) m (acquiring evt)
  acquire :
      {evt : RawEvent} {h : ℕ} → has_room m.ring h ≡ true → Push m (loaded evt h) m (filling evt h)
  scribble :
      {evt : RawEvent} {h : ℕ} (anything : RawEvent)
      → Push m (filling evt h) (store h anything m) (filling evt h)
  fill : {evt : RawEvent} {h : ℕ} → Push m (filling evt h) (store h evt m) (filled evt)
  publish : {evt : RawEvent} → Push m (filled evt) (advance_head evt m) resting

-- One access of the reader.
pub data Read (m : Memory) : Reader → Memory → Reader → Type 0 where
  look : Read m ready m (looking m.ring.tail)
  nothing : {t : ℕ} → m.ring.head ≡ t → Read m (looking t) m ready
  see : {t : ℕ} → m.ring.head ≢ t → Read m (looking t) m (copying t)
  copy : {t : ℕ} → Read m (copying t) m (copied (m.ring.slots (slot_of m.ring t)))
  advance : {evt : Option RawEvent} → Read m (copied evt) (advance_tail evt m) ready

pub record Outbound : Type 0 where
  pub memory : Memory
  pub producer : Producer
  pub reader : Reader

pub data Step (s : Outbound) : Outbound → Type 0 where
  produce :
      {m : Memory} {p : Producer}
      → Push s.memory s.producer m p
      → Step s (record s { memory = m; producer = p })
  consume :
      {m : Memory} {k : Reader}
      → Read s.memory s.reader m k
      → Step s (record s { memory = m; reader = k })

abbrev pub start_of : ℕ → Outbound
start_of capacity = record {
  memory = record { ring = new capacity; pushed = []; popped = [] };
  producer = resting;
  reader = ready;
}

pub data Reach (capacity : ℕ) : Outbound → Type 0 where
  start : Reach capacity (start_of capacity)
  later : {s t : Outbound} → Reach capacity s → Step s t → Reach capacity t
