-- ===== src/Offheap/Ring.antt =====
-- pkg/offheap/ring.go: the outbound ring. Its slab, mask and counters are those of the ring of
-- pkg/disruptor with events for items, and so is the state here. `acquireSlot` spins while the ring
-- is full: `none` is one round of that spin, after which the producer tries again.
use oktrading.Prelude.{
  ℕ, ◌+◌, ◌<◌, ◌≡◌, ◌⊎◌, inl, inr, refl, Bool, true, false, Option, none, some, [], ◌∷◌, ◌++◌,
  arith, ltb, ◌==◌, if◌then◌else◌, length, Bool-cases, ltb→le,
}
use oktrading.Prelude.Maps.{update}
use oktrading.Int64.{add64, sub64}
use oktrading.Offheap.{RawEvent}
use oktrading.Disruptor.{RingBuffer, slot_of}
use oktrading.Disruptor.Refine.{
  IsRing, contents, after_push, after_pop, contents-push, contents-pop, contents-idle, push-IsRing,
  pop-IsRing, length-contents,
}

abbrev pub EventRing : Type 0
EventRing = RingBuffer RawEvent

-- `acquireSlot`: the index of the slot to write.
pub acquire_slot : EventRing → Option ℕ
acquire_slot r = if ltb (sub64 r.head r.tail) (r.mask + 1) then some (slot_of r r.head) else none

-- What the three `Push` functions do with the event that they write.
pub push_event : RawEvent → EventRing → Option EventRing
unfolding acquire_slot
push_event evt r = elim (acquire_slot r) [
  | none ↦ none
  | some i ↦ some (record r { slots = update r.slots i evt; head = add64 r.head 1 })
]

-- `TryPop`: whether there was an event, what `*dst` holds then, and the ring. A slot that was never
-- written would give what the memory holds: `none`.
pub try_pop_event : Option RawEvent → EventRing → Bool × Option RawEvent × EventRing
try_pop_event dst r =
    if r.head == r.tail
    then (false, dst, r)
    else (true, r.slots (slot_of r r.tail), record r { tail = add64 r.tail 1 })

push_event_free :
    (evt : RawEvent) (r : EventRing)
    → ltb (sub64 r.head r.tail) (r.mask + 1) ≡ true
    → push_event evt r
      ≡ some (record r { slots = update r.slots (slot_of r r.head) evt; head = add64 r.head 1 })
unfolding push_event
push_event_free evt r free = rw (push_event, acquire_slot, free) refl

push_event_full :
    (evt : RawEvent) (r : EventRing)
    → ltb (sub64 r.head r.tail) (r.mask + 1) ≡ false
    → push_event evt r ≡ none
unfolding push_event
push_event_full evt r full = rw (push_event, acquire_slot, full) refl

pop_idle :
    (dst : Option RawEvent) (r : EventRing)
    → (r.head == r.tail) ≡ true
    → try_pop_event dst r ≡ (false, dst, r)
unfolding try_pop_event
pop_idle dst r e = rw (try_pop_event, e) refl

pop_busy :
    (dst : Option RawEvent) (r : EventRing)
    → (r.head == r.tail) ≡ false
    → try_pop_event dst r ≡ (true, r.slots (slot_of r r.tail), record r { tail = add64 r.tail 1 })
unfolding try_pop_event
pop_busy dst r e = rw (try_pop_event, e) refl

module _ (rounds : ℕ) (r : EventRing) (v : IsRing rounds r) where
  -- What a push does: it finds the ring full, or it appends the event.
  abbrev pub Pushes : RawEvent → Type 0
  Pushes evt =
      ((push_event evt r ≡ none) × (length (contents r) ≡ r.mask + 1))
      ⊎ ((r' : EventRing) × (push_event evt r ≡ some r')
          × (contents r' ≡ contents r ++ (some evt ∷ []))
          × IsRing rounds r')

  -- What a pop does: it finds the ring empty, or it takes the oldest event.
  abbrev pub Pops : Option RawEvent → Type 0
  Pops dst =
      ((contents r ≡ []) × (try_pop_event dst r ≡ (false, dst, r)))
      ⊎ ((evt : Option RawEvent) × (r' : EventRing) × (contents r ≡ evt ∷ contents r')
          × (try_pop_event dst r ≡ (true, evt, r'))
          × IsRing rounds r')

  -- The outbound ring is a bounded queue of events: a push waits exactly while the ring is full and
  -- then appends its event, and a pop takes the oldest event, or finds none in an empty ring and
  -- leaves the destination as it was.
  pub event_ring_queue : (evt : RawEvent) (dst : Option RawEvent) → Pushes evt × Pops dst
  event_ring_queue evt dst = (pushes, pops)
    where
      pushes : Pushes evt
      pushes = elim (Bool-cases (ltb (sub64 r.head r.tail) (r.mask + 1))) [
        | inl free ↦
            let lt : sub64 r.head r.tail < r.mask + 1 = ground (arith, free) in
            inr (
              after_push rounds r v evt lt,
              push_event_free evt r free,
              contents-push rounds r v evt lt,
              push-IsRing rounds r v evt lt,
            )
        | inr full ↦ inl (
          push_event_full evt r full,
          omega (arith, length-contents rounds r v, v.filled, ltb→le _ _ full),
        )
      ]

      pops : Pops dst
      pops = elim (Bool-cases (r.head == r.tail)) [
        | inl idle ↦ inl (contents-idle rounds r v idle, pop_idle dst r idle)
        | inr busy ↦ inr (
          r.slots (slot_of r r.tail),
          after_pop rounds r v busy,
          contents-pop rounds r v busy,
          pop_busy dst r busy,
          pop-IsRing rounds r v busy,
        )
      ]
