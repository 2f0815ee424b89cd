-- ===== src/Offheap/Shared/Safety.antt =====
-- pkg/offheap/ring.go: what the engine and the reader of its events can rely on, whatever the order of
-- their accesses.
use oktrading.Prelude.{
  ℕ, ◌+◌, ◌≤◌, ◌<◌, ◌≡◌, ◌≢◌, ◌↔◌, some, map, take, length, true, arith, ◌∙◌, ap, subst,
}
use oktrading.Prelude.Rounds.{slots-ne}
use oktrading.Int64.{sub64, sub64_lem}
use oktrading.Offheap.{RawEvent}
use oktrading.Disruptor.{slot_of}
use oktrading.Offheap.Shared.{Outbound, Reach, loaded, filling, copying, has_room}
use oktrading.Offheap.Shared.Invariant.{span, IsFresh, IsCurrent, Inv, IsSmall}
use oktrading.Offheap.Shared.Reached.{Reach-Inv}

module _ {capacity : ℕ} {s : Outbound} (r : Reach capacity s) (small : IsSmall s.memory) where
  inv : Inv s
  inv = Reach-Inv r small

  -- What the reader has copied is what was published first, complete and in order, and never more is
  -- published and not read than the ring has slots.
  pub events_fifo :
      (s.memory.popped ≡ map some (take (length s.memory.popped) s.memory.pushed))
      × (length s.memory.popped ≤ length s.memory.pushed)
      × (length s.memory.pushed ≤ length s.memory.popped + span s.memory)
  events_fifo =
      let n = inv.counts in
      (
        n.fifo ∙ ap (λ k. map some (take k s.memory.pushed)) n.drained,
        omega (arith, n.behind, n.counted, n.drained),
        omega (arith, n.bounded, n.counted, n.drained),
      )

  -- While the producer fills a slot and the reader copies one, they are two different slots.
  pub events_apart :
      (evt : RawEvent) (h t : ℕ)
      → s.producer ≡ filling evt h
      → s.reader ≡ copying t
      → slot_of s.memory.ring h ≢ slot_of s.memory.ring t
  events_apart evt h t e f =
      let p : IsFresh s.memory (filling evt h) = subst (IsFresh s.memory) e inv.fresh in
      let k : IsCurrent s.memory (copying t) = subst (IsCurrent s.memory) f inv.current in
      slots-ne (span s.memory) (omega arith) h t (omega (arith, p.0, k.0, k.1))
        (omega (arith, p.0, p.1, k.0)) (omega (arith, p.0, k.0, k.1))

  -- The producer waits exactly if the ring is full when it looks at the tail.
  pub events_wait :
      (evt : RawEvent) (h : ℕ)
      → s.producer ≡ loaded evt h
      → (has_room s.memory.ring h ≡ true)
        ↔ (length s.memory.pushed < length s.memory.popped + span s.memory)
  events_wait evt h e =
      let n = inv.counts in
      let counted = n.counted in
      let drained = n.drained in
      let behind = n.behind in
      let p : h ≡ s.memory.ring.head = subst (IsFresh s.memory) e inv.fresh in
      let gap =
        sub64_lem h s.memory.ring.tail (omega (arith, p, behind))
          (omega (arith, p, small, counted)) in
      (
        λ g.
            let lt : sub64 h s.memory.ring.tail < span s.memory = ground (arith, g) in
            omega (arith, lt, gap, p, counted, drained, behind),
        λ lt.
            let room : sub64 h s.memory.ring.tail < span s.memory =
              omega (arith, lt, gap, p, counted, drained, behind) in
            ground (arith, room),
      )
