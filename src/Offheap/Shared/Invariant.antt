-- ===== src/Offheap/Shared/Invariant.antt =====
-- pkg/offheap/ring.go: what holds between the accesses of the producer and the reader.
use oktrading.Prelude.{
  ℕ, suc, ◌+◌, ◌^◌, ◌≤◌, ◌<◌, ◌≡◌, sym, ap, ◌∙◌, Option, some, [], ◌∷◌, ◌++◌, map, arith, length,
  length-append, get_elem?, take,
}
use native.Mathlib.Decide.{dec_lt}
use oktrading.Prelude.Maps.{update_ne}
use oktrading.Prelude.Rounds.{slots-ne}
use oktrading.Int64.{add64, add64_lem}
use oktrading.History.{get_elem?-append, get_elem?-append_last, take-append, take_next}
use oktrading.Offheap.{RawEvent}
use oktrading.Disruptor.{slot_of}
use oktrading.Offheap.Shared.{
  Memory, Producer, loaded, filling, filled, Reader, ready, looking, copying, copied, store,
  advance_head, advance_tail, Outbound,
}

-- How many events the ring holds.
abbrev pub span : Memory → ℕ
span m = m.ring.mask + 1

abbrev pub cell : Memory → ℕ → Option RawEvent
cell m t = m.ring.slots (slot_of m.ring t)

-- What the locals of the producer say about the ring.
abbrev pub IsFresh : Memory → Producer → Type 0
IsFresh m (loaded evt h) = h ≡ m.ring.head
IsFresh m (filling evt h) = (h ≡ m.ring.head) × (m.ring.head < m.ring.tail + span m)
IsFresh m (filled evt) = (m.ring.head < m.ring.tail + span m) × (cell m m.ring.head ≡ some evt)
IsFresh m _ = Unit

-- What the locals of the reader say about the ring.
abbrev pub IsCurrent : Memory → Reader → Type 0
IsCurrent m ready = Unit
IsCurrent m (looking t) = t ≡ m.ring.tail
IsCurrent m (copying t) = (t ≡ m.ring.tail) × (m.ring.tail < m.ring.head)
IsCurrent m (copied evt) = (m.ring.tail < m.ring.head) × (evt ≡ get_elem? m.pushed m.ring.tail)

pub record Counts (m : Memory) : Type 0 where
  pub counted : m.ring.head ≡ length m.pushed
  pub drained : m.ring.tail ≡ length m.popped
  pub behind : m.ring.tail ≤ m.ring.head
  pub bounded : m.ring.head ≤ m.ring.tail + span m
  pub fifo : m.popped ≡ map some (take m.ring.tail m.pushed)
  pub stored : (t : ℕ) → m.ring.tail ≤ t → t < m.ring.head → cell m t ≡ get_elem? m.pushed t

pub record Inv (s : Outbound) : Type 0 where
  pub counts : Counts s.memory
  pub fresh : IsFresh s.memory s.producer
  pub current : IsCurrent s.memory s.reader

-- The counters have not wrapped.
abbrev pub IsSmall : Memory → Type 0
IsSmall m = length m.pushed + span m + 1 ≤ 2 ^ 64

module _ {m : Memory} (n : Counts m) where
  -- A store into the slot of the head leaves the events in the ring alone.
  cell-store :
      (evt : RawEvent) (t : ℕ)
      → m.ring.head < m.ring.tail + span m
      → m.ring.tail ≤ t
      → t < m.ring.head
      → cell (store m.ring.head evt m) t ≡ cell m t
  cell-store evt t fits a b = update_ne m.ring.slots evt (
      slots-ne (span m) (omega arith) m.ring.head t (omega (arith, b)) (omega (arith, fits, a))
        (omega (arith, b)))

  pub Counts-store :
      (evt : RawEvent) → m.ring.head < m.ring.tail + span m → Counts (store m.ring.head evt m)
  Counts-store evt fits = record {
    counted = n.counted;
    drained = n.drained;
    behind = n.behind;
    bounded = n.bounded;
    fifo = n.fifo;
    stored = λ t a b. cell-store evt t fits a b ∙ n.stored t a b;
  }

  module _ (small : IsSmall m) where
    pub head_up : m.ring.head < m.ring.tail + span m → add64 m.ring.head 1 ≡ m.ring.head + 1
    head_up fits = add64_lem m.ring.head 1 (omega (arith, small, n.counted))

    pub Counts-advance_head :
        (evt : RawEvent)
        → m.ring.head < m.ring.tail + span m
        → cell m m.ring.head ≡ some evt
        → Counts (advance_head evt m)
    Counts-advance_head evt fits e =
        let counted = n.counted in
        let behind = n.behind in
        let up = head_up fits in
        record {
          counted = omega (arith, up, counted, length-append m.pushed (evt ∷ []));
          drained = n.drained;
          behind = omega (arith, up, behind);
          bounded = omega (arith, up, fits);
          fifo =
              n.fifo
              ∙ ap (map some)
                  (sym (take-append evt m.ring.tail m.pushed (omega (arith, counted, behind))));
          stored = λ t a b. elim (dec_lt t m.ring.head) [
            | yes p ↦
                n.stored t a p ∙ sym (get_elem?-append evt m.pushed t (omega (arith, p, counted)))
            | no p ↦
                let q : m.ring.head ≡ t = omega (arith, up, b, p) in
                ap (cell m) (sym q)
                ∙ e
                ∙ sym (get_elem?-append_last evt m.pushed)
                ∙ ap (get_elem? (m.pushed ++ (evt ∷ []))) (omega (arith, q, counted))
          ];
        }

    pub Counts-advance_tail :
        (evt : Option RawEvent)
        → m.ring.tail < m.ring.head
        → evt ≡ get_elem? m.pushed m.ring.tail
        → Counts (advance_tail evt m)
    Counts-advance_tail evt left e =
        let counted = n.counted in
        let up : add64 m.ring.tail 1 ≡ m.ring.tail + 1 =
          add64_lem m.ring.tail 1 (omega (arith, small, counted, left)) in
        let up_suc : suc m.ring.tail ≡ add64 m.ring.tail 1 = omega (arith, up) in
        record {
          counted = counted;
          drained = omega (arith, up, n.drained, length-append m.popped (evt ∷ []));
          behind = omega (arith, up, left);
          bounded = omega (arith, up, n.bounded);
          fifo =
              ap (λ xs. xs ++ (evt ∷ [])) n.fifo
              ∙ take_next m.ring.tail m.pushed evt e (omega (arith, counted, left))
              ∙ ap (λ k. map some (take k m.pushed)) up_suc;
          stored = λ t a b. n.stored t (omega (arith, up, a)) b;
        }
