-- ===== src/Mpsc/Shared/Invariant/Moved.antt =====
-- What a move of a producer has to show to keep the invariant.
use oktrading.Prelude.{
  ℕ, ◌+◌, ◌≤◌, ◌<◌, ◌≡◌, ◌≢◌, refl, ap, ◌∙◌, none, some, get_elem?, arith, inl, inr, ◌⊎◌, false,
}
use oktrading.Int64.{sub64}
use oktrading.Mpsc.{CmdSlot, lap_of, is_full}
use oktrading.Mpsc.Shared.{
  Memory, Pc, Consumer, ready, found, took, cleared, System, slot, at_producer,
}
use oktrading.Mpsc.Shared.Cells.{span}
use oktrading.Mpsc.Shared.Invariant.{
  owned, held_from, IsPending, IsFresh, IsCurrent, Counts, Inv, IsSmall,
}
use oktrading.Mpsc.Shared.Invariant.Frame.{at-all, at_same, at_other, owned-IsPending}

-- The test for room, against a cursor that was loaded before.
pub is_full_lem :
    (m : Memory) (cur : ℕ)
    → Counts m
    → IsSmall m
    → cur ≤ m.ring.cursor
    → is_full m.ring cur ≡ false
    → (m.ring.tail ≤ cur) × (cur < m.ring.tail + span m)
unfolding sub64
is_full_lem m cur c small le e =
    let fits : sub64 cur m.ring.tail < span m = ground (arith, e) in
    (
      omega (arith, fits, c.counted, c.behind, small, le),
      omega (arith, fits, c.counted, c.behind, small, le),
    )

-- The counters do not depend on the slots.
pub Counts-slots :
    (m : Memory) (f : ℕ → CmdSlot)
    → Counts m
    → Counts (record m { ring = record (m.ring) { slots = f } })
Counts-slots m f c = record {
  size = c.size;
  counted = c.counted;
  drained = c.drained;
  behind = c.behind;
  bounded = c.bounded;
  fifo = c.fifo;
}

pub held_from-le : (k : Consumer) (a t : ℕ) → held_from k a ≤ t → a ≤ t
held_from-le ready a t le = le
held_from-le found a t le = le
held_from-le (took c) a t le = le
held_from-le (cleared c) a t le = omega (arith, le)

pub named : {a b : ℕ} → some a ≡ some b → a ≡ b
named e = cc e

pub IsPending-of :
    {s : System} (inv : Inv s) (j t : ℕ) → owned (s.pc j) ≡ some t → IsPending s.memory t
IsPending-of {s} inv j t e = owned-IsPending (s.pc j) t (inv.fresh j) e

module _ {s : System} (inv : Inv s) (i : ℕ) where
  abbrev m : Memory
  m = s.memory

  -- What a move of producer `i` has to show of its new place, and of all others.
  pub record Moved (m' : Memory) (p' : Pc) : Type 0 where
    pub counts : Counts m'
    pub free :
        (t : ℕ)
        → m'.ring.cursor ≤ t
        → t < m'.ring.tail + span m'
        → (slot m' t).lap ≢ lap_of m'.ring t
    pub holds :
        (t : ℕ)
        → held_from s.consumer m'.ring.tail ≤ t
        → t < m'.ring.cursor
        → (slot m' t).lap ≡ lap_of m'.ring t
        → (slot m' t).cmd ≡ get_elem? m'.claims t
    pub apart : (j : ℕ) → i ≢ j → (t : ℕ) → owned p' ≡ some t → owned (s.pc j) ≢ some t
    pub pending :
        (t : ℕ)
        → IsPending m' t
        → (owned p' ≡ some t) ⊎ ((j : ℕ) × (i ≢ j) × (owned (s.pc j) ≡ some t))
    pub mine : IsFresh m' p'
    pub others : (j : ℕ) → i ≢ j → IsFresh m' (s.pc j)
    pub current : IsCurrent m' s.consumer

  pub Moved-Inv :
      (m' : Memory) (p' : Pc)
      → Moved m' p'
      → Inv (record s { memory = m'; pc = at_producer s.pc i p' })
  Moved-Inv m' p' v = record {
    counts = v.counts;
    free = v.free;
    holds = v.holds;
    unique =
        at-all
          (λ a p. (b t : ℕ) → owned p ≡ some t → owned (at_producer s.pc i p' b) ≡ some t → a ≡ b)
          s.pc i p'
          (at-all (λ b p. (t : ℕ) → owned p' ≡ some t → owned p ≡ some t → i ≡ b) s.pc i p'
            (λ t e f. refl) (λ b ne t e f. absurd (v.apart b ne t e f)))
          (λ a ne.
            at-all (λ b p. (t : ℕ) → owned (s.pc a) ≡ some t → owned p ≡ some t → a ≡ b) s.pc i p'
              (λ t e f. absurd (v.apart a ne t f e)) (λ b ne' t e f. inv.unique a b t e f));
    covered = λ t pd. elim (v.pending t pd) [
      | inl e ↦ (i, ap owned (at_same s.pc i p') ∙ e)
      | inr (j, ne, e) ↦ (j, ap owned (at_other s.pc i p' j ne) ∙ e)
    ];
    fresh = at-all (λ j p. IsFresh m' p) s.pc i p' v.mine v.others;
    current = v.current;
  }

  -- A move that only reads.
  pub quiet : (p' : Pc) → owned (s.pc i) ≡ none → owned p' ≡ none → IsFresh m p' → Moved m p'
  quiet p' before after f = record {
    counts = inv.counts;
    free = inv.free;
    holds = inv.holds;
    apart = λ j ne t e g. absurd (cc (e, after));
    pending = λ t pd. let (j, e) = inv.covered t pd in inr (j, (λ q. cc (q, e, before)), e);
    mine = f;
    others = λ j ne. inv.fresh j;
    current = inv.current;
  }
