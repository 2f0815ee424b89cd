-- ===== src/Mpsc/Shared/Safety.antt =====
-- pkg/mpsc/ring.go: what any number of producers and the consumer can rely on, whatever the order of
-- their accesses.
use oktrading.Prelude.{
  ℕ, ◌+◌, ◌^◌, ◌≤◌, ◌<◌, ◌≡◌, ◌↔◌, ◌⊎◌, inl, inr, true, Bool-cases, some, map, length, get_elem?,
  take, arith, ◌∙◌, ap, sym, subst, ◌==◌, ==_iff,
}
use native.Mathlib.Decide.{dec_lt}
use oktrading.Int64.{sub64}
use oktrading.Mpsc.{lap_of, is_full, next_pow2}
use oktrading.Mpsc.Shared.{loaded, System, Reach, slot}
use oktrading.Mpsc.Shared.Cells.{span}
use oktrading.Mpsc.Shared.Invariant.{owned, held_from, IsFresh, Inv, IsSmall}
use oktrading.Mpsc.Shared.Invariant.Moved.{held_from-le}
use oktrading.Mpsc.Shared.Reached.{Reach-Inv, Reach-span}
use oktrading.Types.{Command}

module _ {capacity : ℕ} {s : System} (le : capacity ≤ 2 ^ 62) (r : Reach capacity s)
    (small : IsSmall s.memory) where
  inv : Inv s
  inv = Reach-Inv le r small

  -- What has been popped is what was claimed first, in the order of the claims, once each and never
  -- nil.
  pub shared_fifo : s.memory.popped ≡ map some (take (length s.memory.popped) s.memory.claims)
  shared_fifo = inv.counts.fifo ∙ ap (λ k. map some (take k s.memory.claims)) inv.counts.drained

  -- Never more is popped than claimed, and never more is claimed and not popped than the ring has
  -- slots.
  pub shared_bounds :
      (length s.memory.popped ≤ length s.memory.claims)
      × (length s.memory.claims ≤ length s.memory.popped + next_pow2 capacity)
  shared_bounds =
      let slots = Reach-span le r in
      (
        omega (arith, inv.counts.behind, inv.counts.counted, inv.counts.drained),
        omega (arith, inv.counts.bounded, inv.counts.counted, inv.counts.drained, slots),
      )

  -- A command that was claimed and that the consumer has not taken out of its slot stands in that
  -- slot, published, or a producer is still at work on the slot, and only one.
  pub shared_kept :
      (t : ℕ)
      → held_from s.consumer (length s.memory.popped) ≤ t
      → t < length s.memory.claims
      → (((slot s.memory t).lap ≡ lap_of s.memory.ring t)
          × ((slot s.memory t).cmd ≡ get_elem? s.memory.claims t))
        ⊎ ((i : ℕ) × (owned (s.pc i) ≡ some t) × ((j : ℕ) → owned (s.pc j) ≡ some t → j ≡ i))
  shared_kept t a b =
      let a' : held_from s.consumer s.memory.ring.tail ≤ t =
        subst (λ k. held_from s.consumer k ≤ t) (sym inv.counts.drained) a in
      let b' : t < s.memory.ring.cursor = omega (arith, b, inv.counts.counted) in
      elim (Bool-cases ((slot s.memory t).lap == lap_of s.memory.ring t)) [
        | inl e ↦
            let e' = (==_iff (slot s.memory t).lap (lap_of s.memory.ring t)).0 e in
            inl (e', inv.holds t a' b' e')
        | inr e ↦
            let (i, o) = inv.covered t (record {
              above = held_from-le s.consumer s.memory.ring.tail t a';
              below = b';
              unpublished = λ q. ground (arith, e, q);
            }) in
            inr (i, o, λ j f. inv.unique j i t f o)
      ]

  -- A producer that has loaded the cursor is refused exactly if since then the consumer has passed
  -- what it loaded, or the ring has as many commands from there on as it has slots.
  pub shared_refused :
      (i : ℕ) (c : Command) (cur : ℕ)
      → s.pc i ≡ loaded c cur
      → (is_full s.memory.ring cur ≡ true)
        ↔ ((cur < s.memory.ring.tail) ⊎ (s.memory.ring.tail + span s.memory ≤ cur))
  unfolding sub64
  shared_refused i c cur e =
      let old : cur ≤ s.memory.ring.cursor = subst (IsFresh s.memory) e (inv.fresh i) in
      let counted = inv.counts.counted in
      let behind = inv.counts.behind in
      (
        λ f. elim (dec_lt cur s.memory.ring.tail) [
          | yes p ↦ inl p
          | no p ↦
              let far : span s.memory ≤ sub64 cur s.memory.ring.tail = ground (arith, f) in
              inr (omega (arith, far, p, old, small, counted))
        ],
        λ w.
            let far : span s.memory ≤ sub64 cur s.memory.ring.tail = elim w [
              | inl p ↦ omega (arith, p, old, small, counted, behind)
              | inr p ↦ omega (arith, p, old, small, counted, behind)
            ] in
            ground (arith, far),
      )
