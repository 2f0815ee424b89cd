-- ===== src/Mpsc/Shared/Invariant/Claim.antt =====
-- The compare-and-swap that wins a slot.
use oktrading.Prelude.{
  ℕ, ◌+◌, ◌<◌, ◌≡◌, refl, sym, ap, ◌∙◌, none, some, get_elem?, arith, length-append, map, inl, inr,
  [], ◌∷◌, ◌++◌,
}
use oktrading.Int64.{add64, add64_lem}
use oktrading.Types.{Command}
use oktrading.Mpsc.Shared.{Memory, claimed, System, claim}
use oktrading.History.{get_elem?-append, get_elem?-append_last, take-append}
use oktrading.Mpsc.Shared.Cells.{span}
use oktrading.Mpsc.Shared.Invariant.{owned, Inv, IsSmall}
use oktrading.Mpsc.Shared.Invariant.Frame.{Stays-IsFresh, Stays-IsCurrent}
use native.Mathlib.Decide.{dec_lt}
use oktrading.Mpsc.Shared.Invariant.Moved.{named, IsPending-of, Moved}

module _ {s : System} (inv : Inv s) (i : ℕ) where
  abbrev m : Memory
  m = s.memory

  module _ (small : IsSmall m) (c : Command) where
    -- The slot that the cursor names becomes the producer's.
    pub win_slot :
        (cur : ℕ)
        → owned (s.pc i) ≡ none
        → cur < m.ring.tail + span m
        → m.ring.cursor ≡ cur
        → Moved inv i (claim c cur m) (claimed c cur)
    win_slot cur before fits g =
        let counted = inv.counts.counted in
        let up : add64 cur 1 ≡ m.ring.cursor + 1 =
          add64_lem cur 1 (omega (arith, g, small, counted)) ∙ omega (arith, g) in
        let kept : (t : ℕ)
            → t < m.ring.cursor
            → get_elem? (m.claims ++ (c ∷ [])) t ≡ get_elem? m.claims t =
          λ t lt. get_elem?-append c m.claims t (omega (arith, lt, counted)) in
        record {
          counts = record {
            size = inv.counts.size;
            counted = omega (arith, up, counted, length-append m.claims (c ∷ []));
            drained = inv.counts.drained;
            behind = omega (arith, up, inv.counts.behind);
            bounded = omega (arith, up, fits, g);
            fifo =
                inv.counts.fifo
                ∙ ap (map some) (
                    sym (
                      take-append c m.ring.tail m.claims
                        (omega (arith, counted, inv.counts.behind))));
          };
          free = λ t a b. inv.free t (omega (arith, up, a)) b;
          holds = λ t a b e.
              let old : t < m.ring.cursor = elim (dec_lt t m.ring.cursor) [
                | yes p ↦ p
                | no p ↦ absurd (inv.free t (omega (arith, p)) (omega (arith, up, b, p, g, fits)) e)
              ] in
              inv.holds t a old e ∙ sym (kept t old);
          apart =
              λ j ne t e q. let pd = IsPending-of inv j t q in omega (arith, pd.below, g, named e);
          pending = λ t pd. elim (dec_lt t m.ring.cursor) [
            | yes p ↦
                let (j, e) =
                  inv.covered t
                    (record { above = pd.above; below = p; unpublished = pd.unpublished }) in
                inr (j, (λ q. cc (q, e, before)), e)
            | no p ↦ inl (ap some (omega (arith, p, up, g, pd.below)))
          ];
          mine = (
            record {
              above = omega (arith, g, inv.counts.behind);
              below = omega (arith, g, up);
              unpublished = inv.free cur (omega (arith, g)) fits;
            },
            ap (get_elem? (m.claims ++ (c ∷ []))) (omega (arith, g, counted))
                ∙ get_elem?-append_last c m.claims,
          );
          others = λ j ne.
              Stays-IsFresh (s.pc j) (omega (arith, up)) (omega arith)
                (λ t e pd. record {
                  pending = record {
                    above = pd.above;
                    below = omega (arith, up, pd.below);
                    unpublished = pd.unpublished;
                  };
                  same_cmd = refl;
                  same_claim = kept t pd.below;
                })
                (inv.fresh j);
          current =
              Stays-IsCurrent s.consumer
                (λ next. (
                  record {
                    some_left = omega (arith, up, next.some_left);
                    published = next.published;
                  },
                  kept m.ring.tail next.some_left,
                ))
                inv.current;
        }
