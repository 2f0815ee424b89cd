-- ===== src/Mpsc/Shared/Invariant/Consume.antt =====
-- An access of `TryPop` keeps the invariant.
use oktrading.Prelude.{
  ℕ, suc, ◌+◌, ◌/◌, ◌≤◌, ◌≡◌, ◌≢◌, refl, sym, ap, subst, ◌∙◌, Option, none, some, get_elem?, arith,
  length-append, map, take, [], ◌∷◌, ◌++◌,
}
use native.Mathlib.Decide.{dec_lt}
use native.Mathlib.Nat.{add-mod_right}
use oktrading.Int64.{add64, add64_lem}
use oktrading.Prelude.Rounds.{laps-ne}
use oktrading.Types.{Command}
use oktrading.Mpsc.{lap_of}
use oktrading.Mpsc.Shared.{
  Memory, Consumer, ready, found, took, cleared, Poll, nothing, find, take_cmd, clear, advance,
  System, slot, write_cmd, advance_tail,
}
use oktrading.History.{take_next}
use oktrading.Mpsc.Shared.Cells.{span, lap-write_cmd, cmd-write_ne}
use oktrading.Mpsc.Shared.Invariant.{held_from, HasNext, IsCurrent, Inv, IsSmall}
use oktrading.Mpsc.Shared.Invariant.Frame.{Stays-IsFresh}
use oktrading.Mpsc.Shared.Invariant.Moved.{Counts-slots}

module _ {s : System} (inv : Inv s) where
  abbrev m : Memory
  m = s.memory

  abbrev tail : ℕ
  tail = m.ring.tail

  -- A move that only reads.
  quiet :
      (k : Consumer)
      → held_from s.consumer tail ≤ held_from k tail
      → IsCurrent m k
      → Inv (record s { memory = m; consumer = k })
  quiet k le f = record {
    counts = inv.counts;
    free = inv.free;
    holds = λ t a b e. inv.holds t (omega (arith, le, a)) b e;
    unique = inv.unique;
    covered = inv.covered;
    fresh = inv.fresh;
    current = f;
  }

  -- The oldest slot forgets its command, which the consumer has.
  clear_slot :
      (c : Option Command)
      → held_from s.consumer tail ≡ tail
      → HasNext m
      → c ≡ get_elem? m.claims tail
      → Inv (record s { memory = write_cmd none tail m; consumer = cleared c })
  clear_slot c from next ec =
      let lap_same : (t : ℕ) → (slot (write_cmd none tail m) t).lap ≡ (slot m t).lap =
        lap-write_cmd m tail none in
      record {
        counts = Counts-slots m ((write_cmd none tail m).ring.slots) inv.counts;
        free = λ t a b e. inv.free t a b (sym (lap_same t) ∙ e);
        holds = λ t a b e.
            cmd-write_ne m tail t (omega (arith, a)) (omega (arith, a))
              (omega (arith, b, inv.counts.bounded)) none
            ∙ inv.holds t (omega (arith, from, a)) b (sym (lap_same t) ∙ e);
        unique = inv.unique;
        covered = λ t pd. inv.covered t (record {
          above = pd.above;
          below = pd.below;
          unpublished = λ q. pd.unpublished (lap_same t ∙ q);
        });
        fresh = λ j.
            Stays-IsFresh (s.pc j) (omega arith) (omega arith)
              (λ t e pd.
                let ne : tail ≢ t = λ q.
                  pd.unpublished (subst (λ k. (slot m k).lap ≡ lap_of m.ring k) q next.published) in
                record {
                  pending = record {
                    above = pd.above;
                    below = pd.below;
                    unpublished = λ q. pd.unpublished (sym (lap_same t) ∙ q);
                  };
                  same_cmd =
                      cmd-write_ne m tail t ne (omega (arith, pd.above))
                        (omega (arith, pd.below, inv.counts.bounded)) none;
                  same_claim = refl;
                })
              (inv.fresh j);
        current =
            (record { some_left = next.some_left; published = lap_same tail ∙ next.published }, ec);
      }

  -- The slot of the tail is free for the next round: it carries the lap of the one before.
  next_round : HasNext m → (slot m (tail + span m)).lap ≢ lap_of m.ring (tail + span m)
  next_round next e =
      let same : (slot m (tail + span m)).lap ≡ (slot m tail).lap =
        ap (λ k. (m.ring.slots k).lap) (add-mod_right tail (span m)) in
      let lap_e : lap_of m.ring tail ≡ lap_of m.ring (tail + span m) =
        sym next.published ∙ sym same ∙ e in
      laps-ne (span m) (omega arith) tail
        (subst (λ k. tail / k ≡ (tail + span m) / k) inv.counts.size lap_e)

  advance_slot :
      (c : Option Command)
      → IsSmall m
      → held_from s.consumer tail ≡ tail + 1
      → HasNext m
      → c ≡ get_elem? m.claims tail
      → Inv (record s { memory = advance_tail c m; consumer = ready })
  advance_slot c small from next ec =
      let counted = inv.counts.counted in
      let up : add64 tail 1 ≡ tail + 1 =
        add64_lem tail 1 (omega (arith, small, counted, next.some_left)) in
      let up_suc : suc tail ≡ add64 tail 1 = omega (arith, up) in
      record {
        counts = record {
          size = inv.counts.size;
          counted = counted;
          drained = omega (arith, up, inv.counts.drained, length-append m.popped (c ∷ []));
          behind = omega (arith, up, next.some_left);
          bounded = omega (arith, up, inv.counts.bounded);
          fifo =
              ap (λ xs. xs ++ (c ∷ [])) inv.counts.fifo
              ∙ take_next tail m.claims c ec (omega (arith, counted, next.some_left))
              ∙ ap (λ k. map some (take k m.claims)) up_suc;
        };
        free = λ t a b e. elim (dec_lt t (tail + span m)) [
          | yes p ↦ inv.free t a p e
          | no p ↦
              let q : tail + span m ≡ t = omega (arith, up, b, p) in
              next_round next (subst (λ k. (slot m k).lap ≡ lap_of m.ring k) (sym q) e)
        ];
        holds = λ t a b e. inv.holds t (omega (arith, from, up, a)) b e;
        unique = inv.unique;
        covered = λ t pd. inv.covered t (record {
          above = omega (arith, up, pd.above);
          below = pd.below;
          unpublished = pd.unpublished;
        });
        fresh = λ j.
            Stays-IsFresh (s.pc j) (omega arith) (omega (arith, up))
              (λ t e pd.
                let ne : tail ≢ t = λ q.
                  pd.unpublished (subst (λ k. (slot m k).lap ≡ lap_of m.ring k) q next.published) in
                record {
                  pending = record {
                    above = omega (arith, up, ne, pd.above);
                    below = pd.below;
                    unpublished = pd.unpublished;
                  };
                  same_cmd = refl;
                  same_claim = refl;
                })
              (inv.fresh j);
        current = tt;
      }

  next_of : (slot m tail).lap ≡ lap_of m.ring tail → HasNext m
  next_of e = record {
    some_left = elim (dec_lt tail m.ring.cursor) [
      | yes p ↦ p
      | no p ↦ absurd (inv.free tail (omega (arith, p)) (omega arith) e)
    ];
    published = e;
  }

  from : {k : Consumer} → s.consumer ≡ k → held_from s.consumer tail ≡ held_from k tail
  from e = ap (λ k. held_from k tail) e

  module _ (small : IsSmall m) where
    poll :
        {k k' : Consumer} {m' : Memory}
        → s.consumer ≡ k
        → IsCurrent m k
        → Poll m k m' k'
        → Inv (record s { memory = m'; consumer = k' })
    poll e f (nothing g) = quiet ready (omega (arith, from e)) tt
    poll e f (find g) = quiet found (omega (arith, from e)) (next_of g)
    poll e f take_cmd =
        quiet (took (slot m tail).cmd) (omega (arith, from e))
          (f, inv.holds tail (omega (arith, from e)) f.some_left f.published)
    poll e f (clear {c}) = clear_slot c (from e) (f.0) (f.1)
    poll e f (advance {c}) = advance_slot c small (from e) (f.0) (f.1)

    pub Poll-Inv :
        {k : Consumer} {m' : Memory}
        → Poll m s.consumer m' k
        → Inv (record s { memory = m'; consumer = k })
    Poll-Inv p = poll refl inv.current p
