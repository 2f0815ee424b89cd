-- ===== src/Mpsc/Shared/Invariant/Fill.antt =====
-- The command and the lap that a producer stores in its slot.
use oktrading.Prelude.{
  ℕ, ◌+◌, ◌≤◌, ◌<◌, ◌≡◌, ◌≢◌, refl, sym, ap, subst, ◌∙◌, none, some, get_elem?, arith, ◌==◌, ==_iff,
  Bool-cases, inl, inr,
}
use oktrading.Types.{Command}
use oktrading.Mpsc.{lap_of}
use oktrading.Mpsc.Shared.{Memory, Pc, written, System, slot, write_cmd, publish_lap}
use oktrading.Mpsc.Shared.Cells.{
  span, lap-write_cmd, cmd-publish_lap, cmd-write_cmd, lap-publish_lap, cmd-write_ne,
  lap-publish_ne,
}
use oktrading.Mpsc.Shared.Invariant.{owned, held_from, IsPending, IsFresh, Inv}
use oktrading.Mpsc.Shared.Invariant.Frame.{Stays-IsFresh, Stays-IsCurrent}
use oktrading.Mpsc.Shared.Invariant.Moved.{Counts-slots, held_from-le, named, IsPending-of, Moved}

module _ {s : System} (inv : Inv s) (i : ℕ) where
  abbrev m : Memory
  m = s.memory

  -- The slot that the producer owns is still its own.
  module _ (cur : ℕ) (mine : owned (s.pc i) ≡ some cur) where
    own : IsPending m cur
    own = IsPending-of inv i cur mine

    elsewhere : (j : ℕ) → i ≢ j → (t : ℕ) → owned (s.pc j) ≡ some t → cur ≢ t
    elsewhere j ne t e q = ne (inv.unique i j t (mine ∙ ap some q) e)

    near :
        (t : ℕ)
        → m.ring.tail ≤ t
        → t < m.ring.tail + span m
        → (cur < t + span m) × (t < cur + span m)
    near t a b = (omega (arith, own.below, inv.counts.bounded, a), omega (arith, own.above, b))

    held_window : (t : ℕ) → held_from s.consumer m.ring.tail ≤ t → m.ring.tail ≤ t
    held_window t a = held_from-le s.consumer m.ring.tail t a

    pub write_slot :
        (c : Command)
        → get_elem? m.claims cur ≡ some c
        → Moved inv i (write_cmd (some c) cur m) (written cur)
    write_slot c ec = record {
      counts = Counts-slots m ((write_cmd (some c) cur m).ring.slots) inv.counts;
      free = λ t a b e. inv.free t a b (sym (lap-write_cmd m cur (some c) t) ∙ e);
      holds = λ t a b e.
          let e' = sym (lap-write_cmd m cur (some c) t) ∙ e in
          let ne : cur ≢ t =
            λ q. own.unpublished (subst (λ k. (slot m k).lap ≡ lap_of m.ring k) (sym q) e') in
          let (x, y) = near t (held_window t a) (omega (arith, b, inv.counts.bounded)) in
          cmd-write_ne m cur t ne x y (some c) ∙ inv.holds t a b e';
      apart = λ j ne t e q. elsewhere j ne t q (cc e);
      pending = λ t pd.
          let (j, e) = inv.covered t (record {
            above = pd.above;
            below = pd.below;
            unpublished = λ q. pd.unpublished (lap-write_cmd m cur (some c) t ∙ q);
          }) in
          elim (Bool-cases (cur == t)) [
            | inl q ↦ inl (ap some ((==_iff cur t).0 q))
            | inr q ↦
                inr (
                  j,
                  (λ r. ground (arith, q, named (sym mine ∙ ap (λ k. owned (s.pc k)) r ∙ e))),
                  e,
                )
          ];
      mine = (
        record {
          above = own.above;
          below = own.below;
          unpublished = λ q. own.unpublished (sym (lap-write_cmd m cur (some c) cur) ∙ q);
        },
        cmd-write_cmd m cur (some c) ∙ sym ec,
      );
      others = λ j ne.
          Stays-IsFresh (s.pc j) (omega arith) (omega arith)
            (λ t e pd.
              let (x, y) = near t pd.above (omega (arith, pd.below, inv.counts.bounded)) in
              record {
                pending = record {
                  above = pd.above;
                  below = pd.below;
                  unpublished = λ q. pd.unpublished (sym (lap-write_cmd m cur (some c) t) ∙ q);
                };
                same_cmd = cmd-write_ne m cur t (elsewhere j ne t e) x y (some c);
                same_claim = refl;
              })
            (inv.fresh j);
      current =
          Stays-IsCurrent s.consumer
            (λ next. (
              record {
                some_left = next.some_left;
                published = lap-write_cmd m cur (some c) m.ring.tail ∙ next.published;
              },
              refl,
            ))
            inv.current;
    }

    pub publish_slot :
        (slot m cur).cmd ≡ get_elem? m.claims cur
        → (p' : Pc) → owned p' ≡ none
        → IsFresh (publish_lap cur m) p'
        → Moved inv i (publish_lap cur m) p'
    publish_slot ec p' quits fr = record {
      counts = Counts-slots m ((publish_lap cur m).ring.slots) inv.counts;
      free = λ t a b e.
          let (x, y) = near t (omega (arith, a, inv.counts.behind)) b in
          inv.free t a b (sym (lap-publish_ne m cur t (omega (arith, own.below, a)) x y) ∙ e);
      holds = λ t a b e. cmd-publish_lap m cur t ∙ elim (Bool-cases (cur == t)) [
        | inl q ↦ subst (λ k. (slot m k).cmd ≡ get_elem? m.claims k) ((==_iff cur t).0 q) ec
        | inr q ↦
            let (x, y) = near t (held_window t a) (omega (arith, b, inv.counts.bounded)) in
            inv.holds t a b (sym (lap-publish_ne m cur t (λ r. ground (arith, q, r)) x y) ∙ e)
      ];
      apart = λ j ne t e q. absurd (cc (e, quits));
      pending = λ t pd.
          let ne : cur ≢ t = λ q. pd.unpublished (
            subst (λ k. (slot (publish_lap cur m) k).lap ≡ lap_of m.ring k) q
              (lap-publish_lap m cur)) in
          let (x, y) = near t pd.above (omega (arith, pd.below, inv.counts.bounded)) in
          let (j, e) = inv.covered t (record {
            above = pd.above;
            below = pd.below;
            unpublished = λ q. pd.unpublished (lap-publish_ne m cur t ne x y ∙ q);
          }) in
          inr (j, (λ r. ne (named (sym mine ∙ ap (λ k. owned (s.pc k)) r ∙ e))), e);
      mine = fr;
      others = λ j ne.
          Stays-IsFresh (s.pc j) (omega arith) (omega arith)
            (λ t e pd.
              let (x, y) = near t pd.above (omega (arith, pd.below, inv.counts.bounded)) in
              record {
                pending = record {
                  above = pd.above;
                  below = pd.below;
                  unpublished = λ q.
                      pd.unpublished (sym (lap-publish_ne m cur t (elsewhere j ne t e) x y) ∙ q);
                };
                same_cmd = cmd-publish_lap m cur t;
                same_claim = refl;
              })
            (inv.fresh j);
      current =
          Stays-IsCurrent s.consumer
            (λ next.
              let ne : cur ≢ m.ring.tail = λ q.
                own.unpublished
                  (subst (λ k. (slot m k).lap ≡ lap_of m.ring k) (sym q) next.published) in
              let (x, y) = near m.ring.tail (omega arith) (omega arith) in
              (
                record {
                  some_left = next.some_left;
                  published = lap-publish_ne m cur m.ring.tail ne x y ∙ next.published;
                },
                refl,
              ))
            inv.current;
    }
