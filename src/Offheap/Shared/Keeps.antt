-- ===== src/Offheap/Shared/Keeps.antt =====
-- pkg/offheap/ring.go: every access of the producer and of the reader keeps the invariant.
use oktrading.Prelude.{ℕ, ◌+◌, ◌≤◌, ◌<◌, ◌≡◌, refl, sym, subst, ap, ◌∙◌, arith, get_elem?}
use oktrading.Prelude.Maps.{update_self}
use oktrading.Int64.{add64, add64_lem, sub64, sub64_lem}
use oktrading.History.{get_elem?-append}
use oktrading.Offheap.{RawEvent}
use oktrading.Disruptor.{slot_of}
use oktrading.Offheap.Shared.{
  Memory, Producer, resting, acquiring, loaded, filling, filled, Reader, ready, looking, copying,
  copied, store, advance_head, advance_tail, Push, call, load, wait, acquire, scribble, fill,
  publish, Read, look, nothing, see, copy, advance, Outbound,
}
use oktrading.Offheap.Shared.Invariant.{
  span, cell, IsFresh, IsCurrent, Counts, Inv, IsSmall, Counts-store, Counts-advance_head,
  Counts-advance_tail, head_up,
}

module _ (m m' : Memory) where
  IsCurrent-stays :
      (k : Reader)
      → m'.ring.tail ≡ m.ring.tail
      → m.ring.head ≤ m'.ring.head
      → (m.ring.tail < m.ring.head
          → get_elem? m'.pushed m'.ring.tail ≡ get_elem? m.pushed m.ring.tail)
      → IsCurrent m k
      → IsCurrent m' k
  IsCurrent-stays ready e le same f = tt
  IsCurrent-stays (looking t) e le same f = f ∙ sym e
  IsCurrent-stays (copying t) e le same f = (f.0 ∙ sym e, omega (arith, f.1, e, le))
  IsCurrent-stays (copied evt) e le same f = (omega (arith, f.0, e, le), f.1 ∙ sym (same (f.0)))

  IsFresh-stays :
      (p : Producer)
      → m'.ring.head ≡ m.ring.head
      → m.ring.tail + span m ≤ m'.ring.tail + span m'
      → cell m' m'.ring.head ≡ cell m m.ring.head
      → IsFresh m p
      → IsFresh m' p
  IsFresh-stays resting e le same f = tt
  IsFresh-stays (acquiring evt) e le same f = tt
  IsFresh-stays (loaded evt h) e le same f = f ∙ sym e
  IsFresh-stays (filling evt h) e le same f = (f.0 ∙ sym e, omega (arith, f.1, e, le))
  IsFresh-stays (filled evt) e le same f = (omega (arith, f.0, e, le), same ∙ f.1)

-- A push and a read, each on its side of the ring.
record Pushed (k : Reader) (m' : Memory) (p' : Producer) : Type 0 where
  counts : Counts m'
  fresh : IsFresh m' p'
  current : IsCurrent m' k

Counts-store_at :
    {m : Memory}
    → Counts m
    → (evt : RawEvent) (h : ℕ) → h ≡ m.ring.head
    → m.ring.head < m.ring.tail + span m
    → Counts (store h evt m)
Counts-store_at {m} n evt h e fits =
    subst (λ k. Counts (store k evt m)) (sym e) (Counts-store n evt fits)

push :
    {m m' : Memory} {p p' : Producer} (k : Reader)
    → Counts m
    → IsSmall m
    → IsFresh m p
    → IsCurrent m k
    → Push m p m' p'
    → Pushed k m' p'
push k n small f c call = record { counts = n; fresh = tt; current = c }
push k n small f c load = record { counts = n; fresh = refl; current = c }
push k n small f c (wait g) = record { counts = n; fresh = tt; current = c }
push {m} k n small f c (acquire {h} g) =
    let counted = n.counted in
    let behind = n.behind in
    let free : sub64 m.ring.head m.ring.tail < span m = rw (sym f) (ground (arith, g)) in
    let gap = sub64_lem m.ring.head m.ring.tail behind (omega (arith, small, counted)) in
    record { counts = n; fresh = (f, omega (arith, free, gap, behind)); current = c }
push {m} k n small f c (scribble {h} anything) = record {
  counts = Counts-store_at n anything h (f.0) (f.1);
  fresh = f;
  current = IsCurrent-stays m (store h anything m) k refl (omega arith) (λ lt. refl) c;
}
push {m} k n small f c (fill {evt} {h}) = record {
  counts = Counts-store_at n evt h (f.0) (f.1);
  fresh = (
    f.1,
    ap (cell (store h evt m)) (sym (f.0)) ∙ update_self m.ring.slots (slot_of m.ring h) evt,
  );
  current = IsCurrent-stays m (store h evt m) k refl (omega arith) (λ lt. refl) c;
}
push {m} k n small f c (publish {evt}) =
    let counted = n.counted in
    record {
      counts = Counts-advance_head n small evt (f.0) (f.1);
      fresh = tt;
      current =
          IsCurrent-stays m (advance_head evt m) k refl (omega (arith, head_up n small (f.0)))
            (λ lt. get_elem?-append evt m.pushed m.ring.tail (omega (arith, lt, counted))) c;
    }

read :
    {m m' : Memory} {k k' : Reader} (p : Producer)
    → Counts m
    → IsSmall m
    → IsFresh m p
    → IsCurrent m k
    → Read m k m' k'
    → Pushed k' m' p
read p n small f c look = record { counts = n; fresh = f; current = refl }
read p n small f c (nothing g) = record { counts = n; fresh = f; current = tt }
read p n small f c (see g) = record {
  counts = n;
  fresh = f;
  current = (c, omega (arith, g, c, n.behind));
}
read {m} p n small f c (copy {t}) = record {
  counts = n;
  fresh = f;
  current = (c.1, ap (cell m) (c.0) ∙ n.stored m.ring.tail (omega arith) (c.1));
}
read {m} p n small f c (advance {evt}) =
    let up : add64 m.ring.tail 1 ≡ m.ring.tail + 1 =
      add64_lem m.ring.tail 1 (omega (arith, small, n.counted, c.0)) in
    record {
      counts = Counts-advance_tail n small evt (c.0) (c.1);
      fresh = IsFresh-stays m (advance_tail evt m) p refl (omega (arith, up)) refl f;
      current = tt;
    }

module _ {s : Outbound} (small : IsSmall s.memory) (inv : Inv s) where
  pub Push-Inv :
      {m : Memory} {p : Producer}
      → Push s.memory s.producer m p
      → Inv (record s { memory = m; producer = p })
  Push-Inv st =
      let v = push s.reader inv.counts small inv.fresh inv.current st in
      record { counts = v.counts; fresh = v.fresh; current = v.current }

  pub Read-Inv :
      {m : Memory} {k : Reader}
      → Read s.memory s.reader m k
      → Inv (record s { memory = m; reader = k })
  Read-Inv st =
      let v = read s.producer inv.counts small inv.fresh inv.current st in
      record { counts = v.counts; fresh = v.fresh; current = v.current }
