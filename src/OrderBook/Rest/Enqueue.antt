-- ===== src/OrderBook/Rest/Enqueue.antt =====
-- The abstract `AddOrder`: an order joins a queue in price-time priority.
use oktrading.Prelude.{
  ℕ, ◌≤◌, ◌<◌, ◌≡◌, refl, false, ◌||◌, Option, List, [], ◌∷◌, ◌++◌, arith, leb, ◌==◌, if◌then◌else◌,
  All, All-append, contains, Distinct, Bool-cases, inl, inr,
}
use oktrading.Types.{Order}
use oktrading.OrderBook.Book.{Half, PriceNode}
use oktrading.OrderBook.Valid.{rank, IsLevel, queue, level}
use oktrading.OrderBook.Match.Spec.{IsResting}
use oktrading.OrderBook.Match.Ids.{ids}

unfoldable pub enqueue : Half → Order → List Order → List Order
enqueue h o [] = o ∷ []
enqueue h o (x ∷ xs) =
    if leb (rank h x.price) (rank h o.price) then x ∷ enqueue h o xs else o ∷ x ∷ xs

module _ (h : Half) (o : Order) where
  pub enqueue_skip :
      (os qs : List Order)
      → All (λ (x : Order). rank h x.price ≤ rank h o.price) os
      → enqueue h o (os ++ qs) ≡ os ++ enqueue h o qs
  unfolding enqueue
  enqueue_skip [] qs v = refl
  enqueue_skip (x ∷ os) qs v = ground (arith, v.0, enqueue_skip os qs v.1)

  pub enqueue_front :
      (qs : List Order)
      → All (λ (x : Order). rank h o.price < rank h x.price) qs
      → enqueue h o qs ≡ o ∷ qs
  unfolding enqueue
  enqueue_front [] v = refl
  enqueue_front (x ∷ qs) v = ground (arith, v.0)

  pub All-enqueue {ℓ} :
      (P : Order → Type ℓ) (qs : List Order) → P o → All P qs → All P (enqueue h o qs)
  unfolding enqueue
  All-enqueue P [] p v = (p, tt)
  All-enqueue P (x ∷ qs) p v = elim (Bool-cases (leb (rank h x.price) (rank h o.price))) [
    | inl behind ↦ rw behind (v.0, All-enqueue P qs p v.1)
    | inr before ↦ rw before (p, v)
  ]

  pub contains-enqueue :
      (qs : List Order) (id : ℕ)
      → contains id (ids (enqueue h o qs)) ≡ (id == o.order_id || contains id (ids qs))
  unfolding enqueue
  contains-enqueue [] id = refl
  contains-enqueue (x ∷ qs) id = ground (arith, contains-enqueue qs id)

  pub enqueue-Distinct :
      (qs : List Order)
      → contains o.order_id (ids qs) ≡ false
      → Distinct (ids qs)
      → Distinct (ids (enqueue h o qs))
  unfolding enqueue
  enqueue-Distinct [] new d = (refl, tt)
  enqueue-Distinct (x ∷ qs) new d =
      ground
        (arith, d.0, contains-enqueue qs x.order_id, enqueue-Distinct qs (ground (arith, new)) d.1)

-- Those of one level share its price.
pub All-level :
    (P : ℕ → Type 0) (p : ℕ)
    → P p
    → (os : List Order) → All (IsResting p) os
    → All (λ (x : Order). P x.price) os
All-level P p a [] v = tt
All-level P p a (o ∷ os) v = (rw (v.0.at_price) a, All-level P p a os v.1)

-- A property of the prices of a side holds of its orders.
pub All-queue :
    (P : ℕ → Type 0) (nodes : ℕ → Option PriceNode) (ps : List ℕ)
    → All P ps
    → All (IsLevel nodes) ps
    → All (λ (x : Order). P x.price) (queue ps nodes)
All-queue P nodes [] a v = tt
All-queue P nodes (p ∷ ps) a v =
    let (n, at, vn, ne, ok) = v.0 in
    All-append (λ (x : Order). P x.price) (level (nodes p)) (queue ps nodes)
      (rw at (All-level P p a.0 n.orders vn.resting)) (All-queue P nodes ps a.1 v.1)
