-- ===== src/OrderBook/Match/Ids.antt =====
-- Which orders a taking uses up and which it leaves, by their ids: the index of the book follows.
use oktrading.Prelude.{
  ℕ, ◌-◌, ◌≡◌, refl, ap, Bool, true, false, none, some, List, [], ◌∷◌, ◌++◌, String, arith, ◌==◌,
  if◌then◌else◌, All, contains, Bool-cases, inl, inr, ==_iff,
}
use oktrading.Prelude.Maps.{delete}
use oktrading.Types.{Order, Side}
use oktrading.OrderBook.Book.{Half, Index}
use oktrading.OrderBook.Match.Spec.{take_queue, forget}

abbrev pub ids : List Order → List ℕ
ids [] = []
ids (o ∷ os) = o.order_id ∷ ids os

pub ids-append : (xs ys : List Order) → ids (xs ++ ys) ≡ ids xs ++ ids ys
ids-append [] ys = refl
ids-append (x ∷ xs) ys = ap (λ r. x.order_id ∷ r) (ids-append xs ys)

-- The index holds the order's place, and the order is on its side of the book.
abbrev pub IsFiled : Index → Half → Side → Order → Type 0
IsFiled index h side o =
    (index o.order_id ≡ some (record { half = h; price = o.price })) × (o.side ≡ side)

pub forget_lem :
    (index : Index) (os : List Order) (id : ℕ)
    → forget index os id ≡ (if contains id (ids os) then none else index id)
unfolding forget delete
forget_lem index [] id = refl
forget_lem index (o ∷ os) id = ground (arith, forget_lem (delete index o.order_id) os id)

module _ (symbol : String) (timestamp : ℕ) (accept : ℕ → Bool) where
  -- A taking splits the queue: what it uses up stands before what it leaves.
  pub ids-take_queue :
      (want : ℕ) (os : List Order)
      → let t = take_queue symbol timestamp accept want os in ids os ≡ ids t.used ++ ids t.rest
  unfolding take_queue
  ids-take_queue want [] = refl
  ids-take_queue want (m ∷ os) = ground (arith, ids-take_queue (want - m.remaining) os)

  -- The index and the side of an order do not change while it rests.
  pub take_queue-IsFiled :
      (index : Index) (h : Half) (side : Side) (want : ℕ) (os : List Order)
      → All (IsFiled index h side) os
      → All (IsFiled index h side) (take_queue symbol timestamp accept want os).rest
  unfolding take_queue
  take_queue-IsFiled index h side want [] v = tt
  take_queue-IsFiled index h side want (m ∷ os) v =
      ground (arith, v.0, v.1, take_queue-IsFiled index h side (want - m.remaining) os v.1)

-- The index still holds the orders that are not among the used ones.
pub All-IsFiled-forget :
    (index : Index) (h : Half) (side : Side) (used rest : List Order)
    → ((id : ℕ) → contains id (ids rest) ≡ true → contains id (ids used) ≡ false)
    → All (IsFiled index h side) rest
    → All (IsFiled (forget index used) h side) rest
All-IsFiled-forget index h side used [] apart v = tt
All-IsFiled-forget index h side used (o ∷ rest) apart v = (
  (rw (forget_lem index used o.order_id, apart o.order_id (ground arith)) v.0.0, v.0.1),
  All-IsFiled-forget index h side used rest (λ id e. apart id (ground (arith, e))) v.1,
)

-- What the index says of an order that is filed.
pub filed_of_contains :
    (index : Index) (h : Half) (side : Side) (os : List Order) (id : ℕ)
    → All (IsFiled index h side) os
    → contains id (ids os) ≡ true
    → (p : ℕ) × (index id ≡ some (record { half = h; price = p }))
filed_of_contains index h side [] id v e = cc
filed_of_contains index h side (o ∷ os) id v e = elim (Bool-cases (id == o.order_id)) [
  | inl same ↦ (o.price, rw ((==_iff id o.order_id).0 same) v.0.0)
  | inr ne ↦ filed_of_contains index h side os id v.1 (ground (arith, ne, e))
]
