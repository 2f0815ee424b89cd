-- ===== src/Engine/Gives/Used.antt =====
-- The makers that a match uses up: what the index and the trades say of them.
use oktrading.Prelude.{
  ℕ, ◌-◌, ◌≡◌, refl, ◌∙◌, Bool, true, false, none, List, [], ◌∷◌, ◌++◌, String, arith, All,
  contains, contains-append, Distinct, Bool-cases, inl, inr,
}
use oktrading.Prelude.Maps.{update, update_ne}
use oktrading.Types.{Order}
use oktrading.OrderBook.Book.{Half, Index, OrderLoc, OrderBook}
use oktrading.OrderBook.Invariant.{IsBook, book_queue, side_of}
use oktrading.OrderBook.Match.Spec.{take_queue, forget}
use oktrading.OrderBook.Match.Ids.{ids, ids-take_queue, forget_lem, filed_of_contains}
use oktrading.OrderBook.Match.Refine.{taking}
use oktrading.OrderBook.Match.Sweep.{accepts}
use oktrading.Engine.Gives.{filled_makers}

-- The index holds none of the orders.
abbrev pub AllGone : Index → List Order → Type 0
AllGone index os = All (λ (o : Order). index o.order_id ≡ none) os

module _ (symbol : String) (timestamp : ℕ) (accept : ℕ → Bool) where
  pub filled_makers-take_queue :
      (want : ℕ) (os : List Order)
      → let t = take_queue symbol timestamp accept want os in filled_makers t.trades ≡ t.used
  unfolding take_queue
  filled_makers-take_queue want [] = refl
  filled_makers-take_queue want (m ∷ os) =
      ground (arith, filled_makers-take_queue (want - m.remaining) os)

forgotten :
    (index : Index) (used os : List Order)
    → ((id : ℕ) → contains id (ids os) ≡ true → contains id (ids used) ≡ true)
    → AllGone (forget index used) os
forgotten index used [] within = tt
forgotten index used (o ∷ os) within = (
  rw (forget_lem index used o.order_id, within o.order_id (ground arith)) refl,
  forgotten index used os (λ id e. within id (ground (arith, e))),
)

pub AllGone-forget : (index : Index) (used : List Order) → AllGone (forget index used) used
AllGone-forget index used = forgotten index used used (λ id e. e)

pub Distinct-left : (xs ys : List ℕ) → Distinct (xs ++ ys) → Distinct xs
Distinct-left [] ys d = tt
Distinct-left (x ∷ xs) ys d =
    (ground (arith, d.0, contains-append x xs ys), Distinct-left xs ys d.1)

pub Distinct-append_one :
    (xs : List ℕ) (x : ℕ) → Distinct xs → contains x xs ≡ false → Distinct (xs ++ (x ∷ []))
Distinct-append_one [] x d out = (refl, tt)
Distinct-append_one (y ∷ xs) x d out = (
  ground (arith, d.0, contains-append y xs (x ∷ []), out),
  Distinct-append_one xs x d.1 (ground (arith, out)),
)

-- A further entry of the index at another id.
pub AllGone-update :
    (index : Index) (loc : OrderLoc) (id : ℕ) (os : List Order)
    → contains id (ids os) ≡ false
    → AllGone index os
    → AllGone (update index id loc) os
AllGone-update index loc id [] out g = tt
AllGone-update index loc id (o ∷ os) out g = (
  update_ne index loc (λ e. ground (arith, e, out)) ∙ g.0,
  AllGone-update index loc id os (ground (arith, out)) g.1,
)

module _ (h : Half) (o : Order) (b : OrderBook) (v : IsBook b) where
  split : ids (book_queue h b) ≡ ids (taking h o b).used ++ ids (taking h o b).rest
  split = ids-take_queue b.symbol o.timestamp (accepts h o) o.remaining (book_queue h b)

  pub used-Distinct : Distinct (ids (taking h o b).used)
  used-Distinct =
      Distinct-left (ids (taking h o b).used) (ids (taking h o b).rest)
        (rw split at ((v.side h).distinct))

  -- An order that the book does not hold is none of them.
  pub used_fresh :
      b.orders o.order_id ≡ none → contains o.order_id (ids (taking h o b).used) ≡ false
  used_fresh fresh = elim (Bool-cases (contains o.order_id (ids (taking h o b).used))) [
    | inr out ↦ out
    | inl there ↦
        let (p, e) =
          filed_of_contains b.orders h (side_of h) (book_queue h b) o.order_id (v.side h).filed (
            rw
              (
                split,
                contains-append o.order_id (ids (taking h o b).used) (ids (taking h o b).rest),
                there,
              )
              refl) in
        absurd (cc (e, fresh))
  ]
