-- ===== src/Engine/Quotes.antt =====
-- pkg/engine/engine.go: limit orders that keep to their side of a price, in a book whose orders do.
pub mod Rest
pub mod Session
pub mod Take
pub mod Mixed
use oktrading.Prelude.{
  ℕ, ◌+◌, ◌-◌, ◌≤◌, ◌<◌, ◌≡◌, refl, ap, sym, ◌∙◌, Bool, true, false, not, ◌&&◌, ◌||◌, List, [], ◌∷◌,
  String, some, arith, All, ◌==◌,
}
use oktrading.Int64.{IsNonneg, bias_nonneg}
use oktrading.Types.{Order, limit}
use oktrading.OrderBook.Book.{Half, bid, ask, other, OrderBook}
use oktrading.OrderBook.Valid.{IsPrice, rank}
use oktrading.OrderBook.Invariant.{IsBook, book_queue, side_of}
use oktrading.OrderBook.Match.{is_limit, beyond}
use oktrading.OrderBook.Match.Spec.{Taken, take_queue, total}
use oktrading.OrderBook.Match.Refine.{taker_side, taking}
use oktrading.OrderBook.Match.Sweep.{accepts}
use oktrading.OrderBook.Rest.Enqueue.{enqueue}

-- A price on the side of `mid` that belongs to the half.
abbrev pub IsAway : ℕ → Half → ℕ → Type 0
IsAway mid ask p = IsPrice p × (mid < p)
IsAway mid bid p = IsPrice p × (p < mid)

-- A limit order that faces the half `h` and belongs to the other.
pub record IsQuote (mid : ℕ) (h : Half) (o : Order) : Type 0 where
  pub type : o.type ≡ limit
  pub its_side : o.side ≡ taker_side h
  pub away : IsAway mid (other h) o.price
  pub qty : 0 < o.remaining
  pub part : o.remaining ≤ o.quantity
  pub range : IsNonneg o.quantity

-- A valid book whose orders keep to their sides.
pub record IsCalm (mid : ℕ) (b : OrderBook) : Type 0 where
  pub book : IsBook b
  pub away : (h : Half) → All (λ (x : Order). IsAway mid h x.price) (book_queue h b)

pub IsAway-IsPrice : (mid : ℕ) (h : Half) (p : ℕ) → IsAway mid h p → IsPrice p
IsAway-IsPrice mid ask p a = a.0
IsAway-IsPrice mid bid p a = a.0

limits : (o : Order) → o.type ≡ limit → is_limit o.type ≡ true
limits o e = ap is_limit e

pub refuses :
    (mid : ℕ) (h : Half) (o : Order) (p : ℕ)
    → IsQuote mid h o
    → IsAway mid h p
    → accepts h o p ≡ false
refuses mid ask o p q a =
    ground
      (arith, limits o q.type, bias_nonneg p a.0.1, bias_nonneg o.price q.away.0.1, a.1, q.away.1)
refuses mid bid o p q a =
    ground
      (arith, limits o q.type, bias_nonneg p a.0.1, bias_nonneg o.price q.away.0.1, a.1, q.away.1)

none_taken :
    (symbol : String) (timestamp : ℕ) (accept : ℕ → Bool) (want : ℕ) (os : List Order)
    → All (λ (x : Order). accept x.price ≡ false) os
    → take_queue symbol timestamp accept want os
      ≡ record { trades = []; left = want; used = []; rest = os }
unfolding take_queue
none_taken symbol timestamp accept want [] v = refl
none_taken symbol timestamp accept want (m ∷ os) v = ground (arith, v.0)

refuse_queue :
    (mid : ℕ) (h : Half) (o : Order)
    → IsQuote mid h o
    → (os : List Order) → All (λ (x : Order). IsAway mid h x.price) os
    → All (λ (x : Order). accepts h o x.price ≡ false) os
refuse_queue mid h o q [] v = tt
refuse_queue mid h o q (x ∷ os) v = (refuses mid h o x.price q v.0, refuse_queue mid h o q os v.1)

-- Such an order finds nothing to take.
pub quote_takes_none :
    (mid : ℕ) (h : Half) (o : Order) (b : OrderBook)
    → IsCalm mid b
    → IsQuote mid h o
    → taking h o b ≡ record { trades = []; left = o.remaining; used = []; rest = book_queue h b }
quote_takes_none mid h o b c q =
    none_taken b.symbol o.timestamp (accepts h o) o.remaining (book_queue h b)
      (refuse_queue mid h o q (book_queue h b) (c.away h))

pub total-enqueue :
    (h : Half) (o : Order) (os : List Order) → total (enqueue h o os) ≡ o.remaining + total os
unfolding enqueue total
total-enqueue h o [] = refl
total-enqueue h o (x ∷ os) = ground (arith, total-enqueue h o os)

pub own_side : (h : Half) → taker_side h ≡ side_of (other h)
own_side bid = refl
own_side ask = refl

pub other-other : (h : Half) → other (other h) ≡ h
other-other bid = refl
other-other ask = refl
