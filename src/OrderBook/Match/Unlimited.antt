-- ===== src/OrderBook/Match/Unlimited.antt =====
-- pkg/orderbook/orderbook.go, `Match` for a taker of another type than `Limit`.
use oktrading.Prelude.{
  ℕ, ◌-◌, ◌≡◌, ◌∙◌, refl, ap, min, Bool, true, false, some, List, [], ◌∷◌, String, arith,
}
use oktrading.Types.{Order}
use oktrading.OrderBook.Book.{Half, OrderBook}
use oktrading.OrderBook.Invariant.{IsBook, book_queue}
use oktrading.OrderBook.Match.{Matched, is_limit, match_order}
use oktrading.OrderBook.Match.Spec.{total, traded, take_queue}
use oktrading.OrderBook.Match.Sweep.{accepts}
use oktrading.OrderBook.Match.Refine.{IsTaker, taker_side, matched-Matches, match_order_conserves}

left_of_any :
    (symbol : String) (timestamp : ℕ) (accept : ℕ → Bool)
    → ((p : ℕ) → accept p ≡ true)
    → (want : ℕ) (os : List Order)
    → (take_queue symbol timestamp accept want os).left ≡ want - total os
unfolding take_queue total
left_of_any symbol timestamp accept any want [] = omega arith
left_of_any symbol timestamp accept any want (m ∷ os) =
    ground (arith, any m.price, left_of_any symbol timestamp accept any (want - m.remaining) os)

accepts_unlimited :
    (h : Half) (o : Order) → is_limit o.type ≡ false → (p : ℕ) → accepts h o p ≡ true
accepts_unlimited h o e p = rw e refl

-- On a valid book an order of any type but `Limit` takes all it wants or all there is, whatever its
-- price: what it still wants is what it wanted less everything that rested on the other side, and
-- what is traded is the smaller of the two.
pub match_unlimited :
    (h : Half) (taker : Order) (b : OrderBook) (m : Matched)
    → IsBook b
    → IsTaker taker
    → taker.side ≡ taker_side h
    → is_limit taker.type ≡ false
    → match_order taker b ≡ some m
    → (m.taker.remaining ≡ taker.remaining - total (book_queue h b))
      × (traded m.trades ≡ min taker.remaining (total (book_queue h b)))
match_unlimited h taker b m v tk side e em =
    let s = matched-Matches h taker b v tk side em in
    let left =
      ap (λ (o : Order). o.remaining) s.taker
      ∙ left_of_any b.symbol taker.timestamp (accepts h taker) (accepts_unlimited h taker e)
          taker.remaining (book_queue h b) in
    (left, omega (arith, left, (match_order_conserves h taker b m v tk side em).0))
