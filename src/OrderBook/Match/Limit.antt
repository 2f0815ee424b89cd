-- ===== src/OrderBook/Match/Limit.antt =====
-- pkg/orderbook/orderbook.go, `Match` for a `Limit` taker.
use oktrading.Prelude.{
  ℕ, ◌-◌, ◌≤◌, ◌<◌, ◌≡◌, ◌⊎◌, inl, inr, Bool, true, false, some, List, [], ◌∷◌, arith, All, All-zip,
  String,
}
use oktrading.Int64.{IsNonneg, bias_nonneg}
use oktrading.Types.{Order, Trade, limit}
use oktrading.OrderBook.Book.{Half, bid, ask, OrderBook}
use oktrading.OrderBook.Valid.{IsPrice, rank}
use oktrading.OrderBook.Invariant.{IsBook, book_queue}
use oktrading.OrderBook.Priority.{
  IsRanked, IsOpen, IsBlocked, queue-IsRanked, queue-IsOpen, take_queue_stops, take_queue_accepts,
}
use oktrading.OrderBook.Match.{Matched, match_order}
use oktrading.OrderBook.Match.Spec.{take_queue}
use oktrading.OrderBook.Match.Sweep.{accepts}
use oktrading.OrderBook.Match.Refine.{IsTaker, taker_side, matched-Matches}

-- For a taker from the half: the price `p` is no worse than `q`; it is better.
abbrev pub NoWorse : Half → ℕ → ℕ → Type 0
NoWorse ask p q = p ≤ q
NoWorse bid p q = q ≤ p

abbrev pub Better : Half → ℕ → ℕ → Type 0
Better ask p q = p < q
Better bid p q = q < p

-- A property of the prices in a queue holds of the prices of the trades.
pub trades_of_prices :
    (symbol : String) (timestamp : ℕ) (accept : ℕ → Bool) (P : ℕ → Type 0) (want : ℕ)
    (os : List Order)
    → All (λ (o : Order). P o.price) os
    → All (λ (tr : Trade). P tr.price) (take_queue symbol timestamp accept want os).trades
unfolding take_queue
trades_of_prices symbol timestamp accept P want [] v = tt
trades_of_prices symbol timestamp accept P want (m ∷ os) v =
    ground (arith, v.0, trades_of_prices symbol timestamp accept P (want - m.remaining) os v.1)

prices_of_open : (os : List Order) → All IsOpen os → All (λ (o : Order). IsPrice o.price) os
prices_of_open [] v = tt
prices_of_open (o ∷ os) v = (v.0.0, prices_of_open os v.1)

-- The test of the sweep, for a `Limit` taker, compares the prices as numbers.
pub accepts_limit :
    (h : Half) (taker : Order) (p : ℕ)
    → taker.type ≡ limit
    → IsNonneg taker.price
    → IsNonneg p
    → (accepts h taker p ≡ true → NoWorse h p taker.price)
      × (accepts h taker p ≡ false → Better h taker.price p)
accepts_limit bid taker p e r k = rw e (
  ground (arith, bias_nonneg p k, bias_nonneg taker.price r),
  ground (arith, bias_nonneg p k, bias_nonneg taker.price r),
)
accepts_limit ask taker p e r k = rw e (
  ground (arith, bias_nonneg p k, bias_nonneg taker.price r),
  ground (arith, bias_nonneg p k, bias_nonneg taker.price r),
)

pub Better-from :
    (h : Half) (lim p q : ℕ)
    → IsNonneg p
    → IsNonneg q
    → Better h lim p
    → rank h p ≤ rank h q
    → Better h lim q
Better-from bid lim p q a b lt le = omega (arith, bias_nonneg p a, bias_nonneg q b)
Better-from ask lim p q a b lt le = omega (arith, bias_nonneg p a, bias_nonneg q b)

-- A queue whose front is blocked is blocked throughout.
All-IsBlocked :
    (h : Half) (taker : Order) (os : List Order)
    → taker.type ≡ limit
    → IsNonneg taker.price
    → IsRanked h os
    → All (λ (o : Order). IsPrice o.price) os
    → IsBlocked (accepts h taker) os
    → All (λ (o : Order). Better h taker.price o.price) os
All-IsBlocked h taker [] e r ranked v b = tt
All-IsBlocked h taker (o ∷ os) e r ranked v b =
    let worse = (accepts_limit h taker o.price e r v.0.1).1 b in
    (
      worse,
      All-zip (λ (x : Order). rank h o.price ≤ rank h x.price) (λ x. IsPrice x.price)
          (λ x. Better h taker.price x.price)
          (λ x le ok. Better-from h taker.price o.price x.price v.0.1 ok.1 worse le) os ranked.0
          v.1,
    )

-- A `Limit` order never trades at a price worse than its limit, and what it still wants afterwards no
-- resting order of the other side would sell or buy within the limit.
pub match_limit_lem :
    (h : Half) (taker : Order) (b : OrderBook) (m : Matched)
    → IsBook b
    → IsTaker taker
    → taker.side ≡ taker_side h
    → taker.type ≡ limit
    → IsNonneg taker.price
    → match_order taker b ≡ some m
    → All (λ (tr : Trade). NoWorse h tr.price taker.price) m.trades
      × ((m.taker.remaining ≡ 0)
          ⊎ All (λ (o : Order). Better h taker.price o.price) (book_queue h m.book))
match_limit_lem h taker b m v tk side e r em =
    let s = matched-Matches h taker b v tk side em in
    let prices = prices_of_open _ (queue-IsOpen h _ _ (v.side h).valid.level_of) in
    let after = prices_of_open _ (queue-IsOpen h _ _ (s.valid.side h).valid.level_of) in
    let ranked = queue-IsRanked h _ _ (s.valid.side h).valid in
    (
      rw s.trades (
          All-zip (λ (tr : Trade). accepts h taker tr.price ≡ true) (λ tr. IsPrice tr.price)
            (λ tr. NoWorse h tr.price taker.price)
            (λ tr ok pr. (accepts_limit h taker tr.price e r pr.1).0 ok) _
            (take_queue_accepts b.symbol taker.timestamp (accepts h taker) taker.remaining
              (book_queue h b))
            (trades_of_prices b.symbol taker.timestamp (accepts h taker) IsPrice taker.remaining
              (book_queue h b) prices)),
      elim (take_queue_stops b.symbol taker.timestamp (accepts h taker) taker.remaining
          (book_queue h b)) [
            | inl done ↦ inl (rw s.taker done)
            | inr blocked ↦
                inr (
                  All-IsBlocked h taker (book_queue h m.book) e r ranked after
                    (rw s.makers blocked))
          ],
    )
