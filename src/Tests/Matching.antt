-- ===== src/Tests/Matching.antt =====
-- The theorems on the order book, applied to the small book.
use oktrading.Prelude.{
  ℕ, List, [], ◌∷◌, ◌==◌, ◌||◌, contains, ◌-◌, min, ◌+◌, ◌≤◌, ◌<◌, ◌≡◌, ◌⊎◌, refl, some, arith, All,
}
use oktrading.Types.{Order, Trade, buy, limit, ioc, fok}
use oktrading.OrderBook.Book.{bid, ask, insert_price, remove_price}
use oktrading.Int64.{bias}
use oktrading.OrderBook.Valid.{IsSorted}
use oktrading.OrderBook.Rest.Slices.{remove_price-insert_price}
use oktrading.OrderBook.Invariant.{book_queue}
use oktrading.OrderBook.Match.{Matched, match_order}
use oktrading.OrderBook.Match.Spec.{total, traded}
use oktrading.OrderBook.Match.Refine.{IsTaker, Matches, match_order-Matches, match_order_conserves}
use oktrading.OrderBook.Match.Unlimited.{match_unlimited}
use oktrading.OrderBook.Match.Limit.{match_limit_lem}
use oktrading.OrderBook.Rest.{add_order}
use oktrading.OrderBook.Rest.Add.{Adds, add_order-Adds}
use oktrading.Engine.Fok.{Killed, FilledBy, fok_fills_or_kills}
use oktrading.Engine.Fok.Depth.{within_depth}
use oktrading.Engine.{Engine, new, new_order, finish, emit_trades}
use oktrading.Tests.Books.{
  order, sample, sample-IsBook, three_asks, three_asks-IsBook, only_bid, only_bid-IsRestable,
}

-- A buyer of six at 101 takes all of the first ask and one of the second.
abbrev buyer : Order
buyer = order 9 buy limit 101 6

buyer-IsTaker : IsTaker buyer
buyer-IsTaker = omega arith

match_order-Matches_example :
    (m : Matched) × (match_order buyer sample ≡ some m) × Matches ask buyer sample m
match_order-Matches_example = match_order-Matches ask buyer sample sample-IsBook buyer-IsTaker refl

abbrev after : Matched
after = match_order-Matches_example.0

match_order_conserves_example :
    (after.taker.remaining + traded after.trades ≡ 6)
    × (total (book_queue ask after.book) + traded after.trades ≡ total (book_queue ask sample))
match_order_conserves_example =
    match_order_conserves ask buyer sample after sample-IsBook buyer-IsTaker refl
      match_order-Matches_example.1

match_limit_lem_example :
    All (λ (tr : Trade). tr.price ≤ 101) after.trades
    × ((after.taker.remaining ≡ 0) ⊎ All (λ (o : Order). 101 < o.price) (book_queue ask after.book))
match_limit_lem_example =
    match_limit_lem ask buyer sample after sample-IsBook buyer-IsTaker refl refl (omega arith)
      match_order-Matches_example.1

add_order-Adds_example : Adds bid only_bid three_asks (add_order only_bid three_asks)
add_order-Adds_example =
    add_order-Adds bid only_bid three_asks three_asks-IsBook only_bid-IsRestable

-- A fill-or-kill order for all twelve that are on offer.
abbrev killer : Order
killer = order 10 buy fok 101 12

abbrev engine : Engine
engine = record (new "BTC-USDT") { book = sample }

fok_fills_or_kills_example :
    ((12 ≤ within_depth ask sample)
      × ((m : Matched) × (match_order killer sample ≡ some m)
          × (m.taker.remaining ≡ 0)
          × (traded m.trades ≡ 12)
          × (new_order fok killer engine
              ≡ some
                  (finish m.taker (emit_trades m.taker m.trades (record engine { book = m.book }))))
          × FilledBy m engine
              (finish m.taker (emit_trades m.taker m.trades (record engine { book = m.book })))))
    ⊎ ((within_depth ask sample < 12)
        × ((e' : Engine) × (new_order fok killer engine ≡ some e') × Killed killer engine e'))
fok_fills_or_kills_example =
    fok_fills_or_kills ask killer engine sample-IsBook (omega arith) refl refl

-- An immediate-or-cancel buyer at 100 also takes the four at 105.
abbrev impatient : Order
impatient = order 11 buy ioc 100 12

impatient-IsTaker : IsTaker impatient
impatient-IsTaker = omega arith

impatient_matched :
    (m : Matched) × (match_order impatient sample ≡ some m) × Matches ask impatient sample m
impatient_matched = match_order-Matches ask impatient sample sample-IsBook impatient-IsTaker refl

match_unlimited_example :
    (impatient_matched.0.taker.remaining ≡ 12 - total (book_queue ask sample))
    × (traded impatient_matched.0.trades ≡ min 12 (total (book_queue ask sample)))
match_unlimited_example =
    match_unlimited ask impatient sample impatient_matched.0 sample-IsBook impatient-IsTaker refl
      refl impatient_matched.1

-- The ask prices 100 and 105, and a new level at 101.
abbrev prices : List ℕ
prices = 100 ∷ 105 ∷ []

remove_price-insert_price_example :
    IsSorted ask (insert_price ask 101 prices)
    × ((x : ℕ) → contains x (insert_price ask 101 prices) ≡ (x == 101 || contains x prices))
    × (remove_price ask 101 (insert_price ask 101 prices) ≡ prices)
    × (remove_price ask 101 prices ≡ prices)
unfolding bias
remove_price-insert_price_example =
    remove_price-insert_price ask 101 prices ((omega arith, tt), (tt, tt)) (omega arith)
      (omega arith, (omega arith, tt)) refl
