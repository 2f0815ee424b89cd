-- ===== src/OrderBook/Book.antt =====
-- pkg/orderbook/orderbook.go: the state of a book, its queries, and its sorted price slices. The two
-- sides of the book run the same code with the order of prices turned round, so one definition
-- serves both, indexed by `Half`. A `*priceNode` is named by the half and the price under which the
-- book holds it, and a `*list.Element` by the id of its order.
pub mod Prices
use oktrading.Prelude.{
  ℕ, suc, ◌≡◌, Bool, true, false, ◌&&◌, Option, none, some, List, [], ◌∷◌, ◌++◌, String, ltb, ◌==◌,
  if◌then◌else◌, length, get_or, take, drop,
}
use oktrading.Prelude.Maps.{empty}
use oktrading.Int64.{sub64, sle}
use oktrading.Types.{Order}
use oktrading.OrderBook.Search.{search}

-- Which of the two sides of the book.
pub data Half : Type 0 where
  bid : Half
  ask : Half

-- `quantity` caches the sum of the orders' `remaining`; the front of `orders` is the oldest.
pub record PriceNode : Type 0 where
  pub price : ℕ
  pub quantity : ℕ
  pub orders : List Order

-- The node, named by its half and price; the element is named by the key of the index.
pub record OrderLoc : Type 0 where
  pub half : Half
  pub price : ℕ

-- `bidPrices` with `bids`, or `askPrices` with `asks`.
pub record Ladder : Type 0 where
  pub prices : List ℕ
  pub nodes : ℕ → Option PriceNode

abbrev pub Index : Type 0
Index = ℕ → Option OrderLoc

pub record OrderBook : Type 0 where
  pub symbol : String
  pub bids : Ladder
  pub asks : Ladder
  pub orders : Index

abbrev pub ladder : Half → OrderBook → Ladder
ladder bid b = b.bids
ladder ask b = b.asks

abbrev pub other : Half → Half
other bid = ask
other ask = bid

abbrev pub set_ladder : Half → Ladder → OrderBook → OrderBook
set_ladder bid l b = record b { bids = l }
set_ladder ask l b = record b { asks = l }

abbrev pub empty_ladder : Ladder
empty_ladder = record { prices = []; nodes = empty }

unfoldable pub new : String → OrderBook
new symbol = record { symbol = symbol; bids = empty_ladder; asks = empty_ladder; orders = empty }

abbrev pub best : List ℕ → ℕ
best [] = 0
best (p ∷ ps) = p

unfoldable pub best_bid : OrderBook → ℕ
best_bid b = best b.bids.prices

unfoldable pub best_ask : OrderBook → ℕ
best_ask b = best b.asks.prices

pub spread : OrderBook → ℕ
unfolding best_bid best_ask
spread b =
    if best_bid b == 0 then 0 else if best_ask b == 0 then 0 else sub64 (best_ask b) (best_bid b)

pub depth : OrderBook → ℕ × ℕ
depth b = (length b.bids.prices, length b.asks.prices)

unfoldable pub has_order : ℕ → OrderBook → Bool
has_order id b = elim (b.orders id) [ none ↦ false | some loc ↦ true ]

-- The test that `sort.Search` is given: `bidPrices[j] <= p`, and `askPrices[j] >= p`.
abbrev pub at_or_after : Half → ℕ → ℕ → Bool
at_or_after bid p q = sle q p
at_or_after ask p q = sle p q

-- `sort.Search(len(prices), func(j int) bool { … })`
pub price_index : Half → ℕ → List ℕ → ℕ
price_index h p ps = search (length ps) (λ j. at_or_after h p (get_or ps j 0))

-- `insertBidPrice`, `insertAskPrice`: the slice grows by one and its tail moves up.
unfoldable pub insert_price : Half → ℕ → List ℕ → List ℕ
unfolding price_index
insert_price h p ps = let i = price_index h p ps in take i ps ++ p ∷ drop i ps

-- `removeBidPrice`, `removeAskPrice`
unfoldable pub remove_price : Half → ℕ → List ℕ → List ℕ
unfolding price_index
remove_price h p ps =
    let i = price_index h p ps in
    if ltb i (length ps) && get_or ps i 0 == p then take i ps ++ drop (suc i) ps else ps
