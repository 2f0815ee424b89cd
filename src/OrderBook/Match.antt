-- ===== src/OrderBook/Match.antt =====
-- pkg/orderbook/orderbook.go: `Match` and `fillLevel`. `none` stands for a panic (a nil node) or for
-- fuel that ran out; a valid book meets neither (OrderBook/Match/Sweep.antt).
pub mod Spec
pub mod Queue
pub mod Ids
pub mod Fill
pub mod Sweep
pub mod Keeps
pub mod Refine
pub mod Limit
pub mod Unlimited
use oktrading.Prelude.{
  ℕ, zero, suc, ◌+◌, ◌-◌, ◌≡◌, Bool, true, false, not, ◌&&◌, ◌||◌, Option, none, some, List, [],
  ◌∷◌, ◌++◌, String, arith, leb, ltb, ◌==◌, if◌then◌else◌, length,
}
use oktrading.Prelude.Maps.{update, delete}
use oktrading.Int64.{sub64, slt, smin}
use oktrading.Types.{
  Side, buy, sell, other_side, OrderType, limit, OrderStatus, status_filled,
  status_partially_filled, Order, Trade, filled_qty,
}
use mathlib.Core.Option
use oktrading.OrderBook.Book.{
  Half, bid, ask, PriceNode, Ladder, Index, OrderBook, ladder, set_ladder,
}

-- What `fillLevel` returns and leaves: the trades, the taker, the node and the index.
pub record Filled : Type 0 where
  pub trades : List Trade
  pub taker : Order
  pub node : PriceNode
  pub orders : Index

make_trade : String → ℕ → Order → Order → ℕ → Trade
make_trade symbol price taker maker qty = record {
  trade_id = 0;
  symbol = symbol;
  maker_order = maker;
  price = price;
  quantity = qty;
  sequence_no = 0;
  timestamp = taker.timestamp;
}

-- The loop of `fillLevel`, over the orders of the node from the front. A maker that is not used up
-- keeps its place, and the loop then ends by its test: the taker has nothing left
-- (`taker_done_of_partial` in OrderBook/Match/Fill.antt).
pub fill_orders : String → Order → PriceNode → Index → List Order → Filled
unfolding make_trade
fill_orders symbol taker node index [] = record {
  trades = [];
  taker = taker;
  node = record node { orders = [] };
  orders = index;
}
fill_orders symbol taker node index (maker ∷ rest) =
    let qty = smin taker.remaining maker.remaining in
    let taker' = record taker { remaining = sub64 taker.remaining qty } in
    let left = sub64 maker.remaining qty in
    let node' = record node { quantity = sub64 node.quantity qty } in
    let used_up = record maker { remaining = left; status = status_filled } in
    let reduced = record maker { remaining = left; status = status_partially_filled } in
    let next = fill_orders symbol taker' node' (delete index maker.order_id) rest in
    if not (slt 0 taker.remaining)
    then record {
      trades = [];
      taker = taker;
      node = record node { orders = maker ∷ rest };
      orders = index;
    }
    else if left == 0
    then record next { trades = make_trade symbol node.price taker used_up qty ∷ next.trades }
    else record {
      trades = make_trade symbol node.price taker reduced qty ∷ [];
      taker = taker';
      node = record node' { orders = reduced ∷ rest };
      orders = index;
    }

pub fill_level : String → Order → PriceNode → Index → Filled
unfolding fill_orders
fill_level symbol taker node index = fill_orders symbol taker node index node.orders

-- The break of the sweep: the best price lies beyond the taker's limit. Only `Limit` takers have one.
abbrev pub is_limit : OrderType → Bool
is_limit limit = true
is_limit _ = false

abbrev pub beyond : Half → ℕ → ℕ → Bool
beyond ask best price = slt price best
beyond bid best price = slt best price

-- What the loop of `Match` has done when it ends.
pub record Swept : Type 0 where
  pub trades : List Trade
  pub taker : Order
  pub ladder : Ladder
  pub orders : Index

abbrev pub add_trades : List Trade → Swept → Swept
add_trades ts s = record s { trades = ts ++ s.trades }

-- The loop's test, and the break: nothing is wanted, or the limit is passed.
pub loop_ends : Half → Order → ℕ → Bool
loop_ends h taker p = not (slt 0 taker.remaining) || (is_limit taker.type && beyond h p taker.price)

-- The loop of `Match` over one side of the book, on fuel.
pub sweep : ℕ → Half → String → Order → List ℕ → (ℕ → Option PriceNode) → Index → Option Swept
unfolding fill_level loop_ends
sweep zero h symbol taker prices nodes index = none
sweep (suc fuel) h symbol taker [] nodes index = some (record {
  trades = [];
  taker = taker;
  ladder = record { prices = []; nodes = nodes };
  orders = index;
})
sweep (suc fuel) h symbol taker (p ∷ prices) nodes index =
    if loop_ends h taker p
    then some (record {
      trades = [];
      taker = taker;
      ladder = record { prices = p ∷ prices; nodes = nodes };
      orders = index;
    })
    else elim (nodes p) [
      | none ↦ none
      | some node ↦
          let r = fill_level symbol taker node index in
          elim (r.node.quantity == 0) [
            | true ↦
                Option.map (add_trades r.trades)
                  (sweep fuel h symbol r.taker prices (delete nodes p) r.orders)
            | false ↦
                Option.map (add_trades r.trades)
                  (sweep fuel h symbol r.taker (p ∷ prices) (update nodes p r.node) r.orders)
          ]
    ]

-- `Match`, with what it returns and leaves.
pub record Matched : Type 0 where
  pub trades : List Trade
  pub taker : Order
  pub book : OrderBook

-- The `switch` after the sweep.
final_status : Order → OrderStatus
final_status o =
    if o.remaining == 0
    then status_filled
    else if slt 0 (filled_qty o)
    then status_partially_filled
    else o.status

finish_match : Half → OrderBook → Swept → Matched
unfolding final_status
finish_match h book s = record {
  trades = s.trades;
  taker = record s.taker { status = final_status s.taker };
  book = record (set_ladder h s.ladder book) { orders = s.orders };
}

-- One side of the book, with a round for each price and one more to end by the loop's test.
match_half : Half → Order → OrderBook → Option Matched
unfolding finish_match
match_half h taker book =
    let l = ladder h book in
    Option.map (finish_match h book)
      (sweep (suc (length l.prices)) h book.symbol taker l.prices l.nodes book.orders)

match_side : Side → Order → OrderBook → Option Matched
unfolding match_half finish_match
match_side buy taker book = match_half ask taker book
match_side sell taker book = match_half bid taker book
match_side (other_side b) taker book =
    some (record { trades = []; taker = record taker { status = final_status taker }; book = book })

unfoldable pub match_order : Order → OrderBook → Option Matched
unfolding match_side
match_order taker book = match_side taker.side taker book
