-- ===== src/OrderBook/Rest.antt =====
-- pkg/orderbook/orderbook.go: `AddOrder`, `CancelOrder` and `Snapshot`. `none` stands for a panic.
pub mod Enqueue
pub mod Level
pub mod Add
pub mod Remove
pub mod Prune
pub mod Slices
pub mod Shrink
pub mod Leave
pub mod Cancel
pub mod Undo
use oktrading.Prelude.{
  ℕ, zero, suc, Bool, true, false, Option, none, some, List, [], ◌∷◌, ◌++◌, ◌==◌, if◌then◌else◌,
  length,
}
use oktrading.Prelude.Maps.{update, delete}
use oktrading.Int64.{add64, sub64}
use oktrading.Types.{
  Side, buy, sell, other_side, status_open, status_cancelled, Order, PriceLevel, OrderBookSnapshot,
}
use mathlib.Core.Option
use oktrading.OrderBook.Book.{
  Half, bid, ask, PriceNode, OrderLoc, Ladder, OrderBook, ladder, set_ladder, insert_price,
  remove_price,
}

-- An order at the back of the queue at its price, in a new node if the price has none.
pub push_back : Half → Order → Ladder → Ladder
push_back h o l = elim (l.nodes o.price) [
  | none ↦ record {
    prices = insert_price h o.price l.prices;
    nodes =
        update l.nodes o.price
          (record { price = o.price; quantity = add64 0 o.remaining; orders = o ∷ [] });
  }
  | some n ↦ record l {
    nodes =
        update l.nodes o.price
          (record n { quantity = add64 n.quantity o.remaining; orders = n.orders ++ (o ∷ []) });
  }
]

unfoldable pub add_half : Half → Order → OrderBook → OrderBook
unfolding push_back
add_half h o b = record (set_ladder h (push_back h o (ladder h b)) b) {
  orders = update b.orders o.order_id (record { half = h; price = o.price });
}

unfoldable pub add_side : Side → Order → OrderBook → OrderBook
unfolding add_half
add_side buy o b = add_half bid o b
add_side sell o b = add_half ask o b
add_side (other_side c) o b = b

-- `AddOrder`: the order as it now stands, and the book that holds it.
unfoldable pub add_order : Order → OrderBook → Order × OrderBook
unfolding add_side
add_order order b = let o = record order { status = status_open } in (o, add_side o.side o b)

-- `loc.element.Value` and `orders.Remove(loc.element)`.
unfoldable pub find_order : ℕ → List Order → Option Order
find_order id [] = none
find_order id (o ∷ os) = if o.order_id == id then some o else find_order id os

pub remove_order : ℕ → List Order → List Order
remove_order id [] = []
remove_order id (o ∷ os) = if o.order_id == id then os else o ∷ remove_order id os

is_empty : List Order → Bool
is_empty [] = true
is_empty (o ∷ os) = false

prune_half : Side → Half
prune_half buy = bid
prune_half sell = ask
prune_half (other_side c) = ask

-- The level of a node that has become empty goes, from the map and from the slice.
prune : Half → ℕ → OrderBook → OrderBook
prune h p b =
    let l = ladder h b in
    set_ladder h (record { prices = remove_price h p l.prices; nodes = delete l.nodes p }) b

pub cancel_at : ℕ → OrderLoc → PriceNode → Order → OrderBook → OrderBook
unfolding is_empty prune prune_half
cancel_at id loc n order b =
    let l = ladder loc.half b in
    let n' = record n {
      quantity = sub64 n.quantity order.remaining;
      orders = remove_order id n.orders;
    } in
    let b' = record (set_ladder loc.half (record l { nodes = update l.nodes loc.price n' }) b) {
      orders = delete b.orders id;
    } in
    if is_empty n'.orders then prune (prune_half order.side) n.price b' else b'

-- `CancelOrder`: the cancelled order, `none` for an unknown id, and the book that is left.
unfoldable pub cancel_order : ℕ → OrderBook → Option (Option Order × OrderBook)
unfolding cancel_at
cancel_order id b = elim (b.orders id) [
  | none ↦ some (none, b)
  | some loc ↦ elim ((ladder loc.half b).nodes loc.price) [
    | none ↦ none
    | some n ↦ elim (find_order id n.orders) [
      | none ↦ none
      | some order ↦
          some (some (record order { status = status_cancelled }), cancel_at id loc n order b)
    ]
  ]
]

-- One side of `Snapshot`, over the prices that are left.
unfoldable pub levels : ℕ → List ℕ → (ℕ → Option PriceNode) → Option (List PriceLevel)
levels zero ps nodes = some []
levels (suc max_depth) [] nodes = some []
levels (suc max_depth) (p ∷ ps) nodes = elim (nodes p) [
  | none ↦ none
  | some n ↦
      Option.map (λ ls. record { price = p; quantity = n.quantity; count = length n.orders } ∷ ls)
        (levels max_depth ps nodes)
]

unfoldable pub snapshot : ℕ → OrderBook → Option OrderBookSnapshot
snapshot max_depth b = elim (levels max_depth b.bids.prices b.bids.nodes) [
  | none ↦ none
  | some bids ↦
      Option.map
        (λ asks. record {
          symbol = b.symbol;
          bids = bids;
          asks = asks;
          sequence_no = 0;
          timestamp = 0;
        })
        (levels max_depth b.asks.prices b.asks.nodes)
]
