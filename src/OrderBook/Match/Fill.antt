-- ===== src/OrderBook/Match/Fill.antt =====
-- pkg/orderbook/orderbook.go, `fillLevel`, against a taking from the queue of its node.
use oktrading.Prelude.{ℕ, ◌+◌, ◌-◌, ◌≤◌, ◌≡◌, ◌≢◌, true, List, [], ◌∷◌, String, arith, All}
use oktrading.Prelude.Maps.{delete}
use oktrading.Int64.{sub64, smin, IsNonneg, slt_nonneg, sub64_lem, smin_left, smin_right}
use oktrading.Types.{Order}
use oktrading.OrderBook.Book.{PriceNode, Index}
use oktrading.OrderBook.Match.{Filled, make_trade, fill_orders}
use oktrading.OrderBook.Match.Spec.{total, Taken, take_queue, forget, IsResting}

-- The fill of one maker leaves one of the two with nothing.
pub taker_done_of_partial :
    (want have : ℕ)
    → IsNonneg want
    → IsNonneg have
    → sub64 have (smin want have) ≢ 0
    → sub64 want (smin want have) ≡ 0
taker_done_of_partial want have h k ne = ground (
  arith,
  smin_left want have h k,
  smin_right want have h k,
  sub64_lem have have,
  sub64_lem want want,
)

pub record Fills (symbol : String) (tk : Order) (nd : PriceNode) (index : Index) (r : Filled)
    (t : Taken) : Type 0 where
  pub trades : r.trades ≡ t.trades
  pub taker : r.taker ≡ record tk { remaining = t.left }
  pub node : r.node ≡ record nd { quantity = total t.rest; orders = t.rest }
  pub orders : r.orders ≡ forget index t.used

-- The taker and the node after the round that uses the maker `m` up.
abbrev taker_after : Order → Order → Order
taker_after taker m = record taker { remaining = taker.remaining - m.remaining }

abbrev node_after : PriceNode → Order → PriceNode
node_after node m = record node { quantity = node.quantity - m.remaining }

module _ (symbol : String) (taker : Order) (node : PriceNode) (index : Index) (m : Order)
    (os : List Order) (tb : IsNonneg taker.remaining) (q : node.quantity ≡ m.remaining + total os)
    (b : IsNonneg (m.remaining + total os)) (v : IsResting node.price m) where
  -- One round of the loop, the rounds after it given.
  fill_round :
      (m.remaining ≤ taker.remaining
        → Fills symbol
            (taker_after taker m)
            (node_after node m)
            (delete index m.order_id)
            (fill_orders symbol
              (taker_after taker m)
              (node_after node m)
              (delete index m.order_id)
              os)
            (take_queue symbol taker.timestamp (λ p. true) (taker.remaining - m.remaining) os))
      → Fills symbol taker node index
          (fill_orders symbol taker node index (m ∷ os))
          (take_queue symbol taker.timestamp (λ p. true) taker.remaining (m ∷ os))
  unfolding fill_orders take_queue total forget make_trade
  fill_round ih = ground (
    arith,
    slt_nonneg 0 taker.remaining,
    smin_left taker.remaining m.remaining,
    smin_right taker.remaining m.remaining,
    sub64_lem m.remaining m.remaining,
    sub64_lem m.remaining taker.remaining,
    sub64_lem taker.remaining taker.remaining,
    sub64_lem taker.remaining m.remaining,
    sub64_lem node.quantity m.remaining,
    sub64_lem node.quantity taker.remaining,
    v.at_price,
    v.open_qty,
    ih,
  )

pub fill_orders_lem :
    (symbol : String) (taker : Order) (node : PriceNode) (index : Index) (os : List Order)
    → IsNonneg taker.remaining
    → node.quantity ≡ total os
    → IsNonneg (total os)
    → All (IsResting node.price) os
    → Fills symbol taker node index
        (fill_orders symbol taker node index os)
        (take_queue symbol taker.timestamp (λ p. true) taker.remaining os)
unfolding total
fill_orders_lem symbol taker node index [] tb q b v =
    unfold fill_orders take_queue forget in ground arith
fill_orders_lem symbol taker node index (m ∷ os) tb q b v =
    fill_round symbol taker node index m os tb q b v.0 λ le.
      fill_orders_lem symbol (taker_after taker m) (node_after node m) (delete index m.order_id) os
        (omega arith) (omega arith) (omega arith) v.1
