-- ===== src/OrderBook/Match/Spec.antt =====
-- What `Match` promises: the resting orders of a side form one queue in price-time priority, and a
-- taker takes from its front. Plain numbers, no levels, no maps, no wrap-around.
use oktrading.Prelude.{
  ℕ, ◌+◌, ◌-◌, ◌<◌, ◌≡◌, Bool, not, ◌||◌, List, [], ◌∷◌, String, leb, ◌==◌, if◌then◌else◌, All,
}
use oktrading.Prelude.Maps.{delete}
use oktrading.Int64.{IsNonneg}
use oktrading.Types.{Order, Trade, status_filled, status_partially_filled}
use oktrading.OrderBook.Book.{Index, PriceNode}

-- The quantity that rests in a queue, and the quantity that trades exchange.
unfoldable pub total : List Order → ℕ
total [] = 0
total (o ∷ os) = o.remaining + total os

unfoldable pub traded : List Trade → ℕ
traded [] = 0
traded (t ∷ ts) = t.quantity + traded ts

-- The trades, what the taker still wants, the makers that are used up, and the queue that is left.
pub record Taken : Type 0 where
  pub trades : List Trade
  pub left : ℕ
  pub used : List Order
  pub rest : List Order

module _ (symbol : String) (timestamp : ℕ) (accept : ℕ → Bool) where
  unfoldable pub exchange : Order → ℕ → Trade
  exchange maker qty = record {
    trade_id = 0;
    symbol = symbol;
    maker_order = maker;
    price = maker.price;
    quantity = qty;
    sequence_no = 0;
    timestamp = timestamp;
  }

  -- Take up to `want` from the front of the queue, while its prices are acceptable.
  unfoldable pub take_queue : ℕ → List Order → Taken
  unfolding exchange
  take_queue want [] = record { trades = []; left = want; used = []; rest = [] }
  take_queue want (maker ∷ queue) =
      let used_up = record maker { remaining = 0; status = status_filled } in
      let reduced = record maker {
        remaining = maker.remaining - want;
        status = status_partially_filled;
      } in
      let next = take_queue (want - maker.remaining) queue in
      if want == 0 || not (accept maker.price)
      then record { trades = []; left = want; used = []; rest = maker ∷ queue }
      else if leb maker.remaining want
      then record next {
        trades = exchange used_up maker.remaining ∷ next.trades;
        used = used_up ∷ next.used;
      }
      else record {
        trades = exchange reduced want ∷ [];
        left = 0;
        used = [];
        rest = reduced ∷ queue;
      }

-- The index without the orders that are used up.
unfoldable pub forget : Index → List Order → Index
forget index [] = index
forget index (o ∷ os) = forget (delete index o.order_id) os

-- An order that may rest at price `p`.
pub record IsResting (p : ℕ) (o : Order) : Type 0 where
  pub at_price : o.price ≡ p
  pub open_qty : 0 < o.remaining

-- The node at price `p` caches the quantity of its orders, and that does not overflow.
pub record IsNode (p : ℕ) (n : PriceNode) : Type 0 where
  pub keyed : n.price ≡ p
  pub cached : n.quantity ≡ total n.orders
  pub bounded : IsNonneg (total n.orders)
  pub resting : All (IsResting p) n.orders
