-- ===== src/Engine.antt =====
-- pkg/engine/engine.go: the deterministic state machine of one symbol, and pkg/pool/pool.go as the
-- log of what it gives back. The wall clock is an argument. `outbound` is every event that was
-- published, oldest first. `none` stands for a panic.
pub mod Fok
pub mod Keeps
pub mod PostOnly
pub mod Admit
pub mod Numbering
pub mod Returns
pub mod Events
pub mod Log
pub mod Replay
pub mod Gives
pub mod Serve
pub mod Live
pub mod Quotes
use oktrading.Prelude.{
  ℕ, ◌≡◌, Bool, true, false, ◌&&◌, Option, none, some, List, [], ◌∷◌, ◌++◌, String, ◌==◌,
  if◌then◌else◌,
}
use oktrading.Int64.{add64, sub64, slt, sle}
use oktrading.Types.{
  Side, buy, sell, other_side, OrderType, limit, market, ioc, fok, post_only, other_type,
  OrderStatus, status_filled, status_cancelled, status_rejected, CommandType, cmd_new_order,
  cmd_cancel_order, other_command, EventType, evt_order_accepted, evt_order_filled,
  evt_order_cancelled, evt_order_rejected, Order, Trade, Command, PriceLevel,
}
use oktrading.Offheap.{RawEvent, order_event, reason_event, trade_event}
use oktrading.OrderBook.Book.{Half, bid, ask, OrderBook, best_bid, best_ask}
use oktrading.OrderBook.Book
use oktrading.OrderBook.Match.{Matched, is_limit, beyond, match_order}
use oktrading.OrderBook.Rest.{add_order, cancel_order, snapshot}

-- What was given back to its `sync.Pool`, as it stood before the pool zeroed it.
pub data Put : Type 0 where
  order_put : Order → Put
  trade_put : Trade → Put
  command_put : Command → Put

pub record Engine : Type 0 where
  pub symbol : String
  pub book : OrderBook
  pub local_seq : ℕ
  pub trade_seq : ℕ
  pub outbound : List RawEvent
  pub pool : List Put

unfoldable pub new : String → Engine
unfolding Book.new
new symbol = record {
  symbol = symbol;
  book = Book.new symbol;
  local_seq = 0;
  trade_seq = 0;
  outbound = [];
  pool = [];
}

-- `e.outbound.Push…` and `pool.Put…`
abbrev pub publish : RawEvent → Engine → Engine
publish evt e = record e { outbound = e.outbound ++ (evt ∷ []) }

abbrev pub put : Put → Engine → Engine
put p e = record e { pool = e.pool ++ (p ∷ []) }

crosses : Side → ℕ → OrderBook → Bool
unfolding best_bid best_ask
crosses buy price b = slt 0 (best_ask b) && sle (best_ask b) price
crosses sell price b = slt 0 (best_bid b) && sle price (best_bid b)
crosses (other_side c) price b = false

-- `wouldCross`
pub would_cross : Order → OrderBook → Bool
unfolding crosses
would_cross order b = crosses order.side order.price b

-- The loop of `canFillCompletely` over the levels of one side.
pub fills : Half → Order → ℕ → List PriceLevel → Bool
fills h order remaining [] = remaining == 0
fills h order remaining (lvl ∷ lvls) =
    if is_limit order.type && beyond h lvl.price order.price
    then remaining == 0
    else if sle remaining lvl.quantity
    then true
    else fills h order (sub64 remaining lvl.quantity) lvls

abbrev pub fok_depth : ℕ
fok_depth = 4096

can_fill_side : Side → Order → List PriceLevel → List PriceLevel → Bool
unfolding fills
can_fill_side buy order bids asks = fills ask order order.remaining asks
can_fill_side sell order bids asks = fills bid order order.remaining bids
can_fill_side (other_side c) order bids asks = order.remaining == 0

-- `canFillCompletely`
pub can_fill_completely : Order → OrderBook → Option Bool
unfolding can_fill_side snapshot
can_fill_completely order b = elim (snapshot fok_depth b) [
  | none ↦ none
  | some snap ↦ some (can_fill_side order.side order snap.bids snap.asks)
]

abbrev pub is_filled : OrderStatus → Bool
is_filled status_filled = true
is_filled _ = false

-- One round of `emitTrades`.
pub emit_trade : Order → Trade → Engine → Engine
emit_trade taker tr e =
    let id = add64 e.trade_seq 1 in
    let tr' = record tr { trade_id = id } in
    let maker = tr.maker_order in
    let evt = trade_event e.local_seq id taker maker.order_id maker.status tr.price tr.quantity in
    let e' = publish evt (record e { trade_seq = id }) in
    put (trade_put tr') (if is_filled maker.status then put (order_put maker) e' else e')

pub emit_trades : Order → List Trade → Engine → Engine
unfolding emit_trade
emit_trades taker [] e = e
emit_trades taker (tr ∷ trs) e = emit_trades taker trs (emit_trade taker tr e)

-- `emitOrderUpdate`, after which the order is given back.
pub finish : Order → Engine → Engine
finish order e =
    put (order_put order) (publish (order_event evt_order_filled e.local_seq (some order)) e)

-- The order rests in the book.
pub accept : Order → Engine → Engine
accept order e =
    let (o, b) = add_order order e.book in
    publish (order_event evt_order_accepted e.local_seq (some o)) (record e { book = b })

pub reject : String → Order → Engine → Engine
reject reason order e =
    let o = record order { status = status_rejected } in
    put (order_put o) (publish (reason_event evt_order_rejected e.local_seq (some o) reason) e)

-- What could not be filled is cancelled.
pub cancel_residual : Order → Engine → Engine
cancel_residual order e =
    let o = record order { status = status_cancelled } in
    put (order_put o) (publish (order_event evt_order_cancelled e.local_seq (some o)) e)

-- `e.book.Match(order)` and `e.emitTrades(trades)`; `after` is the rest of the branch.
pub sweep_then : (Order → Engine → Engine) → Order → Engine → Option Engine
unfolding emit_trades
sweep_then after order e = elim (match_order order e.book) [
  | none ↦ none
  | some m ↦ some (after m.taker (emit_trades m.taker m.trades (record e { book = m.book })))
]

pub rest_or_finish : Order → Engine → Engine
unfolding accept finish
rest_or_finish order e = if slt 0 order.remaining then accept order e else finish order e

pub cancel_or_finish : Order → Engine → Engine
unfolding cancel_residual finish
cancel_or_finish order e = if slt 0 order.remaining then cancel_residual order e else finish order e

-- The `switch order.Type` of `handleNewOrder`.
pub new_order : OrderType → Order → Engine → Option Engine
unfolding accept finish reject sweep_then rest_or_finish cancel_or_finish
new_order post_only order e =
    if would_cross order e.book
    then some (reject "post-only order would immediately match" order e)
    else some (accept order e)
new_order fok order e = elim (can_fill_completely order e.book) [
  | none ↦ none
  | some true ↦ sweep_then finish order e
  | some false ↦ some (reject "insufficient liquidity for FOK" order e)
]
new_order limit order e = sweep_then rest_or_finish order e
new_order ioc order e = sweep_then cancel_or_finish order e
new_order market order e = sweep_then cancel_or_finish order e
new_order (other_type c) order e = some (reject "unknown order type" order e)

-- The order as `handleNewOrder` stamps it.
abbrev pub stamp : ℕ → ℕ → Order → Order
stamp now seq o = record o {
  sequence_no = seq;
  timestamp = if o.timestamp == 0 then now else o.timestamp;
}

pub handle_new_order : ℕ → Command → Engine → Option Engine
unfolding new_order
handle_new_order now cmd e = elim cmd.order [
  | none ↦ none
  | some o ↦ let order = stamp now cmd.sequence_no o in new_order order.type order e
]

unfoldable pub handle_cancel_order : Command → Engine → Option Engine
handle_cancel_order cmd e = elim (cancel_order cmd.cancel_id e.book) [
  | none ↦ none
  | some (none, b) ↦
      let e' = record e { book = b } in
      some (
        publish
          (reason_event evt_order_rejected e.local_seq none "cancel rejected: order not found") e')
  | some (some order, b) ↦
      let e' = record e { book = b } in
      some (
        put (order_put order)
          (publish (order_event evt_order_cancelled e.local_seq (some order)) e'))
]

unfoldable pub dispatch : CommandType → ℕ → Command → Engine → Option Engine
unfolding handle_new_order handle_cancel_order
dispatch cmd_new_order now cmd e = handle_new_order now cmd e
dispatch cmd_cancel_order now cmd e = handle_cancel_order cmd e
dispatch (other_command c) now cmd e = some e

-- `process`
unfoldable pub process : ℕ → Command → Engine → Option Engine
unfolding dispatch
process now cmd e =
    let seq = add64 e.local_seq 1 in
    let cmd' = record cmd { sequence_no = seq } in
    elim (dispatch cmd.type now cmd' (record e { local_seq = seq })) [
      | none ↦ none
      | some e' ↦ some (put (command_put (record cmd' { order = none })) e')
    ]

-- The loop of `run`: the commands that the inbound ring hands over, each with the clock's reading.
unfoldable pub run : List (ℕ × Command) → Engine → Option Engine
unfolding process
run [] e = some e
run ((now, cmd) ∷ cmds) e = elim (process now cmd e) [ none ↦ none | some e' ↦ run cmds e' ]
