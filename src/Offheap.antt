-- ===== src/Offheap.antt =====
-- pkg/offheap/ring.go: the 128-byte event that the engine publishes, and how each kind is written.
-- A slot is zeroed and then filled field by field; the fields left out of a kind stay 0.
pub mod Ring
pub mod Shared
use oktrading.Prelude.{
  ℕ, Option, none, some, List, ◌++◌, String, ltb, if◌then◌else◌, length, take, drop, set, replicate,
  codes,
}
use oktrading.Types.{
  Order, OrderStatus, EventType, evt_trade, event_code, side_code, type_code, status_code,
}

-- `RawEvent`, with its `int8` fields as bytes. The padding is left out.
pub record RawEvent : Type 0 where
  pub evt_type : ℕ
  pub order_status : ℕ
  pub order_type : ℕ
  pub side : ℕ
  pub seq_no : ℕ
  pub order_id : ℕ
  pub maker_order_id : ℕ
  pub trade_id : ℕ
  pub price : ℕ
  pub quantity : ℕ
  pub remaining : ℕ
  pub timestamp : ℕ
  pub reason : List ℕ

-- `zero_slot`
abbrev pub zero_slot : RawEvent
zero_slot = record {
  evt_type = 0;
  order_status = 0;
  order_type = 0;
  side = 0;
  seq_no = 0;
  order_id = 0;
  maker_order_id = 0;
  trade_id = 0;
  price = 0;
  quantity = 0;
  remaining = 0;
  timestamp = 0;
  reason = replicate 32 0;
}

-- `copyReason`: at most 31 bytes, and a 0 behind them.
unfoldable pub copy_reason : List ℕ → List ℕ → List ℕ
copy_reason dst s =
    let n : ℕ = if ltb 31 (length s) then 31 else length s in set (take n s ++ drop n dst) n 0

unfoldable pub with_order : Option Order → RawEvent → RawEvent
with_order none s = s
with_order (some o) s = record s {
  order_status = status_code o.status;
  order_type = type_code o.type;
  side = side_code o.side;
  order_id = o.order_id;
  price = o.price;
  quantity = o.quantity;
  remaining = o.remaining;
  timestamp = o.timestamp;
}

-- What `PushOrder` writes.
unfoldable pub order_event : EventType → ℕ → Option Order → RawEvent
unfolding with_order
order_event evt_type seq_no order =
    with_order order (record zero_slot { evt_type = event_code evt_type; seq_no = seq_no })

-- What `PushOrderWithReason` writes.
unfoldable pub reason_event : EventType → ℕ → Option Order → String → RawEvent
unfolding with_order copy_reason
reason_event evt_type seq_no order reason =
    let s =
      with_order order (record zero_slot { evt_type = event_code evt_type; seq_no = seq_no }) in
    record s { reason = copy_reason s.reason (codes reason) }

-- What `PushTrade` writes, for a taker that is not nil.
unfoldable pub trade_event : ℕ → ℕ → Order → ℕ → OrderStatus → ℕ → ℕ → RawEvent
trade_event seq_no trade_id taker maker_order_id maker_status price qty = record zero_slot {
  evt_type = event_code evt_trade;
  seq_no = seq_no;
  trade_id = trade_id;
  maker_order_id = maker_order_id;
  order_status = status_code maker_status;
  price = price;
  quantity = qty;
  order_id = taker.order_id;
  side = side_code taker.side;
  order_type = type_code taker.type;
  remaining = taker.remaining;
  timestamp = taker.timestamp;
}
