-- ===== src/Types.antt =====
-- pkg/types/types.go: the domain types. Prices and quantities are `int64` patterns (Int64.antt),
-- ids, sequence numbers and times are 64-bit patterns, and the `int8` enumerations are data types
-- whose last constructor holds every byte that is no declared constant.
use oktrading.Prelude.{ℕ, Option, List, String}
use oktrading.Int64.{sub64}

abbrev pub scale_factor : ℕ
scale_factor = 100_000_000

pub data Side : Type 0 where
  buy : Side
  sell : Side
  other_side : ℕ → Side

pub data OrderType : Type 0 where
  limit : OrderType
  market : OrderType
  ioc : OrderType
  fok : OrderType
  post_only : OrderType
  other_type : ℕ → OrderType

-- `unset` is the zero value; `String` calls it UNKNOWN, as any byte that is no declared constant.
pub data OrderStatus : Type 0 where
  unset : OrderStatus
  status_new : OrderStatus
  status_open : OrderStatus
  status_partially_filled : OrderStatus
  status_filled : OrderStatus
  status_cancelled : OrderStatus
  status_rejected : OrderStatus
  other_status : ℕ → OrderStatus

pub data CommandType : Type 0 where
  cmd_new_order : CommandType
  cmd_cancel_order : CommandType
  other_command : ℕ → CommandType

pub data EventType : Type 0 where
  evt_order_accepted : EventType
  evt_order_filled : EventType
  evt_order_cancelled : EventType
  evt_order_rejected : EventType
  evt_trade : EventType
  other_event : ℕ → EventType

-- `func (s Side) String() string`
pub side_string : Side → String
side_string buy = "BUY"
side_string sell = "SELL"
side_string (other_side b) = "SELL"

-- `func (s OrderStatus) String() string`
pub status_string : OrderStatus → String
status_string unset = "UNKNOWN"
status_string status_new = "NEW"
status_string status_open = "OPEN"
status_string status_partially_filled = "PARTIALLY_FILLED"
status_string status_filled = "FILLED"
status_string status_cancelled = "CANCELLED"
status_string status_rejected = "REJECTED"
status_string (other_status b) = "UNKNOWN"

-- The bytes of the `int8` constants; `Sell` is -1.
abbrev pub side_code : Side → ℕ
side_code buy = 1
side_code sell = 255
side_code (other_side b) = b

abbrev pub type_code : OrderType → ℕ
type_code limit = 1
type_code market = 2
type_code ioc = 3
type_code fok = 4
type_code post_only = 5
type_code (other_type b) = b

abbrev pub status_code : OrderStatus → ℕ
status_code unset = 0
status_code status_new = 1
status_code status_open = 2
status_code status_partially_filled = 3
status_code status_filled = 4
status_code status_cancelled = 5
status_code status_rejected = 6
status_code (other_status b) = b

abbrev pub event_code : EventType → ℕ
event_code evt_order_accepted = 1
event_code evt_order_filled = 2
event_code evt_order_cancelled = 3
event_code evt_order_rejected = 4
event_code evt_trade = 5
event_code (other_event b) = b

pub record Order : Type 0 where
  pub order_id : ℕ
  pub client_oid : String
  pub symbol : String
  pub user_id : ℕ
  pub side : Side
  pub type : OrderType
  pub price : ℕ
  pub quantity : ℕ
  pub remaining : ℕ
  pub status : OrderStatus
  pub sequence_no : ℕ
  pub timestamp : ℕ

-- `FilledQty`
unfoldable pub filled_qty : Order → ℕ
filled_qty o = sub64 o.quantity o.remaining

-- `MakerOrder` is the maker as its fill left it: no later fill of the same sweep reaches it.
-- `TakerOrder` is the one order that was matched, and is passed beside the list of trades.
pub record Trade : Type 0 where
  pub trade_id : ℕ
  pub symbol : String
  pub maker_order : Order
  pub price : ℕ
  pub quantity : ℕ
  pub sequence_no : ℕ
  pub timestamp : ℕ

-- `none` is the nil pointer that a cancel command carries.
pub record Command : Type 0 where
  pub type : CommandType
  pub order : Option Order
  pub cancel_id : ℕ
  pub user_id : ℕ
  pub sequence_no : ℕ

pub record PriceLevel : Type 0 where
  pub price : ℕ
  pub quantity : ℕ
  pub count : ℕ

pub record OrderBookSnapshot : Type 0 where
  pub symbol : String
  pub bids : List PriceLevel
  pub asks : List PriceLevel
  pub sequence_no : ℕ
  pub timestamp : ℕ

-- `types.Order{}`, what `PutOrder` leaves behind.
abbrev pub zero_order : Order
zero_order = record {
  order_id = 0;
  client_oid = "";
  symbol = "";
  user_id = 0;
  side = other_side 0;
  type = other_type 0;
  price = 0;
  quantity = 0;
  remaining = 0;
  status = unset;
  sequence_no = 0;
  timestamp = 0;
}
