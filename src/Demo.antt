-- ===== src/Demo.antt =====
-- cmd/engine/main.go: the orders that the demonstration places, and the parts of an event that it prints.
-- The text is that of the bytes; what `fmt` does to numbers is left out.
pub mod Reason
use oktrading.Prelude.{ℕ, List, [], ◌∷◌, String, ◌==◌, if◌then◌else◌}
use oktrading.Types.{
  Order, Side, OrderType, limit, market, ioc, fok, post_only, unset, side_code, buy, sell,
  type_code,
}
use oktrading.Offheap.{RawEvent}

-- `types.Order{…}` of the helpers: nothing of it is filled, and the market order has no price.
abbrev pub demo_order : OrderType → String → ℕ → Side → ℕ → ℕ → Order
demo_order type symbol uid side price qty = record {
  order_id = 0;
  client_oid = "";
  symbol = symbol;
  user_id = uid;
  side = side;
  type = type;
  price = price;
  quantity = qty;
  remaining = qty;
  status = unset;
  sequence_no = 0;
  timestamp = 0;
}

abbrev pub limit_order : String → ℕ → Side → ℕ → ℕ → Order
limit_order sym uid side price qty = demo_order limit sym uid side price qty

abbrev pub market_order : String → ℕ → Side → ℕ → Order
market_order sym uid side qty = demo_order market sym uid side 0 qty

abbrev pub ioc_order : String → ℕ → Side → ℕ → ℕ → Order
ioc_order sym uid side price qty = demo_order ioc sym uid side price qty

abbrev pub fok_order : String → ℕ → Side → ℕ → ℕ → Order
fok_order sym uid side price qty = demo_order fok sym uid side price qty

abbrev pub post_only_order : String → ℕ → Side → ℕ → ℕ → Order
post_only_order sym uid side price qty = demo_order post_only sym uid side price qty

-- `sideName`
pub side_name : ℕ → String
side_name s =
    if s == side_code buy then "BUY" else if s == side_code sell then "SELL" else "UNKNOWN"

-- `orderTypeName`
pub order_type_name : ℕ → String
order_type_name t =
    if t == type_code limit
    then "LIMIT"
    else if t == type_code market
    then "MARKET"
    else if t == type_code ioc
    then "IOC"
    else if t == type_code fok
    then "FOK"
    else if t == type_code post_only
    then "POST_ONLY"
    else "UNKNOWN"

-- A byte before a text that is trimmed.
unfoldable pub keep : ℕ → List ℕ → List ℕ
keep b [] = if b == 0 then [] else b ∷ []
keep b (c ∷ cs) = b ∷ c ∷ cs

-- The standard library's `bytes.TrimRight(s, "\x00")`.
unfoldable pub trim_right : List ℕ → List ℕ
unfolding keep
trim_right [] = []
trim_right (b ∷ bs) = keep b (trim_right bs)

-- The reason of a rejection, as `printEvent` prints it.
unfoldable pub printed_reason : RawEvent → List ℕ
unfolding trim_right
printed_reason evt = trim_right evt.reason
