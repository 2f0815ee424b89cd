-- ===== src/Gateway.antt =====
-- pkg/gateway/gateway.go: validation, the rate limit of each user, order ids and routing. The token
-- bucket counts in `float64`, whose operations are a parameter. Every reading of the clock is an
-- argument.
pub mod Orders
pub mod Place
pub mod Cancel
use oktrading.Prelude.{
  ℕ, Bool, true, false, ◌&&◌, ◌||◌, Option, none, some, String, same_text, ◌==◌, if◌then◌else◌,
}
use mathlib.Core.Option
use oktrading.Prelude.Maps.{update}
use oktrading.Int64.{add64, sub64, slt, sle}
use oktrading.Types.{
  Side, buy, sell, other_side, OrderType, limit, market, ioc, fok, post_only, other_type, Order,
  Command, cmd_new_order, cmd_cancel_order,
}
use oktrading.Shard.{Manager, ShardError, get_or_create, try_submit_to, submit_to_symbol}

-- What `validateOrder` objects to.
pub data OrderError : Type 0 where
  symbol_empty : OrderError
  invalid_side : Side → OrderError
  quantity_not_positive : OrderError
  price_required : OrderError
  unknown_type : OrderType → OrderError

-- The errors of `PlaceOrder` and `CancelOrder`.
pub data Error : Type 0 where
  rate_limited : Error
  invalid_order : OrderError → Error
  invalid_cancel : Error
  buffer_full : Error
  symbol_not_found : ShardError → Error

-- The price test of each type.
unfoldable pub validate_price : OrderType → ℕ → Option OrderError
validate_price market price = none
validate_price (other_type c) price = some (unknown_type (other_type c))
validate_price _ price = if sle price 0 then some price_required else none

unfoldable pub is_side : Side → Bool
is_side buy = true
is_side sell = true
is_side (other_side c) = false

-- `validateOrder`; `none` is success.
unfoldable pub validate_order : Order → Option OrderError
unfolding validate_price is_side
validate_order o =
    if same_text o.symbol ""
    then some symbol_empty
    else if is_side o.side
    then if sle o.quantity 0 then some quantity_not_positive else validate_price o.type o.price
    else some (invalid_side o.side)

-- `float64`: conversion, the four operations that the bucket uses, and the comparison.
pub record Float64 {ℓ} (F : Type ℓ) : Type ℓ where
  pub of_int : ℕ → F
  pub add : F → F → F
  pub subtract : F → F → F
  pub multiply : F → F → F
  pub divide : F → F → F
  pub less : F → F → Bool

module _ {ℓ} {F : Type ℓ} (float : Float64 F) where
  pub record TokenBucket : Type ℓ where
    pub tokens : F
    pub max_tok : F
    pub refill : F
    pub last_time : ℕ

  pub record Gateway : Type ℓ where
    pub max_orders_per_second : ℕ
    pub manager : Manager
    pub order_seq : ℕ
    pub rate_lims : ℕ → Option TokenBucket

  pub new_token_bucket : ℕ → ℕ → TokenBucket
  new_token_bucket now rps =
      let most = float.of_int rps in
      record {
        tokens = most;
        max_tok = most;
        refill = float.divide most (float.of_int 1000000000);
        last_time = now;
      }

  -- `allow`
  pub allow : ℕ → TokenBucket → Bool × TokenBucket
  allow now tb =
      let elapsed = float.of_int (sub64 now tb.last_time) in
      let refilled = float.add tb.tokens (float.multiply elapsed tb.refill) in
      let tokens = if float.less tb.max_tok refilled then tb.max_tok else refilled in
      let one = float.of_int 1 in
      let seen = record tb { tokens = tokens; last_time = now } in
      if float.less tokens one
      then (false, seen)
      else (true, record seen { tokens = float.subtract tokens one })

  -- `allowUser`: a new user's bucket is made at `made`.
  pub allow_user : ℕ → ℕ → ℕ → Gateway → Bool × Gateway
  unfolding allow new_token_bucket
  allow_user made now user g =
      let tb : TokenBucket = elim (g.rate_lims user) [
        | none ↦ new_token_bucket made g.max_orders_per_second
        | some tb ↦ tb
      ] in
      let (allowed, tb') = allow now tb in
      (allowed, record g { rate_lims = update g.rate_lims user tb' })

  -- The rate limit, where there is one.
  unfoldable pub within_rate : ℕ → ℕ → Order → Gateway → Bool × Gateway
  unfolding allow_user
  within_rate made now o g =
      if slt 0 g.max_orders_per_second then allow_user made now o.user_id g else (true, g)

  -- `PlaceOrder` behind its checks: the id, the time and the submission.
  unfoldable pub dispatch_order : ℕ → Order → Gateway → Option Error × Order × Gateway
  dispatch_order stamped o g =
      let id = add64 g.order_seq 1 in
      let o' = record o {
        order_id = id;
        timestamp = if o.timestamp == 0 then stamped else o.timestamp;
      } in
      let c : Command = record {
        type = cmd_new_order;
        order = some o';
        cancel_id = 0;
        user_id = 0;
        sequence_no = 0;
      } in
      let (s, m1) = get_or_create o'.symbol g.manager in
      let (done, m2) = try_submit_to o'.symbol c s m1 in
      let g' = record g { order_seq = id; manager = m2 } in
      (if done then none else some buffer_full, o', g')

  -- `PlaceOrder`: the error if there is one, the order as the caller then sees it, and the gateway.
  unfoldable pub place_order : ℕ → ℕ → ℕ → Order → Gateway → Option Error × Order × Gateway
  unfolding within_rate dispatch_order
  place_order made now stamped o g = elim (validate_order o) [
    | some e ↦ (some (invalid_order e), o, g)
    | none ↦
        let (allowed, g1) = within_rate made now o g in
        if allowed then dispatch_order stamped o g1 else (some rate_limited, o, g1)
  ]

  -- `CancelOrder`
  pub cancel : ℕ → String → ℕ → Gateway → Option Error × Gateway
  cancel user symbol id g =
      if same_text symbol "" || id == 0
      then (some invalid_cancel, g)
      else let (e, m) =
          submit_to_symbol symbol
            (record {
              type = cmd_cancel_order;
              order = none;
              cancel_id = id;
              user_id = user;
              sequence_no = 0;
            })
            g.manager in
        (Option.map symbol_not_found e, record g { manager = m })
