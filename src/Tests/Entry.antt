-- ===== src/Tests/Entry.antt =====
-- The theorems on the gateway, applied to an order for a symbol that has no engine yet and to a
-- cancellation. The rate limit
-- is off, so that any arithmetic serves for the buckets.
use oktrading.Prelude.{ℕ, ◌+◌, ◌*◌, ◌-◌, ◌/◌, ltb, refl}
use oktrading.Prelude.Maps.{empty}
use oktrading.Types.{Order, buy, limit}
use oktrading.Int64.{bias, sub64}
use oktrading.Bits.{digits}
use oktrading.Mpsc
use oktrading.Shard.{new_manager, get_or_create, new_shard, default_inbound_size, try_submit_to}
use oktrading.Gateway.{
  Float64, Gateway, cancel, place_order, validate_order, validate_price, is_side, within_rate,
  dispatch_order,
}
use oktrading.Gateway.Cancel.{Outcome, cancel-Outcome}
use oktrading.Gateway.Place.{Placed, place_order-Placed}
use oktrading.Tests.Books.{order}

abbrev whole_numbers : Float64 ℕ
whole_numbers = record {
  of_int = λ n. n;
  add = λ a b. a + b;
  subtract = λ a b. a - b;
  multiply = λ a b. a * b;
  divide = λ a b. a / b;
  less = λ a b. ltb a b;
}

abbrev gateway : Gateway whole_numbers
gateway = record {
  max_orders_per_second = 0;
  manager = new_manager 64;
  order_seq = 41;
  rate_lims = empty;
}

abbrev buyer : Order
buyer = order 0 buy limit 101 6

place_order-Placed_example :
    Placed 5 buyer 41 (new_manager 64) (place_order whole_numbers 5 5 5 buyer gateway)
unfolding validate_order validate_price is_side within_rate dispatch_order place_order get_or_create
    new_shard default_inbound_size new_manager Mpsc.new Mpsc.next_pow2 Mpsc.try_submit digits bias
    sub64 try_submit_to
place_order-Placed_example = place_order-Placed whole_numbers 5 5 5 buyer gateway refl

-- The same gateway with an engine for the symbol.
abbrev with_engine : Gateway whole_numbers
with_engine = record gateway { manager = (get_or_create "BTC-USDT" (new_manager 64)).1 }

cancel-Outcome_example :
    Outcome "BTC-USDT" 3 with_engine (cancel whole_numbers 7 "BTC-USDT" 3 with_engine)
cancel-Outcome_example = cancel-Outcome whole_numbers 7 "BTC-USDT" 3 with_engine
