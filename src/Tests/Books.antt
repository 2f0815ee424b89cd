-- ===== src/Tests/Books.antt =====
-- A book with two asks at 100, one at 105 and a bid at 90, built by `AddOrder`.
use oktrading.Prelude.{ℕ, ◌≡◌, refl, [], ◌∷◌, arith, map}
use oktrading.Prelude.Maps.{update}
use oktrading.Int64.{add64, bias}
use oktrading.Types.{Order, Side, buy, sell, OrderType, limit, status_new}
use oktrading.OrderBook.Book.{bid, ask, OrderBook, new, insert_price}
use oktrading.OrderBook.Search.{search}
use oktrading.OrderBook.Invariant.{IsBook, new-IsBook, book_queue}
use oktrading.OrderBook.Match.Spec.{total}
use oktrading.OrderBook.Rest.{add_order}
use oktrading.OrderBook.Rest.Add.{IsRestable, add_order-Adds}

abbrev pub order : ℕ → Side → OrderType → ℕ → ℕ → Order
order id side type price qty = record {
  order_id = id;
  client_oid = "";
  symbol = "BTC-USDT";
  user_id = 7;
  side = side;
  type = type;
  price = price;
  quantity = qty;
  remaining = qty;
  status = status_new;
  sequence_no = 0;
  timestamp = 1;
}

abbrev pub first_ask : Order
first_ask = order 1 sell limit 100 5

abbrev pub second_ask : Order
second_ask = order 2 sell limit 100 3

abbrev pub far_ask : Order
far_ask = order 3 sell limit 105 4

abbrev pub only_bid : Order
only_bid = order 4 buy limit 90 2

abbrev pub no_orders : OrderBook
no_orders = new "BTC-USDT"

abbrev pub one_ask : OrderBook
one_ask = (add_order first_ask no_orders).1

abbrev pub two_asks : OrderBook
two_asks = (add_order second_ask one_ask).1

abbrev pub three_asks : OrderBook
three_asks = (add_order far_ask two_asks).1

abbrev pub sample : OrderBook
sample = (add_order only_bid three_asks).1

pub first_ask-IsRestable : IsRestable ask first_ask no_orders
unfolding new total
first_ask-IsRestable = record {
  its_side = refl;
  price = omega arith;
  qty = omega arith;
  fresh = refl;
  room = omega arith;
  apart = tt;
}

pub one_ask-IsBook : IsBook one_ask
one_ask-IsBook =
    (add_order-Adds ask first_ask no_orders (new-IsBook "BTC-USDT") first_ask-IsRestable).valid

pub second_ask-IsRestable : IsRestable ask second_ask one_ask
unfolding new total add_order insert_price search add64 bias update
second_ask-IsRestable = record {
  its_side = refl;
  price = omega arith;
  qty = omega arith;
  fresh = refl;
  room = omega arith;
  apart = tt;
}

pub two_asks-IsBook : IsBook two_asks
two_asks-IsBook = (add_order-Adds ask second_ask one_ask one_ask-IsBook second_ask-IsRestable).valid

pub far_ask-IsRestable : IsRestable ask far_ask two_asks
unfolding new total add_order insert_price search add64 bias update
far_ask-IsRestable = record {
  its_side = refl;
  price = omega arith;
  qty = omega arith;
  fresh = refl;
  room = omega arith;
  apart = tt;
}

pub three_asks-IsBook : IsBook three_asks
three_asks-IsBook = (add_order-Adds ask far_ask two_asks two_asks-IsBook far_ask-IsRestable).valid

pub only_bid-IsRestable : IsRestable bid only_bid three_asks
unfolding new total add_order insert_price search add64 bias update
only_bid-IsRestable = record {
  its_side = refl;
  price = omega arith;
  qty = omega arith;
  fresh = refl;
  room = omega arith;
  apart = omega arith;
}

pub sample-IsBook : IsBook sample
sample-IsBook = (add_order-Adds bid only_bid three_asks three_asks-IsBook only_bid-IsRestable).valid

sample_asks : map (λ o. o.order_id) (book_queue ask sample) ≡ 1 ∷ 2 ∷ 3 ∷ []
unfolding new add_order insert_price search add64 bias update
sample_asks = refl
