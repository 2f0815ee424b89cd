-- ===== src/Tests/Engines.antt =====
-- The theorems on the engine, applied to an engine with the small book.
use oktrading.Prelude.{
  map, ◌++◌, ℕ, ◌+◌, ◌-◌, ◌%◌, ◌^◌, none, List, [], ◌∷◌, length, ◌≡◌, refl, some, arith, inr,
}
use oktrading.Offheap.{RawEvent}
use oktrading.Engine.Events.{Publishes, TradeIds}
use oktrading.Engine.Gives.Frees.{Frees}
use oktrading.Engine.Gives.Commands.{process-Frees}
use oktrading.Engine.Log.{numbered, process-Publishes}
use oktrading.Engine.Replay.{Entry, on_engine, on_replica, run_replays}
use oktrading.Engine.Numbering.{run_numbers, run_logs}
use oktrading.Engine.Returns.{process-Keeps, run-IsBook}
use oktrading.OrderBook.Rest.{cancel_order}
use oktrading.Types.{Command, cmd_cancel_order, cmd_new_order, Order, buy, limit}
use oktrading.Prelude.Maps.{update}
use oktrading.Int64.{add64, bias}
use oktrading.OrderBook.Search.{search}
use oktrading.OrderBook.Book.{ask, insert_price}
use oktrading.OrderBook.Book
use oktrading.OrderBook.Match.Spec.{total}
use oktrading.OrderBook.Rest.{add_order}
use oktrading.OrderBook.Invariant.{IsBook}
use oktrading.Engine.{stamp, run, process, dispatch, handle_cancel_order, Engine, new_order}
use oktrading.Engine
use oktrading.Engine.Keeps.{IsAdmissible}
use oktrading.Engine.Admit.{new_order-IsBook}
use oktrading.Tests.Books.{order, sample, sample-IsBook}

-- A buyer of ten at 101 takes the two asks at 100, and two of it rest.
abbrev pub buyer : Order
buyer = order 9 buy limit 101 10

abbrev pub engine : Engine
engine = record (Engine.new "BTC-USDT") { book = sample }

buyer-IsAdmissible : IsAdmissible ask buyer sample
unfolding Book.new total add_order insert_price search add64 bias update
buyer-IsAdmissible = record {
  taker = omega arith;
  qty = omega arith;
  its_side = refl;
  price = inr (omega arith);
  fresh = refl;
  room = omega arith;
}

new_order-IsBook_example : (e' : Engine) × (new_order limit buyer engine ≡ some e') × IsBook e'.book
new_order-IsBook_example = new_order-IsBook ask buyer engine sample-IsBook buyer-IsAdmissible

-- Two requests to cancel orders that a new engine does not know.
abbrev pub cancel_unknown : ℕ → Command
cancel_unknown id = record {
  type = cmd_cancel_order;
  order = none;
  cancel_id = id;
  user_id = 7;
  sequence_no = 0;
}

abbrev requests : List (ℕ × Command)
requests = (5, cancel_unknown 98) ∷ (6, cancel_unknown 99) ∷ []

abbrev idle : Engine
idle = record (Engine.new "BTC-USDT") { local_seq = 2 ^ 64 - 1 }

requests_processed : (e' : Engine) × (run requests idle ≡ some e')
unfolding run process dispatch handle_cancel_order cancel_order Engine.new Book.new
requests_processed = (_, refl)

-- The sequence number wraps.
run_numbers_example : requests_processed.0.local_seq ≡ (2 ^ 64 - 1 + length requests) % 2 ^ 64
run_numbers_example =
    run_numbers requests idle requests_processed.0 (omega arith) requests_processed.1

abbrev pub new_order_of : Order → Command
new_order_of o = record {
  type = cmd_new_order;
  order = some o;
  cancel_id = 0;
  user_id = 7;
  sequence_no = 0;
}

-- A new order, and then a request to cancel a resting one.
abbrev session : List (ℕ × Command)
session = (5, new_order_of buyer) ∷ (6, cancel_unknown 3) ∷ []

pub stamped-IsAdmissible : IsAdmissible ask (stamp 5 (add64 0 1) buyer) sample
stamped-IsAdmissible = record {
  taker = record { part = buyer-IsAdmissible.taker.part; range = buyer-IsAdmissible.taker.range };
  qty = buyer-IsAdmissible.qty;
  its_side = buyer-IsAdmissible.its_side;
  price = buyer-IsAdmissible.price;
  fresh = buyer-IsAdmissible.fresh;
  room = buyer-IsAdmissible.room;
}

run-IsBook_example : (e' : Engine) × (run session engine ≡ some e') × IsBook e'.book
unfolding Engine.new
run-IsBook_example =
    run-IsBook session engine sample-IsBook
      ((buyer, refl, (ask, stamped-IsAdmissible)), λ e' eq. (tt, λ e'' eq'. tt))

-- The first command of the session, processed.
session_started : (e' : Engine) × (process 5 (new_order_of buyer) engine ≡ some e') × IsBook e'.book
unfolding Engine.new
session_started =
    process-Keeps 5 (new_order_of buyer) engine sample-IsBook
      (buyer, refl, (ask, stamped-IsAdmissible))

process-Publishes_example : Publishes (numbered engine) session_started.0
process-Publishes_example =
    process-Publishes 5 (new_order_of buyer) engine session_started.0 session_started.1

run_logs_example :
    (events : List RawEvent) × (run-IsBook_example.0.outbound ≡ [] ++ events)
    × TradeIds 0 events run-IsBook_example.0.trade_seq
unfolding Engine.new
run_logs_example = run_logs session engine run-IsBook_example.0 run-IsBook_example.1

abbrev entries : List Entry
entries = (5, 8, new_order_of buyer) ∷ (6, 9, cancel_unknown 3) ∷ []

run_replays_example : run (map on_engine entries) engine ≡ run (map on_replica entries) engine
run_replays_example = run_replays entries engine ((λ e. cc), (tt, tt))

process-Frees_example : Frees engine session_started.0
unfolding Engine.new
process-Frees_example =
    process-Frees 5 (new_order_of buyer) engine session_started.0 sample-IsBook
      (buyer, refl, (ask, stamped-IsAdmissible)) session_started.1
