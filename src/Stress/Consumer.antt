-- ===== src/Stress/Consumer.antt =====
-- cmd/stress/main.go, `runConsumer`: the loop that polls events, counts them and records their latency.
-- The clock and what each poll finds are arguments. The counters are the program's, and no other
-- consumer adds to them here.
pub mod Counts
pub mod Loop
use oktrading.Prelude.{
  ℕ, ◌+◌, Bool, true, false, ◌&&◌, Option, none, some, List, [], ◌∷◌, ltb, ◌==◌, if◌then◌else◌,
}
use oktrading.Int64.{add64, sub64, slt}
use oktrading.Types.{
  event_code, evt_trade, evt_order_filled, evt_order_cancelled, evt_order_rejected,
  evt_order_accepted,
}
use oktrading.Offheap.{RawEvent}
use oktrading.Histogram.{LatencyHistogram, record_sample}

pub record Totals : Type 0 where
  pub events : ℕ
  pub trades : ℕ
  pub fills : ℕ
  pub cancels : ℕ
  pub rejects : ℕ
  pub hist : LatencyHistogram

-- A round of the loop: the clock at its head, what the poll finds, and the clock behind the poll.
pub record Round : Type 0 where
  pub head : ℕ
  pub polled : Option RawEvent
  pub now : ℕ

-- `hist.Record(now - evt.Timestamp)`, if the event carries a time.
unfoldable pub record_latency : ℕ → RawEvent → Totals → Totals
record_latency now evt s =
    if slt 0 evt.timestamp
    then record s { hist = record_sample (sub64 now evt.timestamp) s.hist }
    else s

-- The `switch` on the kind of the event.
unfoldable pub count_kind : ℕ → RawEvent → Totals → Totals
unfolding record_latency
count_kind now evt s =
    if evt.evt_type == event_code evt_trade
    then record_latency now evt (record s { trades = add64 s.trades 1 })
    else if evt.evt_type == event_code evt_order_filled
    then record s { fills = add64 s.fills 1 }
    else if evt.evt_type == event_code evt_order_cancelled
    then record s { cancels = add64 s.cancels 1 }
    else if evt.evt_type == event_code evt_order_rejected
    then record s { rejects = add64 s.rejects 1 }
    else if evt.evt_type == event_code evt_order_accepted
    then record_latency now evt s
    else s

unfoldable pub count_event : ℕ → RawEvent → Totals → Totals
unfolding count_kind
count_event now evt s = count_kind now evt (record s { events = add64 s.events 1 })

abbrev pub is_nothing : Option RawEvent → Bool
is_nothing none = true
is_nothing (some evt) = false

-- What a round counts.
unfoldable pub count_polled : Round → Totals → Totals
unfolding count_event
count_polled r s = elim r.polled [ none ↦ s | some evt ↦ count_event r.now evt s ]

-- The loop, which goes on for half a second after the deadline while it finds events.
unfoldable pub run_consumer : ℕ → List Round → Totals → Totals
unfolding count_polled
run_consumer deadline [] s = s
run_consumer deadline (r ∷ rs) s =
    let next = run_consumer deadline rs (count_polled r s) in
    if ltb r.head (deadline + 500_000_000)
    then if is_nothing r.polled && ltb deadline r.now then s else next
    else s
