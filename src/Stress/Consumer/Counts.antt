-- ===== src/Stress/Consumer/Counts.antt =====
-- cmd/stress/main.go, `runConsumer`: the counters against the events that were polled.
use oktrading.Prelude.{
  ℕ, suc, ◌+◌, ◌%◌, ◌<◌, ◌^◌, ◌≡◌, Bool, ◌&&◌, ◌||◌, none, some, List, [], ◌∷◌, arith, length, ◌==◌,
  if◌then◌else◌,
}
use oktrading.Int64.{IsNonneg, add64, sub64, slt}
use oktrading.Types.{
  EventType, event_code, evt_trade, evt_order_filled, evt_order_cancelled, evt_order_rejected,
  evt_order_accepted,
}
use oktrading.Offheap.{RawEvent}
use oktrading.Histogram.Percentile.{IsHistogram, record_sample-IsHistogram}
use oktrading.Stress.Consumer.{Totals, Round, record_latency, count_kind, count_event}

-- How many of the events are of the kind.
unfoldable pub number : EventType → List RawEvent → ℕ
number kind [] = 0
number kind (v ∷ vs) =
    if v.evt_type == event_code kind then suc (number kind vs) else number kind vs

-- How many of them are trades or acceptances that carry a time.
is_timed : RawEvent → Bool
is_timed v =
    (v.evt_type == event_code evt_trade || v.evt_type == event_code evt_order_accepted)
    && slt 0 v.timestamp

unfoldable pub timed : List RawEvent → ℕ
unfolding is_timed
timed [] = 0
timed (v ∷ vs) = if is_timed v then suc (timed vs) else timed vs

-- What the rounds polled.
unfoldable pub polled_events : List Round → List RawEvent
polled_events [] = []
polled_events (r ∷ rs) = elim r.polled [ none ↦ polled_events rs | some v ↦ v ∷ polled_events rs ]

-- From the one state to the other these events were counted.
pub record Counts (s : Totals) (vs : List RawEvent) (s' : Totals) : Type 0 where
  pub events : s'.events ≡ (s.events + length vs) % 2 ^ 64
  pub trades : s'.trades ≡ (s.trades + number evt_trade vs) % 2 ^ 64
  pub fills : s'.fills ≡ (s.fills + number evt_order_filled vs) % 2 ^ 64
  pub cancels : s'.cancels ≡ (s.cancels + number evt_order_cancelled vs) % 2 ^ 64
  pub rejects : s'.rejects ≡ (s.rejects + number evt_order_rejected vs) % 2 ^ 64
  pub samples : s'.hist.count ≡ s.hist.count + timed vs
  pub hist : IsHistogram s'.hist

-- The counters are words, and the histogram has room for so many samples.
pub record IsTotals (room : ℕ) (s : Totals) : Type 0 where
  pub events : s.events < 2 ^ 64
  pub trades : s.trades < 2 ^ 64
  pub fills : s.fills < 2 ^ 64
  pub cancels : s.cancels < 2 ^ 64
  pub rejects : s.rejects < 2 ^ 64
  pub hist : IsHistogram s.hist
  pub free : IsNonneg (s.hist.count + room)

word : (a b : ℕ) → sub64 a b < 2 ^ 64
unfolding sub64
word a b = omega arith

less : {n : ℕ} {s : Totals} → IsTotals (suc n) s → IsNonneg (suc s.hist.count)
less t = omega (arith, t.free)

pub event_counts :
    (n now : ℕ) (v : RawEvent) (s : Totals)
    → IsTotals (suc n) s
    → Counts s (v ∷ []) (count_event now v s)
unfolding count_event count_kind record_latency number timed is_timed add64
event_counts n now v s t =
    let (valid, more) =
      record_sample-IsHistogram (sub64 now v.timestamp) s.hist (word now v.timestamp) t.hist
        (less t) in
    record {
      events = ground arith;
      trades = ground (arith, t.trades);
      fills = ground (arith, t.fills);
      cancels = ground (arith, t.cancels);
      rejects = ground (arith, t.rejects);
      samples = ground (arith, more);
      hist = ground (arith, valid, t.hist);
    }

pub none_counted : {n : ℕ} {s : Totals} → IsTotals n s → Counts s [] s
unfolding number timed
none_counted t = record {
  events = omega (arith, t.events);
  trades = omega (arith, t.trades);
  fills = omega (arith, t.fills);
  cancels = omega (arith, t.cancels);
  rejects = omega (arith, t.rejects);
  samples = omega arith;
  hist = t.hist;
}

pub still-IsTotals :
    {n : ℕ} {s s1 : Totals} {v : RawEvent}
    → IsTotals (suc n) s
    → Counts s (v ∷ []) s1
    → IsTotals n s1
unfolding timed
still-IsTotals t c = record {
  events = omega (arith, c.events);
  trades = omega (arith, c.trades);
  fills = omega (arith, c.fills);
  cancels = omega (arith, c.cancels);
  rejects = omega (arith, c.rejects);
  hist = c.hist;
  free = ground (arith, t.free, c.samples);
}

pub fewer-IsTotals : {n : ℕ} {s : Totals} → IsTotals (suc n) s → IsTotals n s
fewer-IsTotals t = record {
  events = t.events;
  trades = t.trades;
  fills = t.fills;
  cancels = t.cancels;
  rejects = t.rejects;
  hist = t.hist;
  free = omega (arith, t.free);
}

pub Counts_cons :
    {s s1 s2 : Totals} (v : RawEvent) (vs : List RawEvent)
    → Counts s (v ∷ []) s1
    → Counts s1 vs s2
    → Counts s (v ∷ vs) s2
unfolding number timed
Counts_cons v vs c d = record {
  events = ground (arith, c.events, d.events);
  trades = ground (arith, c.trades, d.trades);
  fills = ground (arith, c.fills, d.fills);
  cancels = ground (arith, c.cancels, d.cancels);
  rejects = ground (arith, c.rejects, d.rejects);
  samples = ground (arith, c.samples, d.samples);
  hist = d.hist;
}
