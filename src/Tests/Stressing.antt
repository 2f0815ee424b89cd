-- ===== src/Tests/Stressing.antt =====
-- The theorems on the load generator: a warm-up of two levels and a maker's round with two takers
-- behind it, and a consumer that
-- reads an acceptance and a trade.
use oktrading.Prelude.{String, suc, ℕ, ◌≡◌, refl, inl, inr, none, some, List, [], ◌∷◌, arith}
use oktrading.Int64.{add64, sub64}
use oktrading.Offheap.{RawEvent, zero_slot}
use oktrading.Types.{Order}
use oktrading.Engine.{Engine, run}
use oktrading.Engine
use oktrading.Engine.Quotes.Session.{commands, RestsAll}
use oktrading.Stress.{
  mid, above_mid, below_mid, placed, warmup_orders, maker_start, maker_round, taker_start,
  taker_round,
}
use oktrading.Stress.Warmup.{IsOfMaker}
use oktrading.Stress.Load.{load_runs}
use oktrading.Engine.Quotes.{IsCalm}
use oktrading.Stress.Consumer.{Totals, Round, run_consumer}
use oktrading.Stress.Consumer.Counts.{IsTotals}
use oktrading.Stress.Consumer.Loop.{CountsUpTo, run_consumer-Counts}
use oktrading.Tests.Latency.{nothing, nothing-IsHistogram}

abbrev symbol : String
symbol = "SYM0000-USDT"

abbrev round : Order × Order × ℕ
round = maker_round symbol (maker_start 0) 2

-- The orders, handled at 5, 6, and so on.
abbrev handled : List (ℕ × Order)
unfolding warmup_orders placed
handled = elim (warmup_orders symbol (λ n. suc n) 2) [
  | a ∷ b ∷ c ∷ d ∷ [] ↦ (5, a) ∷ (6, b) ∷ (7, c) ∷ (8, d) ∷ (9, round.0) ∷ (10, round.1) ∷ []
  | _ ↦ []
]

-- A market buy, and an order that sells at up to two ticks below the mid price.
abbrev load : List (ℕ × Order)
load =
    (11, (taker_round symbol (taker_start 0) 0 0 0).0)
    ∷ (12, (taker_round symbol (taker_start 1) 2 1 1).0)
    ∷ []

abbrev of_maker : IsOfMaker symbol 2 round.0 × IsOfMaker symbol 2 round.1
of_maker = (
  (maker_start 0, 2, omega arith, omega arith, inl refl),
  (maker_start 0, 2, omega arith, omega arith, inr refl),
)

load_runs_example :
    (e1 : Engine) × (e2 : Engine) × (run (commands handled) (Engine.new symbol) ≡ some e1)
    × RestsAll mid handled (Engine.new symbol) e1
    × (run (commands load) e1 ≡ some e2)
    × IsCalm mid e2.book
unfolding warmup_orders placed maker_round maker_start taker_round taker_start above_mid below_mid
    add64 sub64
load_runs_example =
    load_runs symbol (λ n. suc n) 2 (round.0 ∷ round.1 ∷ []) handled load (omega arith) refl
      (of_maker.0, (of_maker.1, tt))
      (inr (taker_start 0, 0, 0, 0, refl), (inr (taker_start 1, 2, 1, 1, refl), tt))
      (refl, (refl, (refl, (refl, (refl, (refl, tt)))))) (refl, (refl, tt)) (refl, (refl, tt))
      (omega arith)

abbrev idle : Totals
idle = record { events = 0; trades = 0; fills = 0; cancels = 0; rejects = 0; hist = nothing }

abbrev acceptance : RawEvent
acceptance = record zero_slot { evt_type = 1; timestamp = 100 }

abbrev trade : RawEvent
trade = record zero_slot { evt_type = 5; timestamp = 200 }

-- The deadline is at 1000.
abbrev rounds : List Round
rounds =
    record { head = 300; polled = some acceptance; now = 310 }
    ∷ record { head = 320; polled = none; now = 330 }
    ∷ record { head = 1_400; polled = some trade; now = 1_410 }
    ∷ record { head = 1_500; polled = none; now = 1_510 }
    ∷ record { head = 1_600; polled = none; now = 1_610 }
    ∷ []

idle-IsTotals : IsTotals 5 idle
idle-IsTotals = record {
  events = omega arith;
  trades = omega arith;
  fills = omega arith;
  cancels = omega arith;
  rejects = omega arith;
  hist = nothing-IsHistogram;
  free = omega arith;
}

run_consumer-Counts_example : CountsUpTo 1_000 rounds idle (run_consumer 1_000 rounds idle)
run_consumer-Counts_example = run_consumer-Counts 1_000 rounds idle idle-IsTotals
