-- ===== src/Stress/Load.antt =====
-- cmd/stress/main.go: the engine under the whole load, the takers among it.
use oktrading.Prelude.{
  ℕ, suc, ◌+◌, ◌*◌, ◌^◌, ◌<◌, ◌≡◌, ◌⊎◌, inl, inr, refl, sym, subst, false, List, ◌++◌, map, String,
  none, some, arith, All, All-imp, All-zip, Distinct, contains, length, Bool-cases, ◌==◌,
}
use oktrading.Int64.{add64}
use oktrading.Types.{Order, buy, sell, market, ioc}
use oktrading.OrderBook.Book.{Half, bid, ask}
use oktrading.Engine.{Engine, run}
use oktrading.Engine
use oktrading.Engine.Quotes.{IsCalm}
use oktrading.Engine.Quotes.Take.{IsTaking}
use oktrading.Engine.Quotes.Mixed.{IsEither, run_mixed}
use oktrading.Engine.Quotes.Session.{order_ids, commands, RestsAll}
use oktrading.Stress.{mid, lot_size, lot, above_mid, below_mid, warmup_orders, taker_round}
use oktrading.Stress.Warmup.{
  IsOfMaker, made-IsPlaced, IsPlaced-IsQuote, one_lot, wanted_lots, none_known, nothing_rests,
  warmup_rests,
}

-- An order of a taker, in a round that draws any kind, reach and side.
abbrev pub IsOfTaker : String → Order → Type 0
IsOfTaker symbol o =
    (order_id : ℕ) × (kind : ℕ) × (reach : ℕ) × (side : ℕ) × (o
      ≡ (taker_round symbol order_id kind reach side).0)

abbrev IsLot : Order → Type 0
IsLot o = ((h : Half) × IsTaking h o) × (o.remaining ≡ lot_size)

buys : (id : ℕ) (symbol : String) (price : ℕ) → IsLot (lot id symbol buy ioc price)
buys id symbol price = (
  (
    ask,
    record {
      type = inr refl;
      its_side = refl;
      taker = record { part = omega arith; range = omega arith };
    },
  ),
  refl,
)

sells : (id : ℕ) (symbol : String) (price : ℕ) → IsLot (lot id symbol sell ioc price)
sells id symbol price = (
  (
    bid,
    record {
      type = inr refl;
      its_side = refl;
      taker = record { part = omega arith; range = omega arith };
    },
  ),
  refl,
)

market_buys : (id : ℕ) (symbol : String) → IsLot (lot id symbol buy market 0)
market_buys id symbol = (
  (
    ask,
    record {
      type = inl refl;
      its_side = refl;
      taker = record { part = omega arith; range = omega arith };
    },
  ),
  refl,
)

market_sells : (id : ℕ) (symbol : String) → IsLot (lot id symbol sell market 0)
market_sells id symbol = (
  (
    bid,
    record {
      type = inl refl;
      its_side = refl;
      taker = record { part = omega arith; range = omega arith };
    },
  ),
  refl,
)

taker_round-IsLot :
    (symbol : String) (order_id kind reach side : ℕ)
    → IsLot (taker_round symbol order_id kind reach side).0
unfolding taker_round
taker_round-IsLot symbol order_id kind reach side = elim (Bool-cases (kind == 0)) [
  | inl first ↦ rw (taker_round, first) (market_buys (add64 order_id 1) symbol)
  | inr later ↦ elim (Bool-cases (kind == 1)) [
    | inl second ↦ rw (taker_round, later, second) (market_sells (add64 order_id 1) symbol)
    | inr third ↦ elim (Bool-cases (side == 0)) [
      | inl up ↦
          rw (taker_round, later, third, up)
            (buys (add64 order_id 1) symbol (above_mid (suc reach)))
      | inr down ↦
          rw (taker_round, later, third, down)
            (sells (add64 order_id 1) symbol (below_mid (suc reach)))
    ]
  ]
]

-- An order of the load.
abbrev pub IsOfLoad : String → ℕ → Order → Type 0
IsOfLoad symbol depth o = IsOfMaker symbol depth o ⊎ IsOfTaker symbol o

either :
    (symbol : String) (depth : ℕ)
    → depth < 50_000
    → (o : Order) → IsOfLoad symbol depth o
    → IsEither mid o × (o.remaining ≡ lot_size)
either symbol depth lt o (inl made) =
    let p = made-IsPlaced symbol depth o made in
    let (h, q) = IsPlaced-IsQuote symbol depth lt o p in ((h, inl q), one_lot symbol depth o p)
either symbol depth lt o (inr (order_id, kind, reach, side, e)) =
    let ((h, t), one) = subst IsLot (sym e) (taker_round-IsLot symbol order_id kind reach side) in
    ((h, inr t), one)

still_unknown :
    (qs load : List (ℕ × Order)) (e e' : Engine)
    → ((id : ℕ)
        → contains id (order_ids qs) ≡ false
        → e.book.orders id ≡ none
        → e'.book.orders id ≡ none)
    → All (λ (q : ℕ × Order). contains q.1.order_id (order_ids qs) ≡ false) load
    → All (λ (q : ℕ × Order). e.book.orders q.1.order_id ≡ none) load
    → All (λ (q : ℕ × Order). e'.book.orders q.1.order_id ≡ none) load
still_unknown qs load e e' index out unknown =
    All-zip _ _ _ (λ q a b. index q.1.order_id a b) load out unknown

-- With fewer than 50 000 levels, different ids, and not so many orders that their quantities overflow: a
-- new engine that is sent the orders of the warm-up and then any orders of any makers accepts every one
-- of them, in that order, each with one event, and none of them trades; and it processes whatever orders
-- of makers and takers come then, in whatever order and whatever the clock reads, to the end without a
-- panic, and its book is valid afterwards, with all bids below the mid price and all asks above it.
pub load_runs :
    (symbol : String) (next_id : ℕ → ℕ) (depth : ℕ) (made : List Order) (qs load : List (ℕ × Order))
    → depth < 50_000
    → map (λ (q : ℕ × Order). q.1) qs ≡ warmup_orders symbol next_id depth ++ made
    → All (IsOfMaker symbol depth) made
    → All (λ (q : ℕ × Order). IsOfLoad symbol depth q.1) load
    → Distinct (order_ids qs)
    → Distinct (order_ids load)
    → All (λ (q : ℕ × Order). contains q.1.order_id (order_ids qs) ≡ false) load
    → (length qs + length load) * lot_size < 2 ^ 63
    → (e1 : Engine) × (e2 : Engine) × (run (commands qs) (Engine.new symbol) ≡ some e1)
      × RestsAll mid qs (Engine.new symbol) e1
      × (run (commands load) e1 ≡ some e2)
      × IsCalm mid e2.book
load_runs symbol next_id depth made qs load lt these makers loads apart distinct others few =
    let (e1, eq1, r, first) =
      warmup_rests symbol next_id depth made qs lt these makers apart (omega (arith, few)) in
    let both = All-imp _ _ (λ q p. either symbol depth lt q.1 p) load loads in
    let (e2, eq2, calm) =
      run_mixed mid load e1 r.calm (All-imp _ _ (λ q b. b.0) load both) distinct
        (still_unknown qs load (Engine.new symbol) e1 r.index others (none_known symbol load))
        (λ h. omega (
          arith,
          few,
          r.grown h,
          nothing_rests symbol h,
          first,
          wanted_lots load (All-imp _ _ (λ q b. b.1) load both),
        )) in
    (e1, e2, eq1, r, eq2, calm)
