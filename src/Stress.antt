-- ===== src/Stress.antt =====
-- cmd/stress/main.go: the orders of the warm-up, of the makers and of the takers, and the loop of the
-- consumer. The random numbers and the clock are arguments.
pub mod Warmup
pub mod Load
pub mod Consumer
use oktrading.Prelude.{
  ℕ, zero, suc, ◌+◌, ◌*◌, ◌%◌, ◌^◌, List, [], ◌∷◌, ◌++◌, String, ltb, ◌==◌, if◌then◌else◌,
}
use oktrading.Int64.{add64, sub64}
use oktrading.Types.{Order, Side, buy, sell, OrderType, limit, market, ioc, unset, scale_factor}

abbrev pub mid : ℕ
mid = 50_000 * scale_factor

abbrev pub tick : ℕ
tick = 1 * scale_factor

abbrev pub lot_size : ℕ
lot_size = 1 * scale_factor

-- An order of one lot.
abbrev pub lot : ℕ → String → Side → OrderType → ℕ → Order
lot id symbol side type price = record {
  order_id = id;
  client_oid = "";
  symbol = symbol;
  user_id = 0;
  side = side;
  type = type;
  price = price;
  quantity = lot_size;
  remaining = lot_size;
  status = unset;
  sequence_no = 0;
  timestamp = 0;
}

-- `mid + level*tick` and `mid - level*tick`
unfoldable pub above_mid : ℕ → ℕ
above_mid level = add64 mid ((level * tick) % 2 ^ 64)

unfoldable pub below_mid : ℕ → ℕ
below_mid level = sub64 mid ((level * tick) % 2 ^ 64)

-- A loop of the warm-up from `j` on, for so many rounds.
unfoldable pub placed : (ℕ → Order) → ℕ → ℕ → List Order
placed order j zero = []
placed order j (suc n) = order j ∷ placed order (suc j) n

-- The orders of one symbol's warm-up. `next_id n` is what its n-th `orderID.Add(1)` returns: the
-- counter is shared with the other symbols.
unfoldable pub warmup_orders : String → (ℕ → ℕ) → ℕ → List Order
unfolding placed above_mid below_mid
warmup_orders symbol next_id depth =
    placed (λ j. lot (next_id j) symbol sell limit (above_mid (suc j))) 0 depth
    ++ placed (λ j. lot (next_id (depth + j)) symbol buy limit (below_mid (suc j))) 0 depth

-- Where the ids of a maker and of a taker start.
unfoldable pub maker_start : ℕ → ℕ
maker_start maker_id = (1_000_000_000 + maker_id * 100_000_000) % 2 ^ 64

unfoldable pub taker_start : ℕ → ℕ
taker_start taker_id = (2_000_000_000 + taker_id * 100_000_000) % 2 ^ 64

-- A round of `runMaker`, which draws `level - 1`: the ask, the bid, and the counter of its ids.
unfoldable pub maker_round : String → ℕ → ℕ → Order × Order × ℕ
unfolding above_mid below_mid
maker_round symbol order_id level =
    let ask_id = add64 order_id 1 in
    let bid_id = add64 ask_id 1 in
    (
      lot ask_id symbol sell limit (above_mid level),
      lot bid_id symbol buy limit (below_mid level),
      bid_id,
    )

-- A round of `runTaker`, which draws a kind and, for an order with a limit, how far it reaches, less 1,
-- and a side.
unfoldable pub taker_round : String → ℕ → ℕ → ℕ → ℕ → Order × ℕ
unfolding above_mid below_mid
taker_round symbol order_id kind reach side =
    let id = add64 order_id 1 in
    let aggressive =
      if side == 0
      then lot id symbol buy ioc (above_mid (suc reach))
      else lot id symbol sell ioc (below_mid (suc reach)) in
    (
      if kind == 0
          then lot id symbol buy market 0
          else if kind == 1
          then lot id symbol sell market 0
          else aggressive,
      id,
    )
