-- ===== src/Stress/Warmup.antt =====
-- cmd/stress/main.go: the engine on the orders of the warm-up and of the makers.
use oktrading.Prelude.{
  ℕ, zero, suc, ◌+◌, ◌*◌, ◌^◌, ◌≤◌, ◌<◌, ◌≡◌, ◌⊎◌, inl, inr, refl, sym, ap, subst, List, [], ◌∷◌,
  ◌++◌, map, String, none, some, arith, All, All-append, All-imp, Distinct, length,
}
use oktrading.Int64.{add64, sub64}
use oktrading.Types.{Order, buy, sell, limit}
use oktrading.OrderBook.Book.{Half, bid, ask}
use oktrading.OrderBook.Book
use oktrading.OrderBook.Invariant.{book_queue, new-IsBook}
use oktrading.OrderBook.Match.Spec.{total}
use oktrading.Engine.{Engine, run}
use oktrading.Engine
use oktrading.Engine.Quotes.{IsAway, IsQuote, IsCalm}
use oktrading.Engine.Quotes.Session.{order_ids, wanted, commands, RestsAll, run_quotes}
use oktrading.Stress.{mid, lot_size, lot, above_mid, below_mid, placed, warmup_orders, maker_round}

-- An order of one lot on its side of `mid`, at most `depth` ticks away.
unfoldable pub IsPlaced : String → ℕ → Order → Type 0
IsPlaced symbol depth o =
    (id : ℕ) × (level : ℕ) × (0 < level)
    × (level ≤ depth)
    × ((o ≡ lot id symbol sell limit (above_mid level))
        ⊎ (o ≡ lot id symbol buy limit (below_mid level)))

-- An order of a maker, in a round that draws a level of at most `depth`.
abbrev pub IsOfMaker : String → ℕ → Order → Type 0
IsOfMaker symbol depth o =
    (order_id : ℕ) × (level : ℕ) × (0 < level)
    × (level ≤ depth)
    × ((o ≡ (maker_round symbol order_id level).0) ⊎ (o ≡ (maker_round symbol order_id level).1))

placed_asks :
    (symbol : String) (next_id : ℕ → ℕ) (depth j n : ℕ)
    → j + n ≤ depth
    → All
        (IsPlaced symbol depth)
        (placed (λ j. lot (next_id j) symbol sell limit (above_mid (suc j))) j n)
unfolding placed IsPlaced
placed_asks symbol next_id depth j zero le = tt
placed_asks symbol next_id depth j (suc n) le = (
  (next_id j, suc j, omega arith, omega (arith, le), inl refl),
  placed_asks symbol next_id depth (suc j) n (omega (arith, le)),
)

placed_bids :
    (symbol : String) (next_id : ℕ → ℕ) (depth j n : ℕ)
    → j + n ≤ depth
    → All
        (IsPlaced symbol depth)
        (placed (λ j. lot (next_id (depth + j)) symbol buy limit (below_mid (suc j))) j n)
unfolding placed IsPlaced
placed_bids symbol next_id depth j zero le = tt
placed_bids symbol next_id depth j (suc n) le = (
  (next_id (depth + j), suc j, omega arith, omega (arith, le), inr refl),
  placed_bids symbol next_id depth (suc j) n (omega (arith, le)),
)

pub made-IsPlaced :
    (symbol : String) (depth : ℕ) (o : Order) → IsOfMaker symbol depth o → IsPlaced symbol depth o
unfolding IsPlaced maker_round
made-IsPlaced symbol depth o (order_id, level, pos, le, inl e) =
    (add64 order_id 1, level, pos, le, inl e)
made-IsPlaced symbol depth o (order_id, level, pos, le, inr e) =
    (add64 (add64 order_id 1) 1, level, pos, le, inr e)

ask-IsQuote :
    (id : ℕ) (symbol : String) (level : ℕ)
    → 0 < level
    → level < 50_000
    → IsQuote mid bid (lot id symbol sell limit (above_mid level))
unfolding above_mid add64
ask-IsQuote id symbol level pos lt = record {
  type = refl;
  its_side = refl;
  away = ((omega arith, omega arith), omega arith);
  qty = omega arith;
  part = omega arith;
  range = omega arith;
}

bid-IsQuote :
    (id : ℕ) (symbol : String) (level : ℕ)
    → 0 < level
    → level < 50_000
    → IsQuote mid ask (lot id symbol buy limit (below_mid level))
unfolding below_mid sub64
bid-IsQuote id symbol level pos lt = record {
  type = refl;
  its_side = refl;
  away = ((omega arith, omega arith), omega arith);
  qty = omega arith;
  part = omega arith;
  range = omega arith;
}

pub IsPlaced-IsQuote :
    (symbol : String) (depth : ℕ)
    → depth < 50_000
    → (o : Order) → IsPlaced symbol depth o
    → (h : Half) × IsQuote mid h o
unfolding IsPlaced
IsPlaced-IsQuote symbol depth lt o (id, level, pos, le, inl e) =
    (bid, subst (IsQuote mid bid) (sym e) (ask-IsQuote id symbol level pos (omega (arith, lt, le))))
IsPlaced-IsQuote symbol depth lt o (id, level, pos, le, inr e) =
    (ask, subst (IsQuote mid ask) (sym e) (bid-IsQuote id symbol level pos (omega (arith, lt, le))))

pub one_lot :
    (symbol : String) (depth : ℕ) (o : Order) → IsPlaced symbol depth o → o.remaining ≡ lot_size
unfolding IsPlaced
one_lot symbol depth o (id, level, pos, le, inl e) = ap (λ (x : Order). x.remaining) e
one_lot symbol depth o (id, level, pos, le, inr e) = ap (λ (x : Order). x.remaining) e

-- A property of the orders, seen on the orders with their times.
All-timed :
    (P : Order → Type 0) (qs : List (ℕ × Order))
    → All P (map (λ (q : ℕ × Order). q.1) qs)
    → All (λ (q : ℕ × Order). P q.1) qs
All-timed P [] v = tt
All-timed P (q ∷ qs) v = (v.0, All-timed P qs v.1)

pub wanted_lots :
    (qs : List (ℕ × Order))
    → All (λ (q : ℕ × Order). q.1.remaining ≡ lot_size) qs
    → wanted qs ≡ length qs * lot_size
unfolding wanted
wanted_lots [] v = omega arith
wanted_lots (q ∷ qs) v = omega (arith, v.0, wanted_lots qs v.1)

pub none_known :
    (symbol : String) (qs : List (ℕ × Order))
    → All (λ (q : ℕ × Order). (Engine.new symbol).book.orders q.1.order_id ≡ none) qs
unfolding Engine.new Book.new
none_known symbol [] = tt
none_known symbol (q ∷ qs) = (refl, none_known symbol qs)

pub new-IsCalm : (symbol : String) → IsCalm mid (Engine.new symbol).book
unfolding Engine.new Book.new
new-IsCalm symbol = record {
  book = new-IsBook symbol;
  away = λ h.
      elim h as (λ k. All (λ (x : Order). IsAway mid k x.price) (book_queue k (Book.new symbol))) [
        | bid ↦ tt
        | ask ↦ tt
      ];
}

pub nothing_rests : (symbol : String) (h : Half) → total (book_queue h (Engine.new symbol).book) ≡ 0
unfolding Engine.new Book.new total
nothing_rests symbol bid = refl
nothing_rests symbol ask = refl

-- The warm-up, and what makers send behind it; the quantities are those of the lots.
pub warmup_rests :
    (symbol : String) (next_id : ℕ → ℕ) (depth : ℕ) (made : List Order) (qs : List (ℕ × Order))
    → depth < 50_000
    → map (λ (q : ℕ × Order). q.1) qs ≡ warmup_orders symbol next_id depth ++ made
    → All (IsOfMaker symbol depth) made
    → Distinct (order_ids qs)
    → length qs * lot_size < 2 ^ 63
    → (e' : Engine) × (run (commands qs) (Engine.new symbol) ≡ some e')
      × RestsAll mid qs (Engine.new symbol) e'
      × (wanted qs ≡ length qs * lot_size)
unfolding warmup_orders
warmup_rests symbol next_id depth made qs lt these makers apart few =
    let placed_all : All (λ (q : ℕ × Order). IsPlaced symbol depth q.1) qs =
      All-timed (IsPlaced symbol depth) qs (
        rw these (
          All-append (IsPlaced symbol depth) (warmup_orders symbol next_id depth) made
            (All-append (IsPlaced symbol depth) _ _
              (placed_asks symbol next_id depth 0 depth (omega arith))
              (placed_bids symbol next_id depth 0 depth (omega arith)))
            (All-imp (IsOfMaker symbol depth) (IsPlaced symbol depth) (made-IsPlaced symbol depth)
              made makers))) in
    let lots = wanted_lots qs (All-imp _ _ (λ q p. one_lot symbol depth q.1 p) qs placed_all) in
    let (e', eq, r) =
      run_quotes mid qs (Engine.new symbol) (new-IsCalm symbol)
        (All-imp _ _ (λ q p. IsPlaced-IsQuote symbol depth lt q.1 p) qs placed_all) apart
        (none_known symbol qs) (λ h. omega (arith, few, nothing_rests symbol h, lots)) in
    (e', eq, r, lots)
