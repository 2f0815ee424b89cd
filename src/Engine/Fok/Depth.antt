-- ===== src/Engine/Fok/Depth.antt =====
-- pkg/engine/engine.go, `canFillCompletely`, and the quantity that it counts.
use oktrading.Prelude.{
  ℕ, zero, suc, ◌+◌, ◌-◌, ◌≤◌, ◌≡◌, refl, ap, Bool, true, false, Option, some, List, [], ◌∷◌, arith,
  leb, ◌∙◌, length, take, All, String,
}
use oktrading.Int64.{sub64_lem, sle_nonneg, IsNonneg}
use oktrading.Types.{Order, PriceLevel}
use oktrading.OrderBook.Book.{Half, bid, ask, PriceNode, OrderBook, ladder}
use oktrading.OrderBook.Valid.{IsLevel, queue, level}
use oktrading.OrderBook.Invariant.{IsBook}
use oktrading.OrderBook.Match.{is_limit}
use oktrading.OrderBook.Match.Spec.{total, take_queue}
use oktrading.OrderBook.Match.Queue.{total-append}
use oktrading.OrderBook.Match.Refine.{IsTaker, taker_side}
use oktrading.OrderBook.Rest.{levels, snapshot}
use oktrading.Engine.{fills, can_fill_side, can_fill_completely, fok_depth}

-- The quantity on display.
pub shown : List PriceLevel → ℕ
shown [] = 0
shown (l ∷ ls) = l.quantity + shown ls

abbrev IsShown : PriceLevel → Type 0
IsShown l = IsNonneg l.quantity

-- Without a price limit the scan compares the quantity on display with what is wanted.
fills-leb :
    (h : Half) (o : Order) (want : ℕ) (ls : List PriceLevel)
    → is_limit o.type ≡ false
    → IsNonneg want
    → All IsShown ls
    → fills h o want ls ≡ leb want (shown ls)
unfolding fills shown
fills-leb h o want [] e r v = ground arith
fills-leb h o want (l ∷ ls) e r v = ground (
  arith,
  e,
  sle_nonneg want l.quantity r v.0,
  sub64_lem want l.quantity,
  fills-leb h o (want - l.quantity) ls e,
  v.1,
)

-- A snapshot of a valid side shows the quantity of its first levels.
record Shows (depth : ℕ) (ps : List ℕ) (nodes : ℕ → Option PriceNode) (ls : List PriceLevel)
    : Type 0 where
  sum : shown ls ≡ total (queue (take depth ps) nodes)
  range : All IsShown ls

levels-Shows :
    (depth : ℕ) (ps : List ℕ) (nodes : ℕ → Option PriceNode)
    → All (IsLevel nodes) ps
    → (ls : List PriceLevel) × (levels depth ps nodes ≡ some ls) × Shows depth ps nodes ls
unfolding levels shown total
levels-Shows zero ps nodes v = ([], refl, record { sum = refl; range = tt })
levels-Shows (suc d) [] nodes v = ([], refl, record { sum = refl; range = tt })
levels-Shows (suc d) (p ∷ ps) nodes v =
    let (n, at, vn, ne, ok) = v.0 in
    let (ls, e, s) = levels-Shows d ps nodes v.1 in
    (
      record { price = p; quantity = n.quantity; count = length n.orders } ∷ ls,
      rw (levels, at, e) refl,
      record {
        sum =
            rw (at, total-append n.orders (queue (take d ps) nodes))
              (omega (arith, s.sum, vn.cached));
        range = (rw (vn.cached) vn.bounded, s.range);
      },
    )

pub total-take-le :
    (depth : ℕ) (ps : List ℕ) (nodes : ℕ → Option PriceNode)
    → total (queue (take depth ps) nodes) ≤ total (queue ps nodes)
unfolding total
total-take-le zero ps nodes = omega arith
total-take-le (suc d) [] nodes = omega arith
total-take-le (suc d) (p ∷ ps) nodes = omega (
  arith,
  total-take-le d ps nodes,
  total-append (level (nodes p)) (queue (take d ps) nodes),
  total-append (level (nodes p)) (queue ps nodes),
)

-- A taker without a price limit gets all it wants from a queue that holds as much.
pub take_queue_all :
    (symbol : String) (timestamp : ℕ) (accept : ℕ → Bool) (want : ℕ) (os : List Order)
    → ((p : ℕ) → accept p ≡ true)
    → want ≤ total os
    → (take_queue symbol timestamp accept want os).left ≡ 0
unfolding take_queue total
take_queue_all symbol timestamp accept want [] any le = omega arith
take_queue_all symbol timestamp accept want (m ∷ os) any le =
    ground (arith, any m.price, take_queue_all symbol timestamp accept (want - m.remaining) os any)

-- The quantity in the levels that the pre-check looks at.
abbrev pub within_depth : Half → OrderBook → ℕ
within_depth h b = total (queue (take fok_depth (ladder h b).prices) (ladder h b).nodes)

can_fill_of :
    (o : Order) (b : OrderBook) (bids asks : List PriceLevel)
    → levels fok_depth b.bids.prices b.bids.nodes ≡ some bids
    → levels fok_depth b.asks.prices b.asks.nodes ≡ some asks
    → can_fill_completely o b ≡ some (can_fill_side o.side o bids asks)
unfolding can_fill_completely snapshot
can_fill_of o b bids asks eb ea = rw (can_fill_completely, snapshot, eb, ea) refl

-- What a snapshot of a valid book shows of both sides.
both_sides :
    (b : OrderBook)
    → IsBook b
    → (bids : List PriceLevel) × (asks : List PriceLevel) × ((o : Order)
        → can_fill_completely o b ≡ some (can_fill_side o.side o bids asks))
      × Shows fok_depth b.bids.prices b.bids.nodes bids
      × Shows fok_depth b.asks.prices b.asks.nodes asks
both_sides b v =
    let (bids, eb, sb) =
      levels-Shows fok_depth b.bids.prices b.bids.nodes (v.side bid).valid.level_of in
    let (asks, ea, sa) =
      levels-Shows fok_depth b.asks.prices b.asks.nodes (v.side ask).valid.level_of in
    (bids, asks, (λ o. can_fill_of o b bids asks eb ea), sb, sa)

can_fill_half :
    (h : Half) (o : Order) (bids asks : List PriceLevel)
    → o.side ≡ taker_side h
    → can_fill_side o.side o bids asks ≡ fills h o o.remaining (elim h [ bid ↦ bids | ask ↦ asks ])
can_fill_half bid o bids asks e = unfold can_fill_side in ap (λ s. can_fill_side s o bids asks) e
can_fill_half ask o bids asks e = unfold can_fill_side in ap (λ s. can_fill_side s o bids asks) e

fills_half :
    (h : Half) (o : Order) (b : OrderBook) (bids asks : List PriceLevel)
    → Shows fok_depth b.bids.prices b.bids.nodes bids
    → Shows fok_depth b.asks.prices b.asks.nodes asks
    → IsTaker o
    → is_limit o.type ≡ false
    → fills h o o.remaining (elim h [ bid ↦ bids | ask ↦ asks ])
      ≡ leb o.remaining (within_depth h b)
fills_half bid o b bids asks sb sa tk e =
    fills-leb bid o o.remaining bids e (omega (arith, tk.part, tk.range)) sb.range
    ∙ ap (leb o.remaining) sb.sum
fills_half ask o b bids asks sb sa tk e =
    fills-leb ask o o.remaining asks e (omega (arith, tk.part, tk.range)) sa.range
    ∙ ap (leb o.remaining) sa.sum

-- On a valid book, the pre-check of an order without a price limit passes exactly when the first
-- 4096 levels of the other side hold what the order wants.
pub can_fill_completely_lem :
    (h : Half) (o : Order) (b : OrderBook)
    → IsBook b
    → IsTaker o
    → o.side ≡ taker_side h
    → is_limit o.type ≡ false
    → can_fill_completely o b ≡ some (leb o.remaining (within_depth h b))
can_fill_completely_lem h o b v tk side e =
    let (bids, asks, eq, sb, sa) = both_sides b v in
    eq o ∙ ap some (can_fill_half h o bids asks side ∙ fills_half h o b bids asks sb sa tk e)
