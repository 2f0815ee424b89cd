-- ===== src/Engine/PostOnly.antt =====
-- pkg/engine/engine.go, `wouldCross`, on a valid book.
use oktrading.Prelude.{
  ℕ, ◌<◌, ◌≡◌, ap, Bool, false, ◌&&◌, Option, List, [], ◌∷◌, arith, All, All-zip,
}
use oktrading.Int64.{IsNonneg, slt, sle, slt_nonneg, sle_nonneg}
use oktrading.Types.{Order}
use oktrading.OrderBook.Book.{
  Half, bid, ask, PriceNode, OrderBook, ladder, best, best_bid, best_ask,
}
use oktrading.OrderBook.Valid.{rank, IsPrice, IsLevel, IsLadder}
use oktrading.OrderBook.Invariant.{IsBook, book_queue}
use oktrading.OrderBook.Rest.Enqueue.{All-queue}
use oktrading.OrderBook.Match.Limit.{Better, Better-from}
use oktrading.OrderBook.Match.Refine.{taker_side}
use oktrading.Engine.{crosses, would_cross}

prices_of_levels :
    (nodes : ℕ → Option PriceNode) (ps : List ℕ) → All (IsLevel nodes) ps → All IsPrice ps
prices_of_levels nodes [] v = tt
prices_of_levels nodes (p ∷ ps) v = (v.0.4, prices_of_levels nodes ps v.1)

-- The test against the best price of a half, for an order from the other one.
abbrev pub reaches : Half → ℕ → ℕ → Bool
reaches ask b price = slt 0 b && sle b price
reaches bid b price = slt 0 b && sle price b

would_cross_half :
    (h : Half) (o : Order) (b : OrderBook)
    → o.side ≡ taker_side h
    → would_cross o b ≡ reaches h (best (ladder h b).prices) o.price
would_cross_half bid o b e = unfold would_cross crosses best_bid in ap (λ s. crosses s o.price b) e
would_cross_half ask o b e = unfold would_cross crosses best_ask in ap (λ s. crosses s o.price b) e

Better-reaches :
    (h : Half) (price p : ℕ)
    → IsNonneg price
    → IsPrice p
    → reaches h p price ≡ false
    → Better h price p
Better-reaches bid price p r v e =
    ground (arith, e, v.0, slt_nonneg 0 p (omega arith) v.1, sle_nonneg price p r v.1)
Better-reaches ask price p r v e =
    ground (arith, e, v.0, slt_nonneg 0 p (omega arith) v.1, sle_nonneg p price v.1 r)

All-Better :
    (h : Half) (price : ℕ) (nodes : ℕ → Option PriceNode) (ps : List ℕ)
    → IsNonneg price
    → IsLadder h ps nodes
    → reaches h (best ps) price ≡ false
    → All (Better h price) ps
All-Better h price nodes [] r v e = tt
All-Better h price nodes (p ∷ ps) r v e =
    let first = Better-reaches h price p r v.level_of.0.4 e in
    (
      first,
      All-zip (λ q. rank h p < rank h q) IsPrice (Better h price)
          (λ q lt ok. Better-from h price p q v.level_of.0.4.1 ok.1 first (omega (arith, lt))) ps
          v.sorted.0 (prices_of_levels nodes ps v.level_of.1),
    )

-- An order that would not cross reaches no order of the other side.
pub would_cross-Better :
    (h : Half) (o : Order) (b : OrderBook)
    → IsBook b
    → o.side ≡ taker_side h
    → IsNonneg o.price
    → would_cross o b ≡ false
    → All (λ (x : Order). Better h o.price x.price) (book_queue h b)
would_cross-Better h o b v side r e =
    let l = ladder h b in
    All-queue (Better h o.price) l.nodes l.prices
      (All-Better h o.price l.nodes l.prices r (v.side h).valid
        (rw (would_cross_half h o b side) at e))
      (v.side h).valid.level_of
