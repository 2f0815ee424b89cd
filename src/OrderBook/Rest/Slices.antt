-- ===== src/OrderBook/Rest/Slices.antt =====
-- pkg/orderbook/orderbook.go: `insertBidPrice`, `insertAskPrice`, `removeBidPrice` and `removeAskPrice` on
-- a sorted slice of prices.
use oktrading.Prelude.{
  ℕ, zero, suc, ◌^◌, ◌<◌, ◌≡◌, ◌≢◌, refl, ◌∙◌, false, ◌&&◌, ◌||◌, List, [], ◌∷◌, arith, ltb, ◌==◌,
  length, get_or, All, contains,
}
use oktrading.OrderBook.Book.{Half, price_index, insert_price, remove_price}
use oktrading.OrderBook.Valid.{rank, IsSorted}
use oktrading.OrderBook.Book.Prices.{
  insert_sorted, insert_price_lem, insert_sorted-IsSorted, contains-insert_sorted, rank_injective,
}
use oktrading.OrderBook.Rest.Prune.{without, remove_price_lem}

ranks_differ :
    (h : Half) (p : ℕ) (ps : List ℕ)
    → p < 2 ^ 64
    → All (λ q. q < 2 ^ 64) ps
    → contains p ps ≡ false
    → All (λ q. rank h p ≢ rank h q) ps
ranks_differ h p [] small range out = tt
ranks_differ h p (q ∷ ps) small range out = (
  (λ e. let same = rank_injective h p q small range.0 e in ground (arith, out, same)),
  ranks_differ h p ps small range.1 (ground (arith, out)),
)

without_insert :
    (h : Half) (p : ℕ) (ps : List ℕ) → contains p ps ≡ false → without p (insert_sorted h p ps) ≡ ps
unfolding without insert_sorted
without_insert h p [] out = ground arith
without_insert h p (q ∷ ps) out = ground (arith, out, without_insert h p ps)

absent_at :
    (p : ℕ) (ps : List ℕ) (i : ℕ)
    → contains p ps ≡ false
    → (ltb i (length ps) && get_or ps i 0 == p) ≡ false
absent_at p [] i out = ground arith
absent_at p (q ∷ ps) zero out = ground (arith, out)
absent_at p (q ∷ ps) (suc i) out = ground (arith, out, absent_at p ps i)

remove_absent : (h : Half) (p : ℕ) (ps : List ℕ) → contains p ps ≡ false → remove_price h p ps ≡ ps
unfolding remove_price
remove_absent h p ps out = rw (remove_price, absent_at p ps (price_index h p ps) out) refl

-- On a sorted slice of 64-bit prices, with a price that it does not hold: the insertion gives a sorted
-- slice that holds this price and the old ones and no others; the removal of the price from it restores
-- the slice; and the removal of the price from the old slice leaves that alone.
pub remove_price-insert_price :
    (h : Half) (p : ℕ) (ps : List ℕ)
    → IsSorted h ps
    → p < 2 ^ 64
    → All (λ q. q < 2 ^ 64) ps
    → contains p ps ≡ false
    → IsSorted h (insert_price h p ps)
      × ((x : ℕ) → contains x (insert_price h p ps) ≡ (x == p || contains x ps))
      × (remove_price h p (insert_price h p ps) ≡ ps)
      × (remove_price h p ps ≡ ps)
remove_price-insert_price h p ps s small range out =
    let eq = insert_price_lem h p ps s in
    let sorted = insert_sorted-IsSorted h p ps (ranks_differ h p ps small range out) s in
    let held = contains-insert_sorted h p ps p in
    (
      rw eq sorted,
      (λ x. rw eq (contains-insert_sorted h p ps x)),
      rw eq (
          remove_price_lem h p (insert_sorted h p ps) sorted (ground (arith, held))
          ∙ without_insert h p ps out),
      remove_absent h p ps out,
    )
