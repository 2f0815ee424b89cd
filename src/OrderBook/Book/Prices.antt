-- ===== src/OrderBook/Book/Prices.antt =====
-- The sorted price slices: `sort.Search` finds the place of a price, and an insertion and a removal
-- there are the plain ones on a sorted list.
use oktrading.Prelude.{
  ℕ, zero, suc, ◌^◌, ◌≤◌, ◌<◌, ◌≡◌, ◌≢◌, refl, true, false, ◌||◌, not, List, [], ◌∷◌, ◌++◌, arith,
  ltb, ◌==◌, if◌then◌else◌, length, get_or, take, drop, All, contains, Bool-cases, inl, inr,
}
use oktrading.Int64.{bias-lt, bias_injective}
use oktrading.OrderBook.Search.{search_lem}
use oktrading.OrderBook.Book.{Half, bid, ask, at_or_after, price_index, insert_price}
use oktrading.OrderBook.Valid.{rank, IsSorted}

-- The plain operations on a list that is sorted by rank.
module _ (h : Half) (p : ℕ) where
  unfoldable pub position : List ℕ → ℕ
  position [] = 0
  position (q ∷ qs) = if ltb (rank h q) (rank h p) then suc (position qs) else 0

  unfoldable pub insert_sorted : List ℕ → List ℕ
  insert_sorted [] = p ∷ []
  insert_sorted (q ∷ qs) = if ltb (rank h q) (rank h p) then q ∷ insert_sorted qs else p ∷ q ∷ qs

  at_or_after_lem : (q : ℕ) → at_or_after h p q ≡ not (ltb (rank h q) (rank h p))
  at_or_after_lem q = go h
    where
      go : (k : Half) → at_or_after k p q ≡ not (ltb (rank k q) (rank k p))
      go bid = ground (arith, bias-lt p, bias-lt q)
      go ask = ground arith

  position-le : (ps : List ℕ) → position ps ≤ length ps
  unfolding position
  position-le [] = omega arith
  position-le (q ∷ qs) = ground (arith, position-le qs)

  before_position :
      (ps : List ℕ) (k : ℕ) → k < position ps → at_or_after h p (get_or ps k 0) ≡ false
  unfolding position
  before_position [] k lt = absurd (omega arith)
  before_position (q ∷ qs) zero lt = ground (arith, at_or_after_lem q)
  before_position (q ∷ qs) (suc k) lt = before_position qs k (ground arith)

  ranks_after :
      (ps : List ℕ) (k : ℕ)
      → All (λ q. rank h p < rank h q) ps
      → k < length ps
      → at_or_after h p (get_or ps k 0) ≡ true
  ranks_after [] k v lt = absurd (omega arith)
  ranks_after (q ∷ qs) zero v lt = ground (arith, at_or_after_lem q, v.0)
  ranks_after (q ∷ qs) (suc k) v lt = ranks_after qs k v.1 (omega arith)

  pub ranks_mono :
      (q : ℕ) (ps : List ℕ)
      → rank h p ≤ rank h q
      → All (λ x. rank h q < rank h x) ps
      → All (λ x. rank h p < rank h x) ps
  ranks_mono q [] le v = tt
  ranks_mono q (x ∷ ps) le v = (omega (arith, v.0), ranks_mono q ps le v.1)

  from_position :
      (ps : List ℕ) (k : ℕ)
      → IsSorted h ps
      → position ps ≤ k
      → k < length ps
      → at_or_after h p (get_or ps k 0) ≡ true
  unfolding position
  from_position [] k s le lt = absurd (omega arith)
  from_position (q ∷ qs) zero s le lt = ground (arith, at_or_after_lem q)
  from_position (q ∷ qs) (suc k) s le lt = elim (Bool-cases (ltb (rank h q) (rank h p))) [
    | inl below ↦ from_position qs k s.1 (ground arith) (omega arith)
    | inr above ↦ ranks_after qs k (ranks_mono q qs (ground arith) s.0) (omega arith)
  ]

  -- The binary search on a sorted slice returns the number of better prices.
  pub price_index_lem : (ps : List ℕ) → IsSorted h ps → price_index h p ps ≡ position ps
  unfolding price_index
  price_index_lem ps s =
      search_lem (length ps) (λ j. at_or_after h p (get_or ps j 0)) (position ps)
        (before_position ps) (λ k le lt. from_position ps k s le lt) (position-le ps)

  split_at_position :
      (ps : List ℕ) → take (position ps) ps ++ p ∷ drop (position ps) ps ≡ insert_sorted ps
  unfolding position insert_sorted
  split_at_position [] = refl
  split_at_position (q ∷ qs) = ground (arith, split_at_position qs)

  -- `insertBidPrice` and `insertAskPrice` insert before the first price that is not better.
  pub insert_price_lem : (ps : List ℕ) → IsSorted h ps → insert_price h p ps ≡ insert_sorted ps
  insert_price_lem ps s = unfold insert_price in (rw (price_index_lem ps s) (split_at_position ps))

  pub All-insert_sorted {ℓ} :
      (P : ℕ → Type ℓ) (ps : List ℕ) → P p → All P ps → All P (insert_sorted ps)
  unfolding insert_sorted
  All-insert_sorted P [] x v = (x, tt)
  All-insert_sorted P (q ∷ qs) x v = elim (Bool-cases (ltb (rank h q) (rank h p))) [
    | inl below ↦ rw below (v.0, All-insert_sorted P qs x v.1)
    | inr above ↦ rw above (x, v)
  ]

  -- A new price keeps the slice sorted.
  pub insert_sorted-IsSorted :
      (ps : List ℕ)
      → All (λ q. rank h p ≢ rank h q) ps
      → IsSorted h ps
      → IsSorted h (insert_sorted ps)
  unfolding insert_sorted
  insert_sorted-IsSorted [] ne s = (tt, tt)
  insert_sorted-IsSorted (q ∷ qs) ne s = elim (Bool-cases (ltb (rank h q) (rank h p))) [
    | inl below ↦ rw below (
      All-insert_sorted (λ x. rank h q < rank h x) qs (ground arith) s.0,
      insert_sorted-IsSorted qs ne.1 s.1,
    )
    | inr above ↦
        let lt : rank h p < rank h q = ground (arith, ne.0) in
        rw above ((lt, ranks_mono q qs (omega arith) s.0), s)
  ]

  pub contains-insert_sorted :
      (ps : List ℕ) (x : ℕ) → contains x (insert_sorted ps) ≡ (x == p || contains x ps)
  unfolding insert_sorted
  contains-insert_sorted [] x = refl
  contains-insert_sorted (q ∷ qs) x = ground (arith, contains-insert_sorted qs x)

-- Prices of a valid range differ in rank.
pub rank_injective : (h : Half) (p q : ℕ) → p < 2 ^ 64 → q < 2 ^ 64 → rank h p ≡ rank h q → p ≡ q
rank_injective bid p q a b e = bias_injective p q a b (omega (arith, bias-lt p, bias-lt q))
rank_injective ask p q a b e = bias_injective p q a b e
