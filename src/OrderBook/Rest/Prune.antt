-- ===== src/OrderBook/Rest/Prune.antt =====
-- The sorted slice and the levels of a side from which a price goes.
use oktrading.Prelude.{
  ℕ, suc, ◌<◌, ◌≡◌, ◌≢◌, refl, sym, ap, ◌∙◌, true, ◌&&◌, Option, List, [], ◌∷◌, ◌++◌, arith, ltb,
  ◌==◌, if◌then◌else◌, length, get_or, take, drop, All, All_contains, contains, Bool-cases, inl,
  inr, ==_iff,
}
use oktrading.Prelude.Maps.{delete, delete_ne, delete_self}
use oktrading.OrderBook.Book.{Half, PriceNode, remove_price}
use oktrading.OrderBook.Book.Prices.{position, price_index_lem}
use oktrading.OrderBook.Valid.{rank, IsSorted, IsLevel, IsLadder, IsLevel-elsewhere}

unfoldable pub without : ℕ → List ℕ → List ℕ
without p [] = []
without p (q ∷ qs) = if p == q then qs else q ∷ without p qs

module _ (p : ℕ) where
  pub All-without {ℓ} : (P : ℕ → Type ℓ) (ps : List ℕ) → All P ps → All P (without p ps)
  unfolding without
  All-without P [] v = tt
  All-without P (q ∷ qs) v = elim (Bool-cases (p == q)) [
    | inl same ↦ rw same v.1
    | inr ne ↦ rw ne (v.0, All-without P qs v.1)
  ]

  pub contains-without : (ps : List ℕ) (x : ℕ) → x ≢ p → contains x (without p ps) ≡ contains x ps
  unfolding without
  contains-without [] x ne = refl
  contains-without (q ∷ qs) x ne = ground (arith, ne, contains-without qs x)

module _ (h : Half) (p : ℕ) where
  without-IsSorted : (ps : List ℕ) → IsSorted h ps → IsSorted h (without p ps)
  unfolding without
  without-IsSorted [] s = tt
  without-IsSorted (q ∷ qs) s = elim (Bool-cases (p == q)) [
    | inl same ↦ rw same s.1
    | inr ne ↦ rw ne (All-without p (λ x. rank h q < rank h x) qs s.0, without-IsSorted qs s.1)
  ]

  -- In a sorted slice the price stands behind the better ones.
  below_of :
      (q : ℕ) (qs : List ℕ) → IsSorted h (q ∷ qs) → contains p qs ≡ true → rank h q < rank h p
  below_of q qs s e = All_contains (λ x. rank h q < rank h x) p qs s.0 e

  -- What `removeBidPrice` and `removeAskPrice` do at the place of the price.
  cut : ℕ → List ℕ → List ℕ
  cut i ps = if ltb i (length ps) && get_or ps i 0 == p then take i ps ++ drop (suc i) ps else ps

  cut_at_position :
      (ps : List ℕ) → IsSorted h ps → contains p ps ≡ true → cut (position h p ps) ps ≡ without p ps
  unfolding cut position without
  cut_at_position [] s e = cc
  cut_at_position (q ∷ qs) s e = elim (Bool-cases (p == q)) [
    | inl same ↦ let eq : p ≡ q = (==_iff p q).0 same in ground (arith, same, ap (rank h) eq)
    | inr ne ↦
        let there : contains p qs ≡ true = ground (arith, ne, e) in
        let below = below_of q qs s there in ground (arith, ne, below, cut_at_position qs s.1 there)
  ]

  pub remove_price_lem :
      (ps : List ℕ) → IsSorted h ps → contains p ps ≡ true → remove_price h p ps ≡ without p ps
  unfolding remove_price cut
  remove_price_lem ps s e = rw (price_index_lem h p ps s) (cut_at_position ps s e)

  -- The levels that are left are as they were.
  All-IsLevel-without :
      (nodes : ℕ → Option PriceNode) (ps : List ℕ)
      → IsSorted h ps
      → All (IsLevel nodes) ps
      → All (IsLevel (delete nodes p)) (without p ps)
  unfolding without
  All-IsLevel-without nodes [] s v = tt
  All-IsLevel-without nodes (q ∷ qs) s v = elim (Bool-cases (p == q)) [
    | inl same ↦
        let eq : q ≡ p = sym ((==_iff p q).0 same) in
        rw same (
          IsLevel-elsewhere h nodes (delete nodes p) p (λ x ne. delete_ne nodes ne) qs
            (rw eq at s.0) v.1)
    | inr ne ↦ rw ne (
      (v.0.0, delete_ne nodes (ground (arith, ne)) ∙ v.0.1, v.0.2, v.0.3, v.0.4),
      All-IsLevel-without nodes qs s.1 v.1,
    )
  ]

  pub IsLadder-without :
      (ps : List ℕ) (nodes : ℕ → Option PriceNode)
      → IsLadder h ps nodes
      → IsLadder h (without p ps) (delete nodes p)
  IsLadder-without ps nodes v = record {
    sorted = without-IsSorted ps v.sorted;
    level_of = All-IsLevel-without nodes ps v.sorted v.level_of;
    only = λ x out. elim (Bool-cases (p == x)) [
      | inl same ↦ rw ((==_iff p x).0 same) (delete_self nodes x)
      | inr ne ↦
          delete_ne nodes (ground (arith, ne))
          ∙ v.only x (sym (contains-without p ps x (ground (arith, ne))) ∙ out)
    ];
  }
