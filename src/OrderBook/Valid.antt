-- ===== src/OrderBook/Valid.antt =====
-- The invariant of one side of a book: strictly sorted prices, a node under each of them and under
-- no other, every node caching the quantity of its orders, and no empty level.
use oktrading.Prelude.{
  ℕ, ◌-◌, ◌^◌, ◌<◌, ◌≡◌, ◌≢◌, refl, ap, ◌∙◌, false, Option, none, some, List, [], ◌∷◌, ◌++◌, arith,
  All, contains,
}
use oktrading.Prelude.Maps.{update, delete, delete_ne, update_ne, update_self}
use oktrading.Int64.{bias, IsNonneg}
use oktrading.Types.{Order}
use oktrading.OrderBook.Book.{Half, bid, ask, PriceNode}
use oktrading.OrderBook.Match.Spec.{IsNode}

-- The better price has the lower rank.
abbrev pub rank : Half → ℕ → ℕ
rank bid p = 2 ^ 64 - bias p
rank ask p = bias p

abbrev pub IsSorted : Half → List ℕ → Type 0
IsSorted h [] = Unit
IsSorted h (p ∷ ps) = All (λ q. rank h p < rank h q) ps × IsSorted h ps

-- A price that an order may rest at.
abbrev pub IsPrice : ℕ → Type 0
IsPrice p = (0 < p) × IsNonneg p

-- The orders of a level, and those of all levels, best price first.
abbrev pub level : Option PriceNode → List Order
level none = []
level (some n) = n.orders

abbrev pub queue : List ℕ → (ℕ → Option PriceNode) → List Order
queue [] nodes = []
queue (p ∷ ps) nodes = level (nodes p) ++ queue ps nodes

abbrev pub IsLevel : (ℕ → Option PriceNode) → ℕ → Type 0
IsLevel nodes p = (n : PriceNode) × (nodes p ≡ some n) × IsNode p n × (n.orders ≢ []) × IsPrice p

pub record IsLadder (h : Half) (prices : List ℕ) (nodes : ℕ → Option PriceNode) : Type 0 where
  pub sorted : IsSorted h prices
  pub level_of : All (IsLevel nodes) prices
  pub only : (p : ℕ) → contains p prices ≡ false → nodes p ≡ none

-- A change of a map at a key that the prices do not hold leaves their levels alone.
module _ (h : Half) (nodes nodes' : ℕ → Option PriceNode) (p : ℕ)
    (same : (q : ℕ) → p ≢ q → nodes' q ≡ nodes q) where
  pub IsLevel-elsewhere :
      (ps : List ℕ)
      → All (λ q. rank h p < rank h q) ps
      → All (IsLevel nodes) ps
      → All (IsLevel nodes') ps
  IsLevel-elsewhere [] lt v = tt
  IsLevel-elsewhere (q ∷ ps) lt v =
      let ne = λ (e : p ≡ q). absurd {A = ⊥} (omega (arith, ap (rank h) e)) in
      ((v.0.0, same q ne ∙ v.0.1, v.0.2, v.0.3, v.0.4), IsLevel-elsewhere ps lt.1 v.1)

  pub queue_elsewhere :
      (ps : List ℕ) → All (λ q. rank h p < rank h q) ps → queue ps nodes' ≡ queue ps nodes
  queue_elsewhere [] lt = refl
  queue_elsewhere (q ∷ ps) lt =
      let ne = λ (e : p ≡ q). absurd {A = ⊥} (omega (arith, ap (rank h) e)) in
      rw (same q ne, queue_elsewhere ps lt.1)

-- No price stands twice in a sorted slice.
pub contains_of_lt :
    (h : Half) (p : ℕ) (ps : List ℕ) → All (λ q. rank h p < rank h q) ps → contains p ps ≡ false
contains_of_lt h p [] lt = refl
contains_of_lt h p (q ∷ ps) lt =
    let ne = λ (e : p ≡ q). absurd {A = ⊥} (omega (arith, ap (rank h) e)) in
    ground (arith, ne, contains_of_lt h p ps lt.1)

module _ (h : Half) (p : ℕ) (ps : List ℕ) (nodes : ℕ → Option PriceNode)
    (v : IsLadder h (p ∷ ps) nodes) where
  -- Without its best level a side is still valid.
  pub IsLadder-delete : IsLadder h ps (delete nodes p)
  unfolding delete
  IsLadder-delete = record {
    sorted = v.sorted.1;
    level_of =
        IsLevel-elsewhere h nodes (delete nodes p) p (λ q ne. delete_ne nodes ne) ps v.sorted.0
          v.level_of.1;
    only = λ q out. ground (arith, v.only q);
  }

  -- So it is with another valid node at its best level.
  pub IsLadder-update :
      (n : PriceNode) → IsNode p n → n.orders ≢ [] → IsLadder h (p ∷ ps) (update nodes p n)
  unfolding update
  IsLadder-update n vn ne = record {
    sorted = v.sorted;
    level_of = (
      (n, update_self nodes p n, vn, ne, v.level_of.0.4),
      IsLevel-elsewhere h nodes (update nodes p n) p (λ q d. update_ne nodes n d) ps v.sorted.0
          v.level_of.1,
    );
    only = λ q out. ground (arith, v.only q);
  }
