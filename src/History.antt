-- ===== src/History.antt =====
-- The histories of the rings: what an entry at the end changes.
use oktrading.Prelude.{
  ℕ, zero, suc, ◌≤◌, ◌<◌, ◌≡◌, refl, ap, some, List, [], ◌∷◌, ◌++◌, arith, length, get_elem?, take,
  map, Option,
}

module _ {ℓ} {A : Type ℓ} (c : A) where
  pub get_elem?-append :
      (xs : List A) (s : ℕ) → s < length xs → get_elem? (xs ++ (c ∷ [])) s ≡ get_elem? xs s
  get_elem?-append [] s lt = absurd (omega arith)
  get_elem?-append (x ∷ xs) zero lt = refl
  get_elem?-append (x ∷ xs) (suc s) lt = get_elem?-append xs s (omega arith)

  pub get_elem?-append_last : (xs : List A) → get_elem? (xs ++ (c ∷ [])) (length xs) ≡ some c
  get_elem?-append_last [] = refl
  get_elem?-append_last (x ∷ xs) = get_elem?-append_last xs

  pub take-append : (n : ℕ) (xs : List A) → n ≤ length xs → take n (xs ++ (c ∷ [])) ≡ take n xs
  take-append zero xs le = refl
  take-append (suc n) [] le = absurd (omega arith)
  take-append (suc n) (x ∷ xs) le = ap (λ r. x ∷ r) (take-append n xs (omega arith))

pub take_next {ℓ} :
    {A : Type ℓ} (n : ℕ) (xs : List A) (x : Option A)
    → x ≡ get_elem? xs n
    → n < length xs
    → map some (take n xs) ++ (x ∷ []) ≡ map some (take (suc n) xs)
take_next zero [] x e lt = absurd (omega arith)
take_next zero (y ∷ xs) x e lt = ap (λ r. r ∷ []) e
take_next (suc n) [] x e lt = absurd (omega arith)
take_next (suc n) (y ∷ xs) x e lt = ap (λ r. some y ∷ r) (take_next n xs x e (omega arith))
