-- ===== src/Prelude/Numbers.antt =====
-- Lists of numbers, as sets: membership as a test, and lists without repetition.
use Prim.Native.Nat.{ℕ}
use mathlib.Core.Path.{◌≡◌, refl, sym, subst}
use mathlib.Core.Bool.{Bool, true, false, ◌||◌}
use mathlib.Core.List.{List, [], ◌∷◌, ◌++◌}
use native.Mathlib.Omega.{arith}
use oktrading.Prelude.Tests.{◌==◌, ==_iff, Bool-cases}
use oktrading.Prelude.Lists.{All}
use mathlib.Core.Logic.{inl, inr}

abbrev pub contains : ℕ → List ℕ → Bool
contains p [] = false
contains p (q ∷ qs) = p == q || contains p qs

abbrev pub Distinct : List ℕ → Type 0
Distinct [] = Unit
Distinct (x ∷ xs) = (contains x xs ≡ false) × Distinct xs

pub contains-append :
    (x : ℕ) (xs ys : List ℕ) → contains x (xs ++ ys) ≡ (contains x xs || contains x ys)
contains-append x [] ys = refl
contains-append x (y ∷ xs) ys = ground (arith, contains-append x xs ys)

pub Distinct-right : (xs ys : List ℕ) → Distinct (xs ++ ys) → Distinct ys
Distinct-right [] ys d = d
Distinct-right (x ∷ xs) ys d = Distinct-right xs ys d.1

-- The two parts of a list without repetition share nothing.
pub Distinct-apart :
    (x : ℕ) (xs ys : List ℕ) → Distinct (xs ++ ys) → contains x ys ≡ true → contains x xs ≡ false
Distinct-apart x [] ys d h = refl
Distinct-apart x (y ∷ xs) ys d h =
    ground (arith, Distinct-apart x xs ys d.1 h, contains-append y xs ys, d.0)

-- What holds of all holds of each.
pub All_contains {ℓ} :
    (P : ℕ → Type ℓ) (x : ℕ) (xs : List ℕ) → All P xs → contains x xs ≡ true → P x
All_contains P x [] v e = cc
All_contains P x (y ∷ xs) v e = elim (Bool-cases (x == y)) [
  | inl same ↦ subst P (sym ((==_iff x y).0 same)) v.0
  | inr ne ↦ All_contains P x xs v.1 (ground (arith, ne, e))
]
