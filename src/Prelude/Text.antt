-- ===== src/Prelude/Text.antt =====
-- The bytes of an ASCII text, and the comparison of texts.
use Prim.Native.Nat.{ℕ, Ordering}
use Prim.Native.Char.{code}
use Prim.Native.String.{String, compare}
use mathlib.Core.Bool.{Bool, true, false}
use mathlib.Core.Path.{◌≡◌, refl, ap}
use text.Mathlib.TextPositions.{compare_refl}
use text.Mathlib.TextEquality.{path_by_compare}
use mathlib.Core.List.{List, [], ◌∷◌}

abbrev pub codes : String → List ℕ
codes String.[] = []
codes (String.◌∷◌ c s) = code c ∷ codes s

-- `s == t` on strings.
abbrev pub same_text : String → String → Bool
same_text s t = elim (compare s t) [ Ordering.eq ↦ true | _ ↦ false ]

pub same_text_refl : (s : String) → same_text s s ≡ true
same_text_refl s =
    ap (λ r. elim r as (λ x. Bool) [ Ordering.eq ↦ true | _ ↦ false ]) (compare_refl s)

-- Texts that compare as the same are the same.
pub same_text_eq : (s t : String) → same_text s t ≡ true → s ≡ t
same_text_eq s t e = path_by_compare s t (order (compare s t) e)
  where
    order :
        (r : Ordering)
        → elim r as (λ x. Bool) [ Ordering.eq ↦ true | _ ↦ false ] ≡ true
        → r ≡ Ordering.eq
    order Ordering.eq e = refl
    order Ordering.lt e = cc
    order Ordering.gt e = cc
