-- ===== src/Prelude/Rounds.antt =====
-- Places in a ring of `c` slots.
use Prim.Native.Nat.{ℕ, ◌+◌, ◌-◌, ◌/◌, ◌%◌, ◌<◌}
use mathlib.Core.Path.{sym, ap, ◌∙◌}
use mathlib.Core.Logic.{◌≢◌}
use native.Mathlib.Omega.{arith}
use native.Mathlib.Nat.{mod-add-mod, mod-eq_of_lt, mod-eq-sub-mod, mod-lt, add-div_right}
use native.Mathlib.Decide.{dec_lt}

module _ (c : ℕ) (pos : 0 < c) where
  -- Fewer than `c` steps on, the slot is another.
  ne_of_below : (r k : ℕ) → r < c → 0 < k → k < c → (r + k) % c ≢ r
  ne_of_below r k rc a b = elim (dec_lt (r + k) c) [
    | yes p ↦ omega (arith, mod-eq_of_lt p)
    | no p ↦ omega (
      arith,
      mod-eq-sub-mod {n = r + k} {m = c} (omega arith),
      mod-eq_of_lt {n = r + k - c} {m = c} (omega arith),
    )
  ]

  pub step-ne : (t k : ℕ) → 0 < k → k < c → (t + k) % c ≢ t % c
  step-ne t k a b e = ne_of_below (t % c) k (mod-lt t pos) a b (mod-add-mod t c k ∙ e)

  -- Two different numbers less than a round apart have different slots.
  pub slots-ne : (s t : ℕ) → s ≢ t → s < t + c → t < s + c → s % c ≢ t % c
  slots-ne s t ne a b e = elim (dec_lt s t) [
    | yes lt ↦ step-ne s (t - s) (omega arith) (omega arith) (ap (λ k. k % c) (omega arith) ∙ sym e)
    | no ge ↦
        step-ne t (s - t) (omega (arith, ne)) (omega arith) (ap (λ k. k % c) (omega arith) ∙ e)
  ]

  -- A round on, the lap is another.
  pub laps-ne : (s : ℕ) → s / c ≢ (s + c) / c
  laps-ne s e = omega (arith, e, add-div_right s pos)
