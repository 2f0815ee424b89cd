-- ===== src/Disruptor/Window.antt =====
-- The slots between the two counters, read round the ring.
use oktrading.Prelude.{
  ℕ, zero, suc, ◌+◌, ◌*◌, ◌/◌, ◌%◌, ◌^◌, ◌<◌, ◌≡◌, ◌≢◌, refl, ap, sym, ◌∙◌, Option, some, List, [],
  ◌∷◌, ◌++◌, arith, length,
}
use oktrading.Prelude.Rounds.{step-ne}
use oktrading.Prelude.Maps.{update, update_self, update_ne}
use mathlib.Core.Path.{ap₂}
use native.Mathlib.Nat.{add-mul-mod_self_right, mod-add-mod}

-- The `n` slots from counter `t` on, in a ring of `c`.
abbrev pub window {ℓ} : {A : Type ℓ} → ℕ → (ℕ → Option A) → ℕ → ℕ → List (Option A)
window c slots t zero = []
window c slots t (suc n) = slots (t % c) ∷ window c slots ((t + 1) % 2 ^ 64) n

pub length-window {ℓ} :
    {A : Type ℓ} (c : ℕ) (slots : ℕ → Option A) (t n : ℕ) → length (window c slots t n) ≡ n
length-window c slots t zero = refl
length-window c slots t (suc n) = ap suc (length-window c slots ((t + 1) % 2 ^ 64) n)

-- The counters run modulo 2 ^ 64, which the capacity divides.
module _ (c m : ℕ) (pos : 0 < c) (divides : 2 ^ 64 ≡ m * c) where
  pub wrap_mod : (x : ℕ) → (x % 2 ^ 64) % c ≡ x % c
  wrap_mod x =
      sym (add-mul-mod_self_right (x % 2 ^ 64) (x / 2 ^ 64 * m) c) ∙ ap (λ k. k % c) regroup
    where
      regroup : x % 2 ^ 64 + x / 2 ^ 64 * m * c ≡ x
      regroup = omega (arith, ap (λ (k : ℕ). x / 2 ^ 64 * k) divides)

  module _ {ℓ} {A : Type ℓ} where
    -- A store just past the window extends it.
    pub window-update :
        (slots : ℕ → Option A) (x : A) (n t i : ℕ)
        → n < c
        → i ≡ (t + n) % c
        → window c (update slots i x) t (suc n) ≡ window c slots t n ++ (some x ∷ [])
    window-update slots x zero t i lt e =
        let here : i ≡ t % c = e ∙ ap (λ k. k % c) (omega arith) in
        rw (here, update_self slots (t % c) x) refl
    window-update slots x (suc n) t i lt e =
        let apart : i ≢ t % c = λ d. step-ne c pos t (suc n) (omega arith) lt (sym e ∙ d) in
        ap₂ ◌∷◌ (update_ne slots x apart)
          (window-update slots x n ((t + 1) % 2 ^ 64) i (omega arith) (e ∙ sym (shifted t n)))
      where
        shifted : (t n : ℕ) → ((t + 1) % 2 ^ 64 + n) % c ≡ (t + suc n) % c
        shifted t n =
            sym (mod-add-mod ((t + 1) % 2 ^ 64) c n)
            ∙ ap (λ k. (k + n) % c) (wrap_mod (t + 1))
            ∙ mod-add-mod (t + 1) c n
            ∙ ap (λ k. k % c) (omega arith)
