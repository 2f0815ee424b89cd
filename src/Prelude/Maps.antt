-- ===== src/Prelude/Maps.antt =====
-- Go maps with integer keys, as functions: a missing key is `none`.
use Prim.Native.Nat.{ℕ}
use mathlib.Core.Path.{◌≡◌}
use mathlib.Core.Option.{Option, none, some}
use native.Mathlib.Omega.{arith}
use mathlib.Core.Logic.{◌≢◌}
use oktrading.Prelude.Tests.{◌==◌, if◌then◌else◌}

module _ {ℓ} {V : Type ℓ} where
  -- `m[k] = v`
  unfoldable pub update : (ℕ → Option V) → ℕ → V → ℕ → Option V
  update m k v j = if k == j then some v else m j

  -- `delete(m, k)`
  unfoldable pub delete : (ℕ → Option V) → ℕ → ℕ → Option V
  delete m k j = if k == j then none else m j

  pub update_self : (m : ℕ → Option V) (k : ℕ) (v : V) → update m k v k ≡ some v
  unfolding update
  update_self m k v = ground arith

  pub update_ne : (m : ℕ → Option V) {k j : ℕ} (v : V) → k ≢ j → update m k v j ≡ m j
  unfolding update
  update_ne m v h = ground arith

  pub delete_self : (m : ℕ → Option V) (k : ℕ) → delete m k k ≡ none
  unfolding delete
  delete_self m k = ground arith

  pub delete_ne : (m : ℕ → Option V) {k j : ℕ} → k ≢ j → delete m k j ≡ m j
  unfolding delete
  delete_ne m h = ground arith

  abbrev pub empty : ℕ → Option V
  empty j = none
