-- ===== src/Tests/Inbound.antt =====
-- The theorems on the inbound ring, applied to the capacity that its tests use.
use oktrading.Prelude.{ℕ, suc, ◌^◌, ◌≤◌, ◌≡◌, arith}
use oktrading.Mpsc.{next_pow2}
use oktrading.Mpsc.Capacity.{next_pow2_lem}

next_pow2_lem_example :
    ((l : ℕ) × (next_pow2 100 ≡ 2 ^ suc l))
    × (100 ≤ next_pow2 100)
    × (next_pow2 100 ≤ 2 ^ 7)
    × (next_pow2 100 ≤ 2 ^ 62)
next_pow2_lem_example = next_pow2_lem 100 6 (omega arith) (omega arith)
