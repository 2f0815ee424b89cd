-- ===== src/Int64.antt =====
-- Go's `int64` and `uint64`. A value is its 64-bit pattern, a number below 2 ^ 64; arithmetic wraps,
-- and an `int64` is compared by its sign-biased pattern, as two's complement demands.
use oktrading.Prelude.{ℕ, ◌+◌, ◌-◌, ◌%◌, ◌^◌, ◌≤◌, ◌<◌, ◌≡◌, Bool, arith, ltb, leb, if◌then◌else◌}

-- `a + b` and `a - b`, for `int64` and `uint64` alike.
unfoldable pub add64 : ℕ → ℕ → ℕ
add64 a b = (a + b) % 2 ^ 64

unfoldable pub sub64 : ℕ → ℕ → ℕ
sub64 a b = (a + 2 ^ 64 - b) % 2 ^ 64

-- The patterns in the order of the signed values that they stand for.
unfoldable pub bias : ℕ → ℕ
bias a = (a + 2 ^ 63) % 2 ^ 64

-- `a < b` and `a <= b` on `int64`.
abbrev pub slt : ℕ → ℕ → Bool
slt a b = ltb (bias a) (bias b)

abbrev pub sle : ℕ → ℕ → Bool
sle a b = leb (bias a) (bias b)

-- The built-in `min` on `int64`.
abbrev pub smin : ℕ → ℕ → ℕ
smin a b = if sle a b then a else b

-- The pattern of a signed value that is not negative.
abbrev pub IsNonneg : ℕ → Type 0
IsNonneg a = a < 2 ^ 63

pub bias_nonneg : (a : ℕ) → IsNonneg a → bias a ≡ a + 2 ^ 63
unfolding bias
bias_nonneg a h = omega arith

pub bias-lt : (a : ℕ) → bias a < 2 ^ 64
unfolding bias
bias-lt a = omega arith

pub bias_injective : (a b : ℕ) → a < 2 ^ 64 → b < 2 ^ 64 → bias a ≡ bias b → a ≡ b
unfolding bias
bias_injective a b h k e = omega arith

pub add64_lem : (a b : ℕ) → a + b < 2 ^ 64 → add64 a b ≡ a + b
unfolding add64
add64_lem a b h = omega arith

pub sub64_lem : (a b : ℕ) → b ≤ a → a < 2 ^ 64 → sub64 a b ≡ a - b
unfolding sub64
sub64_lem a b h k = omega arith

pub slt_nonneg : (a b : ℕ) → IsNonneg a → IsNonneg b → slt a b ≡ ltb a b
slt_nonneg a b h k = ground (arith, bias_nonneg a h, bias_nonneg b k)

pub sle_nonneg : (a b : ℕ) → IsNonneg a → IsNonneg b → sle a b ≡ leb a b
sle_nonneg a b h k = ground (arith, bias_nonneg a h, bias_nonneg b k)

pub smin_right : (a b : ℕ) → IsNonneg a → IsNonneg b → b ≤ a → smin a b ≡ b
smin_right a b h k le = ground (arith, bias_nonneg a h, bias_nonneg b k)

pub smin_left : (a b : ℕ) → IsNonneg a → IsNonneg b → a ≤ b → smin a b ≡ a
smin_left a b h k le = ground (arith, bias_nonneg a h, bias_nonneg b k)
