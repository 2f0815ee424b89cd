-- ===== src/Bits.antt =====
-- math/bits.Len of Go's library, as the program uses it, and the powers of two around a number.
use oktrading.Prelude.{
  ℕ, zero, suc, ◌*◌, ◌/◌, ◌^◌, ◌≤◌, ◌<◌, ◌≡◌, refl, ◌≢◌, max, Bool-cases, inl, inr, ==_iff, arith,
  ◌==◌, if◌then◌else◌,
}

-- The digits to print `n` in binary, for `n` below 2 to the fuel.
unfoldable pub digits : ℕ → ℕ → ℕ
digits zero n = 0
digits (suc f) n = let rest = digits f (n / 2) in if n == 0 then 0 else suc rest

-- `bits.Len64`
abbrev pub bits_len : ℕ → ℕ
bits_len n = digits 64 n

digits_zero : (f : ℕ) → digits f 0 ≡ 0
unfolding digits
digits_zero zero = refl
digits_zero (suc f) = refl

digits_pos : (f n : ℕ) → n ≢ 0 → digits (suc f) n ≡ suc (digits f (n / 2))
unfolding digits
digits_pos f n ne = ground (arith, ne)

digits_lem : (f n : ℕ) → n < 2 ^ f → (n < 2 ^ digits f n) × (2 ^ digits f n ≤ max 1 (2 * n))
digits_lem zero n lt = let e : n ≡ 0 = omega arith in rw (e, digits_zero 0) (omega arith)
digits_lem (suc f) n lt = elim (Bool-cases (n == 0)) [
  | inl zero_n ↦ rw ((==_iff n 0).0 zero_n, digits_zero (suc f)) (omega arith)
  | inr more ↦
      let (above, below) = digits_lem f (n / 2) (omega arith) in
      let ne : n ≢ 0 = ground (arith, more) in
      rw (digits_pos f n ne) (omega (arith, above, ne), omega (arith, below, ne))
]

-- A number that is not 0 stands between the powers of two that its length names.
pub bits_len_lem : (n : ℕ) → n < 2 ^ 64 → (n < 2 ^ bits_len n) × (2 ^ bits_len n ≤ max 1 (2 * n))
bits_len_lem n lt = digits_lem 64 n lt

pub pow_pos : (k : ℕ) → 0 < 2 ^ k
pow_pos zero = omega arith
pow_pos (suc k) = omega (arith, pow_pos k)

-- Below a power of two there is none above its half.
pub pow_gap : (l k : ℕ) → 2 ^ l < 2 ^ suc k → 2 ^ l ≤ 2 ^ k
pow_gap zero k lt = omega (arith, pow_pos k)
pow_gap (suc l) zero lt = absurd (omega (arith, pow_pos l))
pow_gap (suc l) (suc k) lt = omega (arith, pow_gap l k (omega arith))

pub pow_mono : (l k : ℕ) → l ≤ k → 2 ^ l ≤ 2 ^ k
pow_mono zero k le = omega (arith, pow_pos k)
pow_mono (suc l) zero le = absurd (omega arith)
pow_mono (suc l) (suc k) le = omega (arith, pow_mono l k (omega arith))
