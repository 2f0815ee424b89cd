-- ===== src/Mpsc/Capacity.antt =====
-- pkg/mpsc/ring.go, `nextPow2`.
use oktrading.Prelude.{
  ℕ, zero, suc, ◌-◌, ◌%◌, ◌^◌, ◌≤◌, ◌<◌, ◌≡◌, refl, arith, leb, if◌then◌else◌, Bool-cases, inl, inr,
}
use oktrading.Int64.{sle_nonneg, sub64_lem}
use oktrading.Bits.{bits_len, bits_len_lem, pow_pos, pow_gap}
use oktrading.Mpsc.{next_pow2}

even_power : (l : ℕ) → 1 < 2 ^ l → (k : ℕ) × (2 ^ l ≡ 2 ^ suc k)
even_power zero lt = absurd (omega arith)
even_power (suc k) lt = (k, refl)

-- The wrap-arounds do not show in this range.
in_range :
    (n : ℕ) → n ≤ 2 ^ 62 → next_pow2 n ≡ (if leb n 2 then 2 else 2 ^ bits_len (n - 1) % 2 ^ 64)
unfolding next_pow2
in_range n range = ground (arith, sle_nonneg n 2, sub64_lem n 1, range)

-- `nextPow2` of a capacity of at most 2 ^ 62 is a power of two, at least two and at least the capacity,
-- at most 2 ^ 62 itself, and no power of two that is two and the capacity or more is smaller.
pub next_pow2_lem :
    (n k : ℕ)
    → n ≤ 2 ^ 62
    → n ≤ 2 ^ suc k
    → ((l : ℕ) × (next_pow2 n ≡ 2 ^ suc l))
      × (n ≤ next_pow2 n)
      × (next_pow2 n ≤ 2 ^ suc k)
      × (next_pow2 n ≤ 2 ^ 62)
next_pow2_lem n k range le = elim (Bool-cases (leb n 2)) [
  | inl two ↦
      rw (in_range n range, two)
        ((0, refl), ground (arith, two), omega (arith, pow_pos k), omega arith)
  | inr more ↦
      let big : 2 < n = ground (arith, more) in
      let (above, below) = bits_len_lem (n - 1) (omega (arith, range, big)) in
      let small : 2 ^ bits_len (n - 1) ≤ 2 ^ 62 =
        pow_gap (bits_len (n - 1)) 62 (omega (arith, below, big, range)) in
      let whole : 2 ^ bits_len (n - 1) % 2 ^ 64 ≡ 2 ^ bits_len (n - 1) = omega (arith, small) in
      rw (in_range n range, more, whole)
        (
          even_power (bits_len (n - 1)) (omega (arith, above, big)),
          omega (arith, above),
          pow_gap (bits_len (n - 1)) (suc k) (omega (arith, below, big, le)),
          small,
        )
]
