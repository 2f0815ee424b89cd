-- ===== src/Histogram/Percentile.antt =====
-- cmd/stress/histogram.go, `Record` and `Percentile`.
use oktrading.Prelude.{
  ℕ, zero, suc, ◌+◌, ◌-◌, ◌*◌, ◌/◌, ◌%◌, ◌^◌, ◌≤◌, ◌<◌, ◌≡◌, refl, ap, sym, subst, ◌∙◌, min, max,
  true, false, List, [], ◌∷◌, arith, ltb, leb, ◌==◌, if◌then◌else◌, length, take, Bool-cases, inl,
  inr,
}
use oktrading.Int64.{
  bias, add64, sub64, slt, sle, IsNonneg, add64_lem, sub64_lem, slt_nonneg, sle_nonneg,
}
use oktrading.Bits.{bits_len, bits_len_lem, pow_mono}
use oktrading.Histogram.{
  LatencyHistogram, bump, clamp, bucket_of, record_sample, midpoint, shift_right, find_bucket,
  percentile,
}

unfoldable pub sum_of : List ℕ → ℕ
sum_of [] = 0
sum_of (c ∷ cs) = c + sum_of cs

-- Every sample stands in a bucket.
pub record IsHistogram (h : LatencyHistogram) : Type 0 where
  pub size : length h.buckets ≡ 64
  pub counted : sum_of h.buckets ≡ h.count
  pub range : IsNonneg h.count

not_above : (l : ℕ) → 2 ^ l < 2 ^ 64 → l ≤ 63
not_above l lt = elim (Bool-cases (leb l 63)) [
  | inl le ↦ ground (arith, le)
  | inr above ↦ absurd (omega (arith, pow_mono 64 l (ground (arith, above))))
]

-- The bucket of a sample is that of the power of two below it, and there are 63 of them in use.
pub bucket_of_lem :
    (ns : ℕ)
    → 0 < ns
    → IsNonneg ns
    → (2 ^ bucket_of ns ≤ ns) × (ns < 2 ^ suc (bucket_of ns)) × (bucket_of ns < 63)
unfolding bucket_of
bucket_of_lem ns pos r = go (bits_len ns) refl
  where
    go :
        (l : ℕ)
        → bits_len ns ≡ l
        → (2 ^ bucket_of ns ≤ ns) × (ns < 2 ^ suc (bucket_of ns)) × (bucket_of ns < 63)
    go zero e =
        let (above, below) = bits_len_lem ns (omega arith) in absurd (omega (arith, rw e at above))
    go (suc k) e =
        let (above, below) = bits_len_lem ns (omega arith) in
        let above' : ns < 2 ^ suc k = rw e at above in
        let below' : 2 ^ suc k ≤ max 1 (2 * ns) = rw e at below in
        let small = not_above (suc k) (omega (arith, below')) in
        let b : bucket_of ns ≡ k = rw e (ground (arith, small)) in
        rw b (omega (arith, below'), above', small)

length-bump : (i : ℕ) (cs : List ℕ) → length (bump i cs) ≡ length cs
unfolding bump
length-bump i [] = refl
length-bump zero (c ∷ cs) = refl
length-bump (suc i) (c ∷ cs) = ap suc (length-bump i cs)

sum_of-bump :
    (i : ℕ) (cs : List ℕ)
    → i < length cs
    → IsNonneg (sum_of cs)
    → sum_of (bump i cs) ≡ suc (sum_of cs)
unfolding bump sum_of
sum_of-bump i [] lt r = absurd (omega arith)
sum_of-bump zero (c ∷ cs) lt r = rw (add64_lem c 1 (omega arith)) (omega arith)
sum_of-bump (suc i) (c ∷ cs) lt r = omega (arith, sum_of-bump i cs (omega arith) (omega arith))

-- The test of the loop, on counts that do not overflow.
stops :
    (target cumulative c : ℕ)
    → IsNonneg target
    → IsNonneg (cumulative + c)
    → slt target (add64 cumulative c) ≡ ltb target (cumulative + c)
stops target cumulative c r small =
    rw (add64_lem cumulative c (omega arith)) (slt_nonneg target (cumulative + c) r small)

-- The middle of bucket `i`, 2 ^ i and a half of it; in bucket 63, which `Record` does not use, the
-- numbers of `int64` wrap.
midpoint_lem : (i : ℕ) → i < 64 → midpoint i ≡ (2 ^ i + 2 ^ i / 2) % 2 ^ 63
unfolding midpoint shift_right add64
midpoint_lem i lt = elim (Bool-cases (i == 63)) [
  | inl last ↦ let e : i ≡ 63 = ground (arith, last) in rw e refl
  | inr lower ↦
      let small : 2 ^ i ≤ 2 ^ 62 = pow_mono i 62 (ground (arith, lower)) in
      let positive : ltb (2 ^ i) (2 ^ 63) ≡ true = ground (arith, small) in
      rw positive (add64_lem (2 ^ i) (2 ^ i / 2) (omega (arith, small)) ∙ omega (arith, small))
]

-- What `find_bucket` returns, from bucket `i` on: the middle of bucket `i + k`, the first one at which
-- the sum of the counts exceeds the target.
abbrev pub Finds : ℕ → ℕ → ℕ → List ℕ → ℕ → Type 0
Finds target cumulative i cs found =
    (k : ℕ) × (found ≡ (2 ^ (i + k) + 2 ^ (i + k) / 2) % 2 ^ 63)
    × (cumulative + sum_of (take k cs) ≤ target)
    × (target < cumulative + sum_of (take (suc k) cs))
    × (k < length cs)

find_bucket-Finds :
    (biggest target cumulative i : ℕ) (cs : List ℕ)
    → i + length cs ≤ 64
    → cumulative ≤ target
    → IsNonneg target
    → target < cumulative + sum_of cs
    → IsNonneg (cumulative + sum_of cs)
    → Finds target cumulative i cs (find_bucket biggest target cumulative i cs)
unfolding find_bucket sum_of
find_bucket-Finds biggest target cumulative i [] fits le r lt small = absurd (omega arith)
find_bucket-Finds biggest target cumulative i (c ∷ cs) fits le r lt small =
    let test = stops target cumulative c r (omega arith) in
    elim (Bool-cases (ltb target (cumulative + c))) [
      | inl here ↦
          let e : i + 0 ≡ i = omega arith in
          (
            0,
            rw (find_bucket, test, here, e) (midpoint_lem i (omega (arith, fits))),
            omega (arith, le),
            ground (arith, here),
            omega arith,
          )
      | inr later ↦
          let (k, e, before, after, inside) =
            find_bucket-Finds biggest target (cumulative + c) (suc i) cs (omega (arith, fits))
              (ground (arith, later)) r (omega arith) (omega arith) in
          let next : i + suc k ≡ suc i + k = omega arith in
          (
            suc k,
            rw (find_bucket, test, later, add64_lem cumulative c (omega arith), next) e,
            omega (arith, before),
            omega (arith, after),
            omega (arith, inside),
          )
    ]

-- What `Record` of a sample does.
pub record Records (ns : ℕ) (h : LatencyHistogram) : Type 0 where
  pub low : 2 ^ bucket_of ns ≤ ns
  pub high : ns < 2 ^ suc (bucket_of ns)
  pub bucket : (record_sample ns h).buckets ≡ bump (bucket_of ns) h.buckets
  pub valid : IsHistogram (record_sample ns h)
  pub biggest : (record_sample ns h).max_ns ≡ max ns h.max_ns

clamp_lem : (ns : ℕ) → 0 < ns → IsNonneg ns → clamp ns ≡ ns
clamp_lem ns pos r = ground (arith, sle_nonneg ns 0 r (omega arith))

larger : (a b : ℕ) → IsNonneg a → IsNonneg b → (if sle a b then b else a) ≡ max a b
larger a b r s = ground (arith, sle_nonneg a b r s)

-- `Record` behind its first test.
abbrev counted_in : ℕ → LatencyHistogram → LatencyHistogram
counted_in ns h = record h {
  buckets = bump (bucket_of ns) h.buckets;
  count = add64 h.count 1;
  sum = add64 h.sum ns;
  max_ns = if sle ns h.max_ns then h.max_ns else ns;
}

counted_in-IsHistogram :
    (ns : ℕ) (h : LatencyHistogram)
    → IsHistogram h
    → IsNonneg (suc h.count)
    → bucket_of ns < 64
    → IsHistogram (counted_in ns h)
counted_in-IsHistogram ns h v room small =
    let more = add64_lem h.count 1 (omega (arith, room)) in
    let total =
      sum_of-bump (bucket_of ns) h.buckets (omega (arith, v.size, small))
        (omega (arith, v.counted, v.range)) in
    record {
      size = length-bump (bucket_of ns) h.buckets ∙ v.size;
      counted = omega (arith, more, total, v.counted);
      range = omega (arith, more, room);
    }

-- `Record` of a positive sample, in a histogram of fewer than 2 ^ 63 - 1: the sample is counted once,
-- in the bucket `i` with 2 ^ i at most the sample and 2 ^ (i + 1) above it, the counts still add up
-- to the number of samples, and the maximum is the larger of the sample and the old one.
pub record_sample-Records :
    (ns : ℕ) (h : LatencyHistogram)
    → IsHistogram h
    → 0 < ns
    → IsNonneg ns
    → IsNonneg (suc h.count)
    → IsNonneg h.max_ns
    → Records ns h
unfolding record_sample
record_sample-Records ns h v pos r room rm =
    let (lo, hi, small) = bucket_of_lem ns pos r in
    let same = clamp_lem ns pos r in
    record {
      low = lo;
      high = hi;
      bucket = ap (λ n. bump (bucket_of n) h.buckets) same;
      valid =
          subst (λ n. IsHistogram (counted_in n h)) (sym same)
            (counted_in-IsHistogram ns h v room (omega (arith, small)));
      biggest = ap (λ n. if sle n h.max_ns then h.max_ns else n) same ∙ larger ns h.max_ns r rm;
    }

-- The sample that `Percentile` asks for.
asked :
    (n t : ℕ) → IsNonneg n → IsNonneg t → 0 < n → (if sle n t then sub64 n 1 else t) ≡ min t (n - 1)
asked n t r s pos = ground (arith, sle_nonneg n t r s, sub64_lem n 1 pos (omega arith))

-- `Percentile` of a histogram that holds samples, where the floating-point arithmetic asks for a
-- sample number that is not negative (and whatever that number is): for the first bucket `k` up to
-- which more samples were counted than that number, or than the number of the last sample where it
-- is too large, the result is 2 ^ k and a half of it, modulo 2 ^ 63, which makes a difference in
-- bucket 63 alone.
pub percentile-Finds :
    (scale : ℕ → ℕ) (h : LatencyHistogram)
    → IsHistogram h
    → 0 < h.count
    → IsNonneg (scale h.count)
    → Finds (min (scale h.count) (h.count - 1)) 0 0 h.buckets (percentile scale h)
unfolding percentile
percentile-Finds scale h v pos r =
    let some_there : (h.count == 0) ≡ false = ground (arith, pos) in
    rw (percentile, some_there, asked h.count (scale h.count) v.range r pos)
      (find_bucket-Finds h.max_ns (min (scale h.count) (h.count - 1)) 0 0 h.buckets
        (omega (arith, v.size)) (omega arith) (omega (arith, r)) (omega (arith, v.counted, pos))
        (omega (arith, v.counted, v.range)))

clamp_range : (ns : ℕ) → ns < 2 ^ 64 → (0 < clamp ns) × IsNonneg (clamp ns)
unfolding bias
clamp_range ns lt = (ground arith, ground (arith, lt))

-- A sample of either sign keeps the histogram valid and is counted once.
pub record_sample-IsHistogram :
    (ns : ℕ) (h : LatencyHistogram)
    → ns < 2 ^ 64
    → IsHistogram h
    → IsNonneg (suc h.count)
    → IsHistogram (record_sample ns h) × ((record_sample ns h).count ≡ suc h.count)
unfolding record_sample
record_sample-IsHistogram ns h lt v room =
    let (pos, r) = clamp_range ns lt in
    let small = (bucket_of_lem (clamp ns) pos r).2 in
    (
      counted_in-IsHistogram (clamp ns) h v room (omega (arith, small)),
      omega (arith, add64_lem h.count 1 (omega (arith, room))),
    )
