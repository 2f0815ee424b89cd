-- ===== src/Histogram.antt =====
-- cmd/stress/histogram.go: a latency histogram with a bucket for every power of two. The calls are
-- single steps: every counter is changed by one atomic addition, and the maximum by a loop that ends
-- with the larger value.

pub mod Percentile
pub mod Merge
use oktrading.Prelude.{ℕ, zero, suc, ◌+◌, ◌-◌, ◌/◌, ◌^◌, List, [], ◌∷◌, ltb, ◌==◌, if◌then◌else◌}
use oktrading.Int64.{add64, sub64, slt, sle}
use oktrading.Bits.{bits_len}

-- `buckets` are 64.
pub record LatencyHistogram : Type 0 where
  pub buckets : List ℕ
  pub count : ℕ
  pub sum : ℕ
  pub max_ns : ℕ

-- `buckets[i] += 1`
unfoldable pub bump : ℕ → List ℕ → List ℕ
bump i [] = []
bump zero (c ∷ cs) = add64 c 1 ∷ cs
bump (suc i) (c ∷ cs) = c ∷ bump i cs

-- The sample as `Record` counts it, and its bucket.
abbrev pub clamp : ℕ → ℕ
clamp ns = if sle ns 0 then 1 else ns

pub bucket_of : ℕ → ℕ
bucket_of ns = (if ltb 63 (bits_len ns) then 63 else bits_len ns) - 1

-- `Record`.
pub record_sample : ℕ → LatencyHistogram → LatencyHistogram
unfolding bucket_of bump
record_sample sample h =
    let ns = clamp sample in
    record h {
      buckets = bump (bucket_of ns) h.buckets;
      count = add64 h.count 1;
      sum = add64 h.sum ns;
      max_ns = if sle ns h.max_ns then h.max_ns else ns;
    }

unfoldable pub merge_buckets : List ℕ → List ℕ → List ℕ
merge_buckets (c ∷ cs) (d ∷ ds) = add64 c d ∷ merge_buckets cs ds
merge_buckets cs ds = cs

-- `Merge`
pub merge : LatencyHistogram → LatencyHistogram → LatencyHistogram
merge h other = record h {
  buckets = merge_buckets h.buckets other.buckets;
  count = add64 h.count other.count;
  sum = add64 h.sum other.sum;
  max_ns = if sle other.max_ns h.max_ns then h.max_ns else other.max_ns;
}

-- `low >> 1` on `int64`, which keeps the sign.
unfoldable pub shift_right : ℕ → ℕ
shift_right low = if ltb low (2 ^ 63) then low / 2 else 2 ^ 63 + low / 2

-- The middle of bucket `i`.
unfoldable pub midpoint : ℕ → ℕ
unfolding shift_right
midpoint i = let low = 2 ^ i in add64 low (shift_right low)

-- The loop of `Percentile`, from bucket `i` on.
pub find_bucket : ℕ → ℕ → ℕ → ℕ → List ℕ → ℕ
unfolding midpoint
find_bucket biggest target cumulative i [] = biggest
find_bucket biggest target cumulative i (c ∷ cs) =
    let cumulative' = add64 cumulative c in
    let later = find_bucket biggest target cumulative' (suc i) cs in
    if slt target cumulative' then midpoint i else later

-- `Percentile`: `scale n` is `int64(float64(n) * p)`, which floating-point arithmetic computes.
pub percentile : (ℕ → ℕ) → LatencyHistogram → ℕ
unfolding find_bucket
percentile scale h =
    let target = scale h.count in
    if h.count == 0
    then 0
    else find_bucket h.max_ns (if sle h.count target then sub64 h.count 1 else target) 0 0 h.buckets
