-- ===== src/Histogram/Merge.antt =====
-- cmd/stress/histogram.go, `Merge`.
use oktrading.Prelude.{ℕ, zero, suc, ◌≡◌, refl, ap, List, [], ◌∷◌, arith, length, if◌then◌else◌}
use oktrading.Int64.{add64, sle}
use oktrading.Histogram.{
  LatencyHistogram, bump, bucket_of, clamp, record_sample, merge_buckets, merge,
}

merge_buckets-bump :
    (i : ℕ) (cs ds : List ℕ)
    → length cs ≡ length ds
    → merge_buckets cs (bump i ds) ≡ bump i (merge_buckets cs ds)
unfolding merge_buckets bump add64
merge_buckets-bump i [] ds e = refl
merge_buckets-bump i (c ∷ cs) [] e = absurd (omega (arith, e))
merge_buckets-bump zero (c ∷ cs) (d ∷ ds) e = ap (λ x. x ∷ merge_buckets cs ds) (omega arith)
merge_buckets-bump (suc i) (c ∷ cs) (d ∷ ds) e =
    ap (λ r. add64 c d ∷ r) (merge_buckets-bump i cs ds (omega (arith, e)))

add64_assoc : (a b c : ℕ) → add64 a (add64 b c) ≡ add64 (add64 a b) c
unfolding add64
add64_assoc a b c = omega arith

-- `max` on `int64`
abbrev larger : ℕ → ℕ → ℕ
larger a b = if sle b a then a else b

larger_assoc : (a b c : ℕ) → larger a (larger b c) ≡ larger (larger a b) c
larger_assoc a b c = ground (arith)

abbrev of_fields : List ℕ → ℕ → ℕ → ℕ → LatencyHistogram
of_fields bs n t l = record { buckets = bs; count = n; sum = t; max_ns = l }

of_fields_eq :
    {bs cs : List ℕ} {n n' t t' l l' : ℕ}
    → bs ≡ cs
    → n ≡ n'
    → t ≡ t'
    → l ≡ l'
    → of_fields bs n t l ≡ of_fields cs n' t' l'
of_fields_eq p q r s = cc

-- For histograms of as many buckets, merging one into which a sample was recorded is merging it without
-- the sample and recording the sample afterwards, also where the counters wrap.
pub merge-record_sample :
    (sample : ℕ) (h other : LatencyHistogram)
    → length h.buckets ≡ length other.buckets
    → merge h (record_sample sample other) ≡ record_sample sample (merge h other)
unfolding merge record_sample
merge-record_sample sample h other e =
    of_fields_eq (merge_buckets-bump (bucket_of (clamp sample)) h.buckets other.buckets e)
      (add64_assoc h.count other.count 1) (add64_assoc h.sum other.sum (clamp sample))
      (larger_assoc h.max_ns other.max_ns (clamp sample))
