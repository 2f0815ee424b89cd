-- ===== src/Tests/Latency.antt =====
-- The theorems on the histogram, applied to small ones.
use oktrading.Prelude.{◌/◌, ◌≡◌, refl, ◌∷◌, arith, replicate}
use oktrading.Histogram.{LatencyHistogram, percentile, record_sample, merge}
use oktrading.Histogram.Merge.{merge-record_sample}
use oktrading.Histogram.Percentile.{
  sum_of, IsHistogram, Records, record_sample-Records, Finds, percentile-Finds,
}

abbrev pub nothing : LatencyHistogram
nothing = record { buckets = replicate 64 0; count = 0; sum = 0; max_ns = 0 }

pub nothing-IsHistogram : IsHistogram nothing
unfolding sum_of
nothing-IsHistogram = record { size = refl; counted = refl; range = omega arith }

record_sample-Records_example : Records 700 nothing
record_sample-Records_example =
    record_sample-Records 700 nothing nothing-IsHistogram (omega arith) (omega arith) (omega arith)
      (omega arith)

abbrev three_samples : LatencyHistogram
three_samples = record {
  buckets = 0 ∷ 0 ∷ 0 ∷ 2 ∷ 1 ∷ replicate 59 0;
  count = 3;
  sum = 40;
  max_ns = 20;
}

three_samples-IsHistogram : IsHistogram three_samples
unfolding sum_of
three_samples-IsHistogram = record { size = refl; counted = refl; range = omega arith }

-- The median of three samples.
percentile-Finds_example : Finds 1 0 0 three_samples.buckets (percentile (λ n. n / 2) three_samples)
percentile-Finds_example =
    percentile-Finds (λ n. n / 2) three_samples three_samples-IsHistogram (omega arith)
      (omega arith)

merge-record_sample_example :
    merge three_samples (record_sample 700 nothing)
    ≡ record_sample 700 (merge three_samples nothing)
merge-record_sample_example = merge-record_sample 700 three_samples nothing refl
