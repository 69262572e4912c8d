-- ===== src/Histogram.antt =====
-- The log2 histograms: nd_log2_bucket of bpf/networkdoctor.bpf.c, which picks a sample's bucket, and
-- internal/metrics/histogram.go, which turns the bucket counts into a Prometheus histogram.
pub mod Bucket
pub mod Estimate
pub mod Export
pub mod Counting
use networkdoctor_prestudy.Base.{
  ℕ, zero, suc, ◌+◌, ◌-◌, ◌*◌, ◌^◌, Bool, Option, none, some, List, [], ◌∷◌, leb, u64, get_or,
  if◌then◌else◌, ◌==◌,
}
use networkdoctor_prestudy.Platform.{Float64}

-- HistBuckets and ND_HIST_BUCKETS.
abbrev pub hist_buckets : ℕ
hist_buckets = 32

-- The loop of nd_log2_bucket from `i`, with `n` rounds left.
bucket_from : ℕ → ℕ → ℕ → ℕ
bucket_from zero i v = hist_buckets - 1
bucket_from (suc n) i v =
    let rest = bucket_from n (i + 1) v in if leb v (u64 (2 ^ i)) then i else rest

unfoldable pub nd_log2_bucket : ℕ → ℕ
unfolding bucket_from
nd_log2_bucket v = if v == 0 then 0 else bucket_from (hist_buckets - 1) 0 v

unfoldable pub log2_upper_bound : ℕ → ℕ
log2_upper_bound bucket = if leb 63 bucket then 2 ^ 64 - 1 else u64 (2 ^ bucket)

module _ (f : Float64) where
  open f use {F, add, mul, of_u64, eq}

  -- `m[k] = v` on a map[float64]uint64.
  pub assign : List (F × ℕ) → F → ℕ → List (F × ℕ)
  assign [] k v = (k, v) ∷ []
  assign ((j, w) ∷ m) k v = if eq j k then (j, v) ∷ m else (j, w) ∷ assign m k v

  -- `m[k]`.
  pub find : List (F × ℕ) → F → Option ℕ
  find [] k = none
  find ((j, w) ∷ m) k = if eq j k then some w else find m k

  -- The first loop of emitLog2Histogram: the total and the estimated sum.
  total_loop : List ℕ → ℕ → ℕ → F → ℕ × F
  total_loop [] i total sum = (total, sum)
  total_loop (count ∷ counts) i total sum =
      total_loop counts (i + 1) (u64 (total + count))
        (add sum (mul (of_u64 count) (of_u64 (log2_upper_bound i))))

  -- The second loop, from `i` with `n` rounds left.
  cumulative_loop : ℕ → ℕ → List ℕ → ℕ → List (F × ℕ) → List (F × ℕ)
  unfolding assign
  cumulative_loop zero i counts running m = m
  cumulative_loop (suc n) i counts running m =
      let running' = u64 (running + get_or counts i 0) in
      cumulative_loop n (i + 1) counts running' (assign m (of_u64 (log2_upper_bound i)) running')

  -- The arguments of prometheus.MustNewConstHistogram.
  pub record HistogramSample : Type 0 where
    pub count : ℕ
    pub sum : F
    pub buckets : List (F × ℕ)

  unfoldable pub emit_log2_histogram : List ℕ → HistogramSample
  unfolding total_loop cumulative_loop
  emit_log2_histogram counts =
      let (total, estimated_sum) = total_loop counts 0 0 f.zero in
      record {
        count = total;
        sum = estimated_sum;
        buckets = cumulative_loop (hist_buckets - 1) 0 counts 0 [];
      }
