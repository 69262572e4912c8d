-- ===== src/Histogram/Counting.antt =====
-- The kernel side and the export together: samples recorded by the hooks on any CPU, summed by a
-- scrape and exported.
use native.Mathlib.Nat.{add-zero}
use networkdoctor_prestudy.Base.{
  ℕ, suc, ◌+◌, ◌^◌, ◌<◌, ◌≡◌, ap, ◌∙◌, arith, some, List, [], ◌∷◌, u64, take, sum, sum-take-set,
  All, leb, if◌then◌else◌, Bool, true, false,
}
use networkdoctor_prestudy.Platform.{BpfMaps, MapLaws, Float64, FloatLaws}
use networkdoctor_prestudy.Histogram.{nd_log2_bucket, find, emit_log2_histogram}
use networkdoctor_prestudy.Histogram.Bucket.{nd_log2_bucket-le, nd_log2_bucket-lt}
use networkdoctor_prestudy.Histogram.Export.{emit_log2_histogram_lem}
use networkdoctor_prestudy.Kernel.Update.{nd_inc_u64_percpu_array}
use networkdoctor_prestudy.Snapshot.{sum_histogram, sum_u64_per_cpu}
use networkdoctor_prestudy.Snapshot.Sums.{
  get_elem?-sum_histogram, sum_histogram-inc, Readable, inc-Readable,
}

-- The samples at or below a bound.
abbrev pub count_le : ℕ → List (ℕ × ℕ) → ℕ
count_le bound [] = 0
count_le bound ((cpu, v) ∷ samples) = (if leb v bound then 1 else 0) + count_le bound samples

module _ (m : BpfMaps) where
  -- Each hook records a sample by `nd_inc_u64_percpu_array(map, nd_log2_bucket(v))`.
  pub record_all : m.PerCpu ℕ → List (ℕ × ℕ) → m.PerCpu ℕ
  record_all a [] = a
  record_all a ((cpu, v) ∷ samples) =
      record_all (nd_inc_u64_percpu_array m a cpu (nd_log2_bucket v)) samples

mod_step :
    (x y s : ℕ) (t : Bool)
    → x + (if t then s else 0) ≡ y + (if t then u64 (s + 1) else 0)
    → u64 x ≡ u64 (y + (if t then 1 else 0))
mod_step x y s true e = omega arith
mod_step x y s false e = omega arith

module _ (m : BpfMaps) (laws : MapLaws m) (num_cpu cpus : ℕ) where
  prefix-inc :
      (a : m.PerCpu ℕ) (cpu v i : ℕ)
      → Readable m laws num_cpu cpus a
      → cpu < cpus
      → i < 31
      → u64 (
          sum (
            take
              (suc i)
              (sum_histogram m num_cpu (nd_inc_u64_percpu_array m a cpu (nd_log2_bucket v)))))
        ≡ u64 (sum (take (suc i) (sum_histogram m num_cpu a)) + (if leb v (2 ^ i) then 1 else 0))
  prefix-inc a cpu v i r h k =
      let b = nd_log2_bucket v in
      let s = sum_u64_per_cpu m num_cpu a b in
      let (vs, found, len) = r b (nd_log2_bucket-lt v) in
      rw
        (← nd_log2_bucket-le v i k, sum_histogram-inc m laws num_cpu a cpu b vs found (omega arith))
        (mod_step _ _ s _ (
          sum-take-set (sum_histogram m num_cpu a) b i s (u64 (s + 1))
            (get_elem?-sum_histogram m laws num_cpu a b (nd_log2_bucket-lt v))))

  record_all-prefix :
      (samples : List (ℕ × ℕ)) (a : m.PerCpu ℕ) (i : ℕ)
      → Readable m laws num_cpu cpus a
      → All (λ s. s.0 < cpus) samples
      → i < 31
      → u64 (sum (take (suc i) (sum_histogram m num_cpu (record_all m a samples))))
        ≡ u64 (sum (take (suc i) (sum_histogram m num_cpu a)) + count_le (2 ^ i) samples)
  unfolding record_all
  record_all-prefix [] a i r h k = rw add-zero
  record_all-prefix ((cpu, v) ∷ samples) a i r h k =
      let b = nd_log2_bucket v in
      omega (
        arith,
        record_all-prefix samples (nd_inc_u64_percpu_array m a cpu b) i
            (inc-Readable m laws num_cpu cpus a cpu b r h.0) h.1 k,
        prefix-inc a cpu v i r h.0 k,
      )

  -- Whatever samples the hooks record in a histogram array that user space can read, on whichever of
  -- its CPUs, the next scrape exports under the bound 2 ^ i, for every i below 31, what the array
  -- held up to that bound before plus the number of the samples that are at most 2 ^ i, modulo
  -- 2 ^ 64.
  pub exported-count_le :
      (f : Float64) (fl : FloatLaws f) (samples : List (ℕ × ℕ)) (a : m.PerCpu ℕ) (i : ℕ)
      → Readable m laws num_cpu cpus a
      → All (λ s. s.0 < cpus) samples
      → i < 31
      → find f
          (emit_log2_histogram f (sum_histogram m num_cpu (record_all m a samples))).buckets
          (f.of_u64 (2 ^ i))
        ≡ some (u64 (sum (take (suc i) (sum_histogram m num_cpu a)) + count_le (2 ^ i) samples))
  exported-count_le f fl samples a i r h k =
      (emit_log2_histogram_lem f fl (sum_histogram m num_cpu (record_all m a samples)) i k).2
      ∙ ap some (record_all-prefix samples a i r h k)
