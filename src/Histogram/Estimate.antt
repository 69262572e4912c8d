-- ===== src/Histogram/Estimate.antt =====
-- How good the upper bound of a bucket is as an estimate of a sample in it, which is what the sum of
-- the exported histogram is made of.
use native.Mathlib.Nat.{pow-suc}
use networkdoctor_prestudy.Base.{
  ℕ, zero, suc, ◌*◌, ◌^◌, ◌<◌, ◌≡◌, sym, ap, ◌∙◌, arith, leb, le→leb, dec_lt,
}
use networkdoctor_prestudy.Histogram.{nd_log2_bucket, log2_upper_bound}
use networkdoctor_prestudy.Histogram.Bucket.{
  Picks, nd_log2_bucket-Picks, log2_upper_bound_lem, pow2_mono,
}

halves : (b v : ℕ) → 1 < v → Picks 0 v b → 2 ^ b < 2 * v
halves zero v h p = omega arith
halves (suc b) v h p = omega (arith, pow-suc 2 b, p.below b (omega arith) (omega arith))

bound-le : (b v : ℕ) → Picks 0 v b → leb v (2 ^ b) ≡ leb v (2 ^ 31)
bound-le b v p = elim (dec_lt b 31) [
  | yes h ↦
      le→leb v (2 ^ b) (p.above h)
      ∙ sym (le→leb v (2 ^ 31) (omega (arith, p.above h, pow2_mono b 31 (omega arith))))
  | no h ↦ let e : b ≡ 31 = let t = p.top in omega arith in ap (λ (x : ℕ). leb v (2 ^ x)) e
]

-- The upper bound of the bucket of a sample above 1 is below twice the sample; and it is an upper
-- bound of the sample exactly when the sample is at most 2 ^ 31.
pub log2_upper_bound_estimates :
    (v : ℕ)
    → 1 < v
    → (log2_upper_bound (nd_log2_bucket v) < 2 * v)
      × (leb v (log2_upper_bound (nd_log2_bucket v)) ≡ leb v (2 ^ 31))
log2_upper_bound_estimates v h =
    let p = nd_log2_bucket-Picks v in
    let t = p.top in
    rw (log2_upper_bound_lem (nd_log2_bucket v) (omega arith))
      (halves (nd_log2_bucket v) v h p, bound-le (nd_log2_bucket v) v p)
