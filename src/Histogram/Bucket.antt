-- ===== src/Histogram/Bucket.antt =====
-- The bucket that nd_log2_bucket picks.
use native.Mathlib.Nat.{pow-le-pow_right}
use networkdoctor_prestudy.Base.{
  ℕ, zero, suc, ◌+◌, ◌^◌, ◌≤◌, ◌<◌, ◌≡◌, refl, inl, inr, arith, leb, ==→eq, ◌==◌, Bool-cases,
  leb→le, le→leb, lt→leb, leb_false→lt, sym, u64, dec_lt,
}
use networkdoctor_prestudy.Histogram.{bucket_from, nd_log2_bucket, log2_upper_bound, hist_buckets}

pub pow2_mono : (i j : ℕ) → i ≤ j → 2 ^ i ≤ 2 ^ j
pow2_mono i j h = pow-le-pow_right (omega arith) h

-- `1ULL << i` does not wrap below 64.
pub pow2_fits : (i : ℕ) → i < 64 → u64 (2 ^ i) ≡ 2 ^ i
pow2_fits i h = omega (arith, pow2_mono i 63 (omega arith))

-- What the loop returns, from `i` on with `n` rounds left.
pub record Picks (i v b : ℕ) : Type 0 where
  pub from : i ≤ b
  pub top : b ≤ 31
  pub above : b < 31 → v ≤ 2 ^ b
  pub below : (j : ℕ) → i ≤ j → j < b → 2 ^ j < v

miss-Picks : (i v b : ℕ) → 2 ^ i < v → Picks (i + 1) v b → Picks i v b
miss-Picks i v b h p = record {
  from = omega arith;
  top = p.top;
  above = p.above;
  below = λ j lo hi. elim (dec_lt i j) [
    | yes q ↦ p.below j (omega arith) hi
    | no q ↦ let e : j ≡ i = omega arith in rw e h
  ];
}

bucket_from-Picks : (n i v : ℕ) → i + n ≡ 31 → Picks i v (bucket_from n i v)
unfolding bucket_from
bucket_from-Picks zero i v e = record {
  from = omega arith;
  top = omega arith;
  above = λ h. omega arith;
  below = λ j h k. let k' : j < 31 = k in absurd (omega arith);
}
bucket_from-Picks (suc n) i v e = elim (Bool-cases (leb v (u64 (2 ^ i)))) [
  | inl t ↦ rw t (record {
    from = omega arith;
    top = omega arith;
    above = λ h. omega (arith, leb→le _ _ t, pow2_fits i (omega arith));
    below = λ j h k. omega arith;
  })
  | inr t ↦ rw t (
      miss-Picks i v _ (omega (arith, leb_false→lt v _ t, pow2_fits i (omega arith)))
        (bucket_from-Picks n (i + 1) v (omega arith)))
]

pub nd_log2_bucket-Picks : (v : ℕ) → Picks 0 v (nd_log2_bucket v)
unfolding nd_log2_bucket
nd_log2_bucket-Picks v = elim (Bool-cases (v == 0)) [
  | inl t ↦ rw t (record {
    from = omega arith;
    top = omega arith;
    above = λ h. omega (arith, ==→eq v 0 t);
    below = λ j h k. absurd (omega arith);
  })
  | inr t ↦ rw t (bucket_from-Picks 31 0 v refl)
]

pub nd_log2_bucket-lt : (v : ℕ) → nd_log2_bucket v < hist_buckets
nd_log2_bucket-lt v = omega (arith, (nd_log2_bucket-Picks v).top)

-- The bucket is the least power of two that holds the sample: a sample lies in one of the buckets up
-- to `i`, for any `i` but the last, exactly when it is at most 2 ^ i.
pub nd_log2_bucket-le : (v i : ℕ) → i < 31 → leb (nd_log2_bucket v) i ≡ leb v (2 ^ i)
nd_log2_bucket-le v i h = elim (Bool-cases (leb (nd_log2_bucket v) i)) [
  | inl t ↦ rw t (
      sym (le→leb v (2 ^ i) (omega (arith, p.above, leb→le _ _ t, pow2_mono (nd_log2_bucket v) i))))
  | inr t ↦ rw t (sym (lt→leb v (2 ^ i) (p.below i (omega arith) (leb_false→lt _ _ t))))
]
  where
    p : Picks 0 v (nd_log2_bucket v)
    p = nd_log2_bucket-Picks v

-- At a bucket below 63 the upper bound that user space exports is the kernel's 2 ^ i.
pub log2_upper_bound_lem : (i : ℕ) → i < 63 → log2_upper_bound i ≡ 2 ^ i
unfolding log2_upper_bound
log2_upper_bound_lem i h = rw (lt→leb 63 i h) (pow2_fits i (omega arith))
