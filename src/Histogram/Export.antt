-- ===== src/Histogram/Export.antt =====
-- What emitLog2Histogram hands to Prometheus.
use native.Mathlib.Nat.{pow-suc}
use networkdoctor_prestudy.Base.{
  sum, sum-take-suc, ℕ, zero, suc, ◌+◌, ◌-◌, ◌^◌, ◌≤◌, ◌<◌, ◌≡◌, refl, sym, ap, ◌∙◌, arith, List,
  [], ◌∷◌, ◌++◌, false, some, get_or, take, All, length, u64, IsU64, dec_lt,
}
use native.Mathlib.Numerals.{add-one}
use mathlib.Core.List.{append-nil, append_assoc}
use networkdoctor_prestudy.Platform.{Float64, FloatLaws}
use networkdoctor_prestudy.Histogram.{
  hist_buckets, assign, find, total_loop, cumulative_loop, emit_log2_histogram,
}
use networkdoctor_prestudy.Histogram.Bucket.{log2_upper_bound_lem, pow2_mono}

advance :
    (i : ℕ) (c : List ℕ) → u64 (u64 (sum (take i c)) + get_or c i 0) ≡ u64 (sum (take (suc i) c))
advance i c = rw (sum-take-suc c i) (omega arith)

pow2_strict : (a i : ℕ) → a < i → 2 ^ a < 2 ^ i
pow2_strict a i h = omega (arith, pow2_mono (suc a) i h, pow-suc 2 a, pow2_mono 0 a (omega arith))

module _ (f : Float64) (laws : FloatLaws f) where
  open f use {F, of_u64, eq}

  -- The keys that the rounds before `i` have assigned.
  abbrev Fresh : ℕ → List (F × ℕ) → Type 0
  Fresh i = All (λ e. (a : ℕ) × (e.0 ≡ of_u64 (2 ^ a)) × (a < i))

  key_ne : (a i : ℕ) → a < i → i ≤ 53 → eq (of_u64 (2 ^ a)) (of_u64 (2 ^ i)) ≡ false
  key_ne a i h k =
      laws.eq_exact (2 ^ a) (2 ^ i) (pow2_mono a 53 (omega arith)) (pow2_mono i 53 k)
        (omega (arith, pow2_strict a i h))

  key_ne' : (a i : ℕ) → i < a → a ≤ 53 → eq (of_u64 (2 ^ a)) (of_u64 (2 ^ i)) ≡ false
  key_ne' a i h k =
      laws.eq_exact (2 ^ a) (2 ^ i) (pow2_mono a 53 k) (pow2_mono i 53 (omega arith))
        (omega (arith, pow2_strict i a h))

  assign-Fresh :
      (m : List (F × ℕ)) (i v : ℕ)
      → i ≤ 53
      → Fresh i m
      → assign f m (of_u64 (2 ^ i)) v ≡ m ++ ((of_u64 (2 ^ i), v) ∷ [])
  unfolding assign
  assign-Fresh [] i v h fr = refl
  assign-Fresh ((j, w) ∷ m) i v h fr =
      rw (miss fr.0) (ap (λ rest. (j, w) ∷ rest) (assign-Fresh m i v h fr.1))
    where
      miss : ((a : ℕ) × (j ≡ of_u64 (2 ^ a)) × (a < i)) → eq j (of_u64 (2 ^ i)) ≡ false
      miss (a, e, lt) = rw e (key_ne a i lt h)

  Fresh-weaken : (m : List (F × ℕ)) (i : ℕ) → Fresh i m → Fresh (i + 1) m
  Fresh-weaken [] i fr = tt
  Fresh-weaken (x ∷ m) i fr = ((fr.0.0, fr.0.1, omega arith), Fresh-weaken m i fr.1)

  Fresh-append :
      (m : List (F × ℕ)) (i v : ℕ) → Fresh i m → Fresh (i + 1) (m ++ ((of_u64 (2 ^ i), v) ∷ []))
  Fresh-append [] i v fr = ((i, refl, omega arith), tt)
  Fresh-append (x ∷ m) i v fr = ((fr.0.0, fr.0.1, omega arith), Fresh-append m i v fr.1)

  -- The entries that the rounds from `i` on add.
  entries : ℕ → ℕ → List ℕ → ℕ → List (F × ℕ)
  entries zero i c r = []
  entries (suc n) i c r =
      let r' = u64 (r + get_or c i 0) in (of_u64 (2 ^ i), r') ∷ entries n (i + 1) c r'

  cumulative_loop-entries :
      (n i : ℕ) (c : List ℕ) (r : ℕ) (m : List (F × ℕ))
      → i + n ≤ 53
      → Fresh i m
      → cumulative_loop f n i c r m ≡ m ++ entries n i c r
  unfolding cumulative_loop entries
  cumulative_loop-entries zero i c r m h fr = sym (append-nil m)
  cumulative_loop-entries (suc n) i c r m h fr =
      let r' = u64 (r + get_or c i 0) in
      let last : List (F × ℕ) = (of_u64 (2 ^ i), r') ∷ [] in
      rw (log2_upper_bound_lem i (omega arith), assign-Fresh m i r' (omega arith) fr)
        (cumulative_loop-entries n (i + 1) c r' (m ++ last) (omega arith) (Fresh-append m i r' fr)
          ∙ append_assoc m last (entries n (i + 1) c r'))

  find-entries :
      (n i : ℕ) (c : List ℕ) (j : ℕ)
      → i + n ≤ 53
      → i ≤ j
      → j < i + n
      → find f (entries n i c (u64 (sum (take i c)))) (of_u64 (2 ^ j))
        ≡ some (u64 (sum (take (suc j) c)))
  unfolding find entries
  find-entries zero i c j h lo hi = absurd (omega arith)
  find-entries (suc n) i c j h lo hi = elim (dec_lt i j) [
    | yes p ↦
        rw (key_ne i j p (omega arith), next)
          (find-entries n (i + 1) c j (omega arith) (omega arith) (omega arith))
    | no p ↦
        let e : j ≡ i = omega arith in
        rw (e, laws.eq_self (2 ^ i) (pow2_mono i 53 (omega arith))) (ap some (advance i c))
  ]
    where
      next : u64 (u64 (sum (take i c)) + get_or c i 0) ≡ u64 (sum (take (i + 1) c))
      next = rw add-one (advance i c)

  total_loop-count :
      (c : List ℕ) (i t : ℕ) (s : F) → IsU64 t → (total_loop f c i t s).0 ≡ u64 (t + sum c)
  unfolding total_loop
  total_loop-count [] i t s h = omega arith
  total_loop-count (x ∷ c) i t s h =
      total_loop-count c (i + 1) (u64 (t + x)) _ (omega arith) ∙ omega arith

  length-entries : (n i : ℕ) (c : List ℕ) (r : ℕ) → length (entries n i c r) ≡ n
  unfolding entries
  length-entries zero i c r = refl
  length-entries (suc n) i c r = ap suc (length-entries n (i + 1) c _)

  emit-buckets : (c : List ℕ) → (emit_log2_histogram f c).buckets ≡ entries 31 0 c 0
  unfolding emit_log2_histogram
  emit-buckets c = cumulative_loop-entries 31 0 c 0 [] (omega arith) tt

  emit-count : (c : List ℕ) → (emit_log2_histogram f c).count ≡ u64 (sum c)
  unfolding emit_log2_histogram
  emit-count c = total_loop-count c 0 0 f.zero (omega arith) ∙ omega arith

  -- The exported histogram, for any bucket counts and any i below 31: it has 31 buckets; its count is
  -- the sum modulo 2 ^ 64 of all the counts; and its bucket at 2 ^ i holds the sum modulo 2 ^ 64 of
  -- the counts up to bucket i.
  pub emit_log2_histogram_lem :
      (c : List ℕ) (i : ℕ)
      → i < 31
      → (length (emit_log2_histogram f c).buckets ≡ hist_buckets - 1)
        × ((emit_log2_histogram f c).count ≡ u64 (sum c))
        × (find f (emit_log2_histogram f c).buckets (of_u64 (2 ^ i))
            ≡ some (u64 (sum (take (suc i) c))))
  emit_log2_histogram_lem c i h = (
    rw (emit-buckets c) (length-entries 31 0 c 0),
    emit-count c,
    rw (emit-buckets c) (find-entries 31 0 c i (omega arith) (omega arith) (omega arith)),
  )
