-- ===== src/Snapshot/Sums.antt =====
-- How an increment on one CPU shows in the sums over all CPUs.
use networkdoctor_prestudy.Base.{
  get_elem?-map-range_from, length-set, sum, sum-set, get_elem?-lt, map-range_from-set, ℕ, ◌+◌, ◌<◌,
  ◌≡◌, ◌≢◌, ap, ◌∙◌, arith, none, some, List, [], ◌∷◌, u64, length, get_elem?, set, inl, inr,
  Option-cases, IsU64, ℕ_discrete,
}
use networkdoctor_prestudy.Platform.{BpfMaps, MapLaws}
use networkdoctor_prestudy.Histogram.{hist_buckets}
use networkdoctor_prestudy.Kernel.Update.{modify_slot, nd_inc_u64_percpu_array}
use networkdoctor_prestudy.Snapshot.{add_all, lookup_per_cpu, sum_u64_per_cpu, sum_histogram}

pub add_all-sum : (t : ℕ) (vs : List ℕ) → IsU64 t → add_all t vs ≡ u64 (t + sum vs)
unfolding add_all
add_all-sum t [] h = omega arith
add_all-sum t (v ∷ vs) h = add_all-sum (u64 (t + v)) vs (omega arith) ∙ omega arith

pub add_all-set :
    (vs : List ℕ) (cpu old d : ℕ)
    → get_elem? vs cpu ≡ some old
    → add_all 0 (set vs cpu (u64 (old + d))) ≡ u64 (add_all 0 vs + d)
add_all-set vs cpu old d e =
    rw (add_all-sum 0 vs (omega arith), add_all-sum 0 (set vs cpu (u64 (old + d))) (omega arith))
      (omega (arith, sum-set vs cpu old (u64 (old + d)) e))

module _ (m : BpfMaps) (laws : MapLaws m) (num_cpu : ℕ) where
  open m use {PerCpu, slot, store, read}

  pub lookup_per_cpu-modify :
      {V : Type 0} (a : PerCpu V) (cpu key : ℕ) (f : V → V) (vs : List V) (old : V)
      → lookup_per_cpu m num_cpu a key ≡ some vs
      → get_elem? vs cpu ≡ some old
      → lookup_per_cpu m num_cpu (modify_slot m a cpu key f) key ≡ some (set vs cpu (f old))
  unfolding lookup_per_cpu modify_slot
  lookup_per_cpu-modify a cpu key f vs old e g = ground (
    arith,
    laws.slot-read a cpu key (some num_cpu) vs,
    laws.slot-read a cpu key none vs,
    laws.read-store a cpu key (some num_cpu) (f old),
    laws.read-store a cpu key none (f old),
  )

  pub lookup_per_cpu-modify_ne :
      {V : Type 0} (a : PerCpu V) (cpu key other : ℕ) (f : V → V)
      → key ≢ other
      → lookup_per_cpu m num_cpu (modify_slot m a cpu key f) other
        ≡ lookup_per_cpu m num_cpu a other
  unfolding lookup_per_cpu modify_slot
  lookup_per_cpu-modify_ne a cpu key other f h = elim (Option-cases (slot a cpu key)) [
    | inl p ↦ rw (p, modify_slot)
    | inr (v, p) ↦ ground (
      arith,
      laws.read-store_ne a cpu key other (some num_cpu) (f v) h,
      laws.read-store_ne a cpu key other none (f v) h,
    )
  ]

  -- The sum over the CPUs of a readable key moves by what one CPU adds to its slot.
  pub sum_u64_per_cpu-add :
      (a : PerCpu ℕ) (cpu key d : ℕ) (vs : List ℕ)
      → lookup_per_cpu m num_cpu a key ≡ some vs
      → cpu < length vs
      → sum_u64_per_cpu m num_cpu (modify_slot m a cpu key (λ v. u64 (v + d))) key
        ≡ u64 (sum_u64_per_cpu m num_cpu a key + d)
  unfolding sum_u64_per_cpu
  sum_u64_per_cpu-add a cpu key d vs e h =
      let (old, g) = get_elem?-lt vs cpu h in
      rw (sum_u64_per_cpu, e, lookup_per_cpu-modify a cpu key (λ v. u64 (v + d)) vs old e g)
        (add_all-set vs cpu old d g)

  pub sum_u64_per_cpu-other :
      (a : PerCpu ℕ) (cpu key other : ℕ) (f : ℕ → ℕ)
      → key ≢ other
      → sum_u64_per_cpu m num_cpu (modify_slot m a cpu key f) other
        ≡ sum_u64_per_cpu m num_cpu a other
  unfolding sum_u64_per_cpu
  sum_u64_per_cpu-other a cpu key other f h =
      rw (sum_u64_per_cpu, lookup_per_cpu-modify_ne a cpu key other f h)

  -- An increment of a histogram array on any CPU that user space sees raises the bucket's sum by
  -- one, modulo 2 ^ 64, and no other.
  pub sum_histogram-inc :
      (a : PerCpu ℕ) (cpu key : ℕ) (vs : List ℕ)
      → lookup_per_cpu m num_cpu a key ≡ some vs
      → cpu < length vs
      → sum_histogram m num_cpu (nd_inc_u64_percpu_array m a cpu key)
        ≡ set (sum_histogram m num_cpu a) key (u64 (sum_u64_per_cpu m num_cpu a key + 1))
  unfolding sum_histogram nd_inc_u64_percpu_array
  sum_histogram-inc a cpu key vs e h =
      map-range_from-set (sum_u64_per_cpu m num_cpu a)
        (sum_u64_per_cpu m num_cpu (modify_slot m a cpu key (λ v. u64 (v + 1)))) key 0 hist_buckets
        key (omega arith) (λ j ne. sum_u64_per_cpu-other a cpu key j (λ v. u64 (v + 1)) ne)
      ∙ ap (set (sum_histogram m num_cpu a) key) (sum_u64_per_cpu-add a cpu key 1 vs e h)

  -- User space can read every key below `n`, with one value for each of `cpus` CPUs.
  abbrev pub ReadableBelow : ℕ → ℕ → PerCpu ℕ → Type 0
  ReadableBelow n cpus a =
      (key : ℕ)
      → key < n
      → (vs : List ℕ) × (lookup_per_cpu m num_cpu a key ≡ some vs) × (length vs ≡ cpus)

  pub modify-ReadableBelow :
      (n cpus : ℕ) (a : PerCpu ℕ) (cpu key : ℕ) (f : ℕ → ℕ)
      → ReadableBelow n cpus a
      → cpu < cpus
      → ReadableBelow n cpus (modify_slot m a cpu key f)
  modify-ReadableBelow n cpus a cpu key f r h other lt = elim (ℕ_discrete key other) [
    | yes e ↦
        let (vs, found, len) = r key (rw e lt) in
        let (old, g) = get_elem?-lt vs cpu (omega arith) in
        (
          set vs cpu (f old),
          rw (← e) (lookup_per_cpu-modify a cpu key f vs old found g),
          length-set vs cpu _ ∙ len,
        )
    | no ne ↦
        let (vs, found, len) = r other lt in
        (vs, lookup_per_cpu-modify_ne a cpu key other f ne ∙ found, len)
  ]

  -- Every bucket of a histogram.
  abbrev pub Readable : ℕ → PerCpu ℕ → Type 0
  Readable cpus a = ReadableBelow hist_buckets cpus a

  pub inc-Readable :
      (cpus : ℕ) (a : PerCpu ℕ) (cpu key : ℕ)
      → Readable cpus a
      → cpu < cpus
      → Readable cpus (nd_inc_u64_percpu_array m a cpu key)
  unfolding nd_inc_u64_percpu_array
  inc-Readable cpus a cpu key r h =
      modify-ReadableBelow hist_buckets cpus a cpu key (λ v. u64 (v + 1)) r h

  pub get_elem?-sum_histogram :
      (a : PerCpu ℕ) (b : ℕ)
      → b < hist_buckets
      → get_elem? (sum_histogram m num_cpu a) b ≡ some (sum_u64_per_cpu m num_cpu a b)
  unfolding sum_histogram
  get_elem?-sum_histogram a b h =
      get_elem?-map-range_from (sum_u64_per_cpu m num_cpu a) 0 hist_buckets b b h (omega arith)
