-- ===== src/System/Courses/Counting.antt =====
-- How steps add to a total over the CPUs' slots of counters.
use networkdoctor_prestudy.Base.{
  ℕ, ◌+◌, ◌<◌, ◌≡◌, ◌∙◌, arith, some, List, u64, length, length-set, set, get_elem?-lt,
}
use networkdoctor_prestudy.Platform.{BpfMaps, MapLaws}
use networkdoctor_prestudy.Kernel.Update.{modify_slot}
use networkdoctor_prestudy.Snapshot.{lookup_per_cpu}
use networkdoctor_prestudy.Snapshot.Sums.{lookup_per_cpu-modify}

module _ (m : BpfMaps) (laws : MapLaws m) (num_cpu cpus : ℕ) {V : Type 0} where
  -- User space sees a slot for each of the CPUs.
  abbrev pub CountersReadable : m.PerCpu V → Type 0
  CountersReadable a = (vs : List V) × (lookup_per_cpu m num_cpu a 0 ≡ some vs) × (length vs ≡ cpus)

  pub modify-Readable :
      (a : m.PerCpu V) (cpu : ℕ) (f : V → V)
      → CountersReadable a
      → cpu < cpus
      → CountersReadable (modify_slot m a cpu 0 f)
  modify-Readable a cpu f (vs, found, len) lt =
      let (old, g) = get_elem?-lt vs cpu (omega arith) in
      (
        set vs cpu (f old),
        lookup_per_cpu-modify m laws num_cpu a cpu 0 f vs old found g,
        length-set vs cpu _ ∙ len,
      )

  module _ (total : m.PerCpu V → ℕ) where
    -- What a step does to the total, given how much it adds.
    abbrev pub Counts : ℕ → m.PerCpu V → m.PerCpu V → Type 0
    Counts n a a' = CountersReadable a' × (u64 (total a') ≡ u64 (total a + n))

    pub same-Counts : (a a' : m.PerCpu V) → a' ≡ a → CountersReadable a → Counts 0 a a'
    same-Counts a a' e r = rw e (r, omega arith)

    pub chain :
        (n k : ℕ) (a b c : m.PerCpu V)
        → Counts n a b
        → (CountersReadable b → Counts k b c)
        → Counts (n + k) a c
    chain n k a b c first next = let (r, e) = next first.0 in (r, omega (arith, first.1, e))

    pub and_same :
        (n : ℕ) (a b c : m.PerCpu V)
        → Counts n a b
        → (CountersReadable b → Counts 0 b c)
        → Counts n a c
    and_same n a b c first next = let (r, e) = next first.0 in (r, omega (arith, first.1, e))
