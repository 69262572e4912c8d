-- ===== src/Platform.antt =====
-- What the program runs on and does not implement, as records of operations and of the documented
-- behaviour that the proofs rely on: BPF maps, seen from the kernel side (bpf_map_*_elem) and from
-- user space (cilium/ebpf), and float64.
use mathlib.Core.Option
use networkdoctor_prestudy.Base.{
  arith, ℕ, ◌^◌, ◌≤◌, ◌≡◌, ◌≢◌, ◌⊎◌, Bool, true, false, Option, some, none, List, get_elem?, set,
}

-- What deleting a key reports: ErrKeyNotExist is `not_exist`, any other error `failed`.
pub data DeleteResult : Type 0 where
  deleted not_exist failed : DeleteResult

pub record BpfMaps : Type 1 where
  -- A per-CPU array with values of one type.
  pub PerCpu : Type 0 → Type 0
  -- The slot of a CPU at a key, or NULL, and a write through the pointer to it.
  pub slot : {V : Type 0} → PerCpu V → ℕ → ℕ → Option V
  pub store : {V : Type 0} → PerCpu V → ℕ → ℕ → V → PerCpu V
  -- Map.Lookup into a slice of that many elements, or into a nil slice: the values of all CPUs.
  pub read : {V : Type 0} → PerCpu V → ℕ → Option ℕ → Option (List V)
  -- A hash map, whose keys are compared by their bytes.
  pub Hash : (K : Type 0) → Discrete K → Type 0 → Type 0
  pub lookup : {K : Type 0} {d : Discrete K} {V : Type 0} → Hash K d V → K → Option V
  pub update : {K : Type 0} {d : Discrete K} {V : Type 0} → Hash K d V → K → V → Hash K d V
  -- A write through the pointer that a lookup returned.
  pub write : {K : Type 0} {d : Discrete K} {V : Type 0} → Hash K d V → K → V → Hash K d V
  pub delete :
      {K : Type 0} {d : Discrete K} {V : Type 0} → Hash K d V → K → Hash K d V × DeleteResult

-- The documented behaviour. An update may fail, and on an LRU map it may evict other keys.
module _ (m : BpfMaps) where
  open m use {PerCpu, slot, store, read, Hash, lookup, update, write, delete}

  pub record MapLaws : Type 1 where
    pub slot-read :
        {V : Type 0} (a : PerCpu V) (cpu key : ℕ) (n : Option ℕ) (vs : List V)
        → read a key n ≡ some vs
        → slot a cpu key ≡ get_elem? vs cpu
    pub read-store :
        {V : Type 0} (a : PerCpu V) (cpu key : ℕ) (n : Option ℕ) (v : V)
        → read (store a cpu key v) key n ≡ Option.map (λ vs. set vs cpu v) (read a key n)
    pub read-store_ne :
        {V : Type 0} (a : PerCpu V) (cpu key other : ℕ) (n : Option ℕ) (v : V)
        → key ≢ other
        → read (store a cpu key v) other n ≡ read a other n
    pub lookup-update :
        {K : Type 0} {d : Discrete K} {V : Type 0} (h : Hash K d V) (k : K) (v : V)
        → (lookup (update h k v) k ≡ some v) ⊎ (lookup (update h k v) k ≡ lookup h k)
    pub lookup-update_ne :
        {K : Type 0} {d : Discrete K} {V : Type 0} (h : Hash K d V) (k j : K) (v : V)
        → k ≢ j
        → (lookup (update h k v) j ≡ lookup h j) ⊎ (lookup (update h k v) j ≡ none)
    pub lookup-write :
        {K : Type 0} {d : Discrete K} {V : Type 0} (h : Hash K d V) (k : K) (v old : V)
        → lookup h k ≡ some old
        → lookup (write h k v) k ≡ some v
    pub lookup-write_ne :
        {K : Type 0} {d : Discrete K} {V : Type 0} (h : Hash K d V) (k j : K) (v : V)
        → k ≢ j
        → lookup (write h k v) j ≡ lookup h j
    pub lookup-delete :
        {K : Type 0} {d : Discrete K} {V : Type 0} (h : Hash K d V) (k : K)
        → (lookup (delete h k).0 k ≡ none)
          ⊎ (((delete h k).1 ≡ failed) × (lookup (delete h k).0 k ≡ lookup h k))
    pub lookup-delete_ne :
        {K : Type 0} {d : Discrete K} {V : Type 0} (h : Hash K d V) (k j : K)
        → k ≢ j
        → lookup (delete h k).0 j ≡ lookup h j

-- No delete reports an error other than a missing key.
abbrev pub NeverFails : (m : BpfMaps) (K : Type 0) → Discrete K → Type 0 → Type 0
NeverFails m K d V = (h : m.Hash K d V) (k : K) → (m.delete h k).1 ≢ failed

-- Then a delete leaves nothing under its key.
pub lookup-delete_gone :
    (m : BpfMaps) (K : Type 0) (d : Discrete K) (V : Type 0)
    → MapLaws m
    → NeverFails m K d V
    → (h : m.Hash K d V) (k : K) → m.lookup (m.delete h k).0 k ≡ none
lookup-delete_gone m K d V laws ok h k = ground (arith, laws.lookup-delete h k, ok h k)

-- float64 with the conversion from uint64, and the comparison of map keys.
pub record Float64 : Type 1 where
  pub F : Type 0
  pub zero : F
  pub add : F → F → F
  pub mul : F → F → F
  pub of_u64 : ℕ → F
  -- float64(v) of an int64, given by its bit pattern.
  pub of_i64 : ℕ → F
  pub eq : F → F → Bool

-- Integers up to 2 ^ 53 are exact, so equal floats come from equal integers.
pub record FloatLaws (f : Float64) : Type 0 where
  pub eq_self : (a : ℕ) → a ≤ 2 ^ 53 → f.eq (f.of_u64 a) (f.of_u64 a) ≡ true
  pub eq_exact :
      (a b : ℕ) → a ≤ 2 ^ 53 → b ≤ 2 ^ 53 → a ≢ b → f.eq (f.of_u64 a) (f.of_u64 b) ≡ false

-- No update is refused, and none evicts the key that it stores.
abbrev pub NeverRefuses : (m : BpfMaps) (K : Type 0) → Discrete K → Type 0 → Type 0
NeverRefuses m K d V = (h : m.Hash K d V) (k : K) (v : V) → m.lookup (m.update h k v) k ≡ some v

-- A map that is never full: every update is taken, nothing is evicted, and no delete fails.
pub record NeverFull (m : BpfMaps) (K : Type 0) (d : Discrete K) (V : Type 0) : Type 0 where
  pub update_self : (h : m.Hash K d V) (k : K) (v : V) → m.lookup (m.update h k v) k ≡ some v
  pub update_ne :
      (h : m.Hash K d V) (k j : K) (v : V) → k ≢ j → m.lookup (m.update h k v) j ≡ m.lookup h j
  pub never_fails : NeverFails m K d V
