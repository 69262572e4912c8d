-- ===== src/Tests/Maps.antt =====
-- Maps and floats that the examples run on: functions from keys, and natural numbers.
use networkdoctor_prestudy.Base.{
  ℕ, ◌≡◌, ◌≢◌, refl, Option, none, some, List, get_elem?, set, ◌==◌, if◌then◌else◌, ap, eq→==,
  ne→==, inl,
}
use mathlib.Core.Option.{some-injective}
use networkdoctor_prestudy.Platform.{BpfMaps, MapLaws, deleted, Float64, FloatLaws}

abbrev pub put : {K V : Type 0} → Discrete K → (K → Option V) → K → Option V → K → Option V
put d h k v j = elim (d k j) [ yes _ ↦ v | no _ ↦ h j ]

pub put-same :
    {K V : Type 0} (d : Discrete K) (h : K → Option V) (k : K) (v : Option V) → put d h k v k ≡ v
put-same d h k v = elim (d k k) as (λ r. elim r [ yes _ ↦ v | no _ ↦ h k ] ≡ v) [
  | yes _ ↦ refl
  | no n ↦ elim (n refl) [ ]
]

pub put-other :
    {K V : Type 0} (d : Discrete K) (h : K → Option V) (k j : K) (v : Option V)
    → k ≢ j
    → put d h k v j ≡ h j
put-other d h k j v ne = elim (d k j) as (λ r. elim r [ yes _ ↦ v | no _ ↦ h j ] ≡ h j) [
  | yes e ↦ elim (ne e) [ ]
  | no n ↦ refl
]

-- A per-CPU array is a function from keys to the list of its slots, a hash map one from keys to
-- optional values; nothing fails and nothing is evicted.
abbrev pub maps : BpfMaps
maps = record {
  PerCpu = λ V. ℕ → List V;
  slot = λ a cpu key. get_elem? (a key) cpu;
  store = λ a cpu key v k. if key == k then set (a k) cpu v else a k;
  read = λ a key n. some (a key);
  Hash = λ K d V. K → Option V;
  lookup = λ h k. h k;
  update = λ {K} {d} h k v. put d h k (some v);
  write = λ {K} {d} h k v. put d h k (some v);
  delete = λ {K} {d} h k. (put d h k none, deleted);
}

pub maps-laws : MapLaws maps
maps-laws = record {
  slot-read = λ a cpu key n vs e. ap (λ l. get_elem? l cpu) (some-injective _ _ e);
  read-store = λ a cpu key n v. rw (eq→== key key refl) refl;
  read-store_ne = λ a cpu key other n v ne. rw (ne→== key other ne) refl;
  lookup-update = λ {K} {d} h k v. inl (put-same d h k (some v));
  lookup-update_ne = λ {K} {d} h k j v ne. inl (put-other d h k j (some v) ne);
  lookup-write = λ {K} {d} h k v old e. put-same d h k (some v);
  lookup-write_ne = λ {K} {d} h k j v ne. put-other d h k j (some v) ne;
  lookup-delete = λ {K} {d} h k. inl (put-same d h k none);
  lookup-delete_ne = λ {K} {d} h k j ne. put-other d h k j none ne;
}

abbrev pub floats : Float64
floats = record {
  F = ℕ;
  zero = 0;
  add = λ a b. a;
  mul = λ a b. a;
  of_u64 = λ a. a;
  of_i64 = λ a. a;
  eq = λ a b. a == b;
}

pub floats-laws : FloatLaws floats
floats-laws = record { eq_self = λ a h. eq→== a a refl; eq_exact = λ a b h k ne. ne→== a b ne }
