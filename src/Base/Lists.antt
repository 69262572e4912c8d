-- ===== src/Base/Lists.antt =====
-- Lists measured and indexed by native numbers: Go's slices and arrays.
use Prim.Native.Nat.{ℕ, zero, suc, ◌+◌, ◌<◌, ◌≤◌}
use mathlib.Core.Path.{◌≡◌, refl, ap, ap₂}
use mathlib.Core.Logic.{◌≢◌}
use mathlib.Core.List.{List, [], ◌∷◌, ◌++◌, map}
use mathlib.Core.Option.{Option, none, some}
use networkdoctor_prestudy.Base.Tests.{leb, if◌then◌else◌}
use native.Mathlib.Omega.{arith}

module _ {ℓ} {A : Type ℓ} where
  abbrev pub length : List A → ℕ
  length [] = 0
  length (x ∷ xs) = suc (length xs)

  abbrev pub get_elem? : List A → ℕ → Option A
  get_elem? [] i = none
  get_elem? (x ∷ xs) zero = some x
  get_elem? (x ∷ xs) (suc i) = get_elem? xs i

  abbrev pub get_or : List A → ℕ → A → A
  get_or [] i d = d
  get_or (x ∷ xs) zero d = x
  get_or (x ∷ xs) (suc i) d = get_or xs i d

  -- A write out of bounds changes nothing.
  abbrev pub set : List A → ℕ → A → List A
  set [] i v = []
  set (x ∷ xs) zero v = v ∷ xs
  set (x ∷ xs) (suc i) v = x ∷ set xs i v

  abbrev pub take : ℕ → List A → List A
  take zero xs = []
  take (suc n) [] = []
  take (suc n) (x ∷ xs) = x ∷ take n xs

  abbrev pub replicate : ℕ → A → List A
  replicate zero a = []
  replicate (suc n) a = a ∷ replicate n a

  abbrev pub All {κ} : (A → Type κ) → List A → Type κ
  All P [] = Unit {κ}
  All P (x ∷ xs) = P x × All P xs

  pub length-append : (xs ys : List A) → length (xs ++ ys) ≡ length xs + length ys
  length-append [] ys = omega arith
  length-append (x ∷ xs) ys = omega (arith, length-append xs ys)

  pub length-set : (xs : List A) (i : ℕ) (v : A) → length (set xs i v) ≡ length xs
  length-set [] i v = refl
  length-set (x ∷ xs) zero v = refl
  length-set (x ∷ xs) (suc i) v = ap suc (length-set xs i v)

  pub get_elem?-set_self :
      (xs : List A) (i : ℕ) (v : A) → i < length xs → get_elem? (set xs i v) i ≡ some v
  get_elem?-set_self [] i v h = elim h [ ]
  get_elem?-set_self (x ∷ xs) zero v h = refl
  get_elem?-set_self (x ∷ xs) (suc i) v h = get_elem?-set_self xs i v (omega arith)

-- The half-open range of `n` numbers from `i`: the values of a counting loop's variable.
abbrev pub range_from : ℕ → ℕ → List ℕ
range_from i zero = []
range_from i (suc n) = i ∷ range_from (i + 1) n

abbrev pub sum : List ℕ → ℕ
sum [] = 0
sum (x ∷ xs) = x + sum xs

pub sum-take-suc : (c : List ℕ) (i : ℕ) → sum (take (suc i) c) ≡ sum (take i c) + get_or c i 0
sum-take-suc [] zero = omega arith
sum-take-suc [] (suc i) = omega arith
sum-take-suc (x ∷ c) zero = omega arith
sum-take-suc (x ∷ c) (suc i) = omega (arith, sum-take-suc c i)

pub sum-take-le : (c : List ℕ) (i : ℕ) → sum (take i c) ≤ sum c
sum-take-le c zero = omega arith
sum-take-le [] (suc i) = omega arith
sum-take-le (x ∷ c) (suc i) = omega (arith, sum-take-le c i)

pub sum-set :
    (xs : List ℕ) (i old new : ℕ)
    → get_elem? xs i ≡ some old
    → sum (set xs i new) + old ≡ sum xs + new
sum-set [] i old new e = cc
sum-set (x ∷ xs) zero old new e = ground arith
sum-set (x ∷ xs) (suc i) old new e = omega (arith, sum-set xs i old new e)

pub sum-take-set :
    (xs : List ℕ) (k i old new : ℕ)
    → get_elem? xs k ≡ some old
    → sum (take (suc i) (set xs k new)) + (if leb k i then old else 0)
      ≡ sum (take (suc i) xs) + (if leb k i then new else 0)
sum-take-set [] k i old new e = cc
sum-take-set (x ∷ xs) zero zero old new e = ground arith
sum-take-set (x ∷ xs) zero (suc i) old new e = ground arith
sum-take-set (x ∷ xs) (suc k) zero old new e = ground arith
sum-take-set (x ∷ xs) (suc k) (suc i) old new e = ground (arith, sum-take-set xs k i old new e)

pub get_elem?-map-range_from :
    (f : ℕ → ℕ) (i n k key : ℕ)
    → k < n
    → i + k ≡ key
    → get_elem? (map f (range_from i n)) k ≡ some (f key)
get_elem?-map-range_from f i zero k key h e = elim h [ ]
get_elem?-map-range_from f i (suc n) zero key h e = ap (λ x. some (f x)) (omega arith)
get_elem?-map-range_from f i (suc n) (suc k) key h e =
    get_elem?-map-range_from f (i + 1) n k key (omega arith) (omega arith)

-- The number of a list at an index in range.
pub get_elem?-lt {ℓ} :
    {A : Type ℓ} (xs : List A) (i : ℕ) → i < length xs → (a : A) × (get_elem? xs i ≡ some a)
get_elem?-lt [] i h = elim h [ ]
get_elem?-lt (x ∷ xs) zero h = (x, refl)
get_elem?-lt (x ∷ xs) (suc i) h = get_elem?-lt xs i (omega arith)

-- A table that two functions agree on but at one key.
map-range_from-fresh :
    (f g : ℕ → ℕ) (key i n : ℕ)
    → ((j : ℕ) → key ≢ j → g j ≡ f j)
    → key < i
    → map g (range_from i n) ≡ map f (range_from i n)
map-range_from-fresh f g key i zero same h = refl
map-range_from-fresh f g key i (suc n) same h =
    ap₂ ◌∷◌ (same i (omega arith)) (map-range_from-fresh f g key (i + 1) n same (omega arith))

pub map-range_from-set :
    (f g : ℕ → ℕ) (k i n key : ℕ)
    → i + k ≡ key
    → ((j : ℕ) → key ≢ j → g j ≡ f j)
    → map g (range_from i n) ≡ set (map f (range_from i n)) k (g key)
map-range_from-set f g k i zero key e same = refl
map-range_from-set f g zero i (suc n) key e same =
    ap₂ ◌∷◌ (ap g (omega arith)) (map-range_from-fresh f g key (i + 1) n same (omega arith))
map-range_from-set f g (suc k) i (suc n) key e same =
    ap₂ ◌∷◌ (same i (omega arith)) (map-range_from-set f g k (i + 1) n key (omega arith) same)
