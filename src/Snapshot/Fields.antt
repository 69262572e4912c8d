-- ===== src/Snapshot/Fields.antt =====
-- Sums over the CPUs of one field of a struct of counters, whichever the struct.
use networkdoctor_prestudy.Base.{
  ℕ, zero, suc, ◌+◌, ◌≡◌, refl, sym, ap, ◌∙◌, arith, Bool, true, false, some, List, [], ◌∷◌, map,
  foldl, u64, get_elem?, set, if◌then◌else◌,
}
use mathlib.Core.Option.{some-injective}
use networkdoctor_prestudy.Snapshot.{add_all}
use networkdoctor_prestudy.Snapshot.Sums.{add_all-set}

pub map-set :
    {A B : Type 0} (f : A → B) (xs : List A) (i : ℕ) (x : A)
    → map f (set xs i x) ≡ set (map f xs) i (f x)
map-set f [] i x = refl
map-set f (y ∷ xs) zero x = refl
map-set f (y ∷ xs) (suc i) x = ap (λ r. f y ∷ r) (map-set f xs i x)

pub get_elem?-map :
    {A B : Type 0} (f : A → B) (xs : List A) (i : ℕ) (x : A)
    → get_elem? xs i ≡ some x
    → get_elem? (map f xs) i ≡ some (f x)
get_elem?-map f [] i x e = ground (arith, e)
get_elem?-map f (y ∷ xs) zero x e = ap (λ v. some (f v)) (some-injective _ _ e)
get_elem?-map f (y ∷ xs) (suc i) x e = get_elem?-map f xs i x e

set-get_elem? {ℓ} :
    {A : Type ℓ} (xs : List A) (i : ℕ) (x : A) → get_elem? xs i ≡ some x → set xs i x ≡ xs
set-get_elem? [] i x e = refl
set-get_elem? (y ∷ xs) zero x e = ap (λ r. r ∷ xs) (sym (some-injective _ _ e))
set-get_elem? (y ∷ xs) (suc i) x e = ap (λ r. y ∷ r) (set-get_elem? xs i x e)

-- One more in a field, or the field as it was.
abbrev pub one_more : Bool → ℕ → ℕ
one_more t n = if t then u64 (n + 1) else n

module _ {V W : Type 0} (add : W → V → W) (total : W → ℕ) (count : V → ℕ)
    (adds : (w : W) (v : V) → total (add w v) ≡ u64 (total w + count v)) where
  pub fold-field : (w : W) (vs : List V) → total (foldl add w vs) ≡ add_all (total w) (map count vs)
  unfolding add_all
  fold-field w [] = refl
  fold-field w (v ∷ vs) = fold-field (add w v) vs ∙ ap (λ s. add_all s (map count vs)) (adds w v)

  -- A change of one CPU's struct shows in the sum of the field as it does in the field.
  pub fold-one_more :
      (start : W) (vs : List V) (cpu : ℕ) (old new : V) (t : Bool)
      → total start ≡ 0
      → get_elem? vs cpu ≡ some old
      → count new ≡ one_more t (count old)
      → total (foldl add start (set vs cpu new)) ≡ one_more t (total (foldl add start vs))
  fold-one_more start vs cpu old new true z g c =
      fold-field start (set vs cpu new)
      ∙ rw z (
          ap (add_all 0) (map-set count vs cpu new ∙ ap (set (map count vs) cpu) c)
          ∙ add_all-set (map count vs) cpu (count old) 1 (get_elem?-map count vs cpu old g))
      ∙ ap (λ s. u64 (s + 1))
          (ap (λ s. add_all s (map count vs)) (sym z) ∙ sym (fold-field start vs))
  fold-one_more start vs cpu old new false z g c =
      fold-field start (set vs cpu new)
      ∙ ap (add_all (total start)) (
          map-set count vs cpu new
          ∙ ap (set (map count vs) cpu) c
          ∙ set-get_elem? (map count vs) cpu (count old) (get_elem?-map count vs cpu old g))
      ∙ sym (fold-field start vs)
