-- ===== src/System/Table.antt =====
-- A map as its users see it: a function from keys to what is bound there.
use networkdoctor_prestudy.Base.{◌≡◌, ◌≢◌, refl, subst, Option, List, [], ◌∷◌, ◌++◌, All}

-- Operations one after the other.
module _ {Op T : Type 0} (apply : Op → T → T) where
  abbrev pub replays : List Op → T → T
  replays [] t = t
  replays (op ∷ ops) t = replays ops (apply op t)

  pub replays-append : (xs ys : List Op) (t : T) → replays (xs ++ ys) t ≡ replays ys (replays xs t)
  replays-append [] ys t = refl
  replays-append (op ∷ xs) ys t = replays-append xs ys (apply op t)

  -- What each of some operations keeps, all of them keep.
  pub replays-keep :
      (Keeps : Op → Type 0) (Holds : T → Type 0)
      → ((op : Op) (t : T) → Keeps op → Holds t → Holds (apply op t))
      → (ops : List Op) (t : T) → All Keeps ops
      → Holds t
      → Holds (replays ops t)
  replays-keep Keeps Holds keep [] t ks h = h
  replays-keep Keeps Holds keep (op ∷ ops) t ks h =
      replays-keep Keeps Holds keep ops (apply op t) ks.1 (keep op t ks.0 h)

module _ {K V : Type 0} (d : Discrete K) where
  abbrev pub set_at : (K → Option V) → K → Option V → K → Option V
  set_at t key v k = elim (d key k) [ yes _ ↦ v | no _ ↦ t k ]

  pub set_at-eq :
      (t : K → Option V) (key : K) (v : Option V) (u : K → Option V)
      → u key ≡ v
      → ((k : K) → key ≢ k → u k ≡ t k)
      → (k : K) → u k ≡ set_at t key v k
  set_at-eq t key v u self other k =
      elim (d key k) as (λ r. u k ≡ elim r [ yes _ ↦ v | no _ ↦ t k ]) [
        | yes e ↦ subst (λ x. u x ≡ v) e self
        | no ne ↦ other k ne
      ]

  pub set_at-other :
      (t : K → Option V) (key k : K) (v : Option V) → key ≢ k → set_at t key v k ≡ t k
  set_at-other t key k v ne = elim (d key k) as (λ r. elim r [ yes _ ↦ v | no _ ↦ t k ] ≡ t k) [
    | yes e ↦ elim (ne e) [ ]
    | no _ ↦ refl
  ]
