-- ===== src/Runtime/Placed.antt =====
-- What the calls of a trace do to the filters of the interfaces, and what that has to do with the
-- filters that the trace holds. A call that fails is taken to change nothing.
use mathlib.Core.List.{Memᴰ}
use networkdoctor_prestudy.Base.{
  Bool-cases, ℕ, ◌≡◌, ◌≢◌, ◌⊎◌, refl, sym, ap, ◌∙◌, arith, false, Option, none, some, List, [], ◌∷◌,
  All, inl, inr,
}
use networkdoctor_prestudy.Runtime.Monad.{
  Err, Direction, ingress, egress, Resource, objects, tracepoint, kprobe, filter, reader, Call,
  remove_memlock, load_objects, update_config, attach_raw_tracepoint, attach_kprobe, link_by_name,
  qdisc_add, filter_replace, new_reader, close, Trace,
}
use networkdoctor_prestudy.Runtime.Filters.{
  Netlink, Place, TrafficControl, filter_of, place_of, places_apart,
}
use networkdoctor_prestudy.Runtime.Held.{held, effect, release, same}

-- What a call does to the filters, if it is about them and succeeds.
pub data FilterCall : Type 0 where
  sets : Direction → FilterCall
  clears : Direction → FilterCall

abbrev pub filter_call : Call × Option Err → Option FilterCall
filter_call (filter_replace d, none) = some (sets d)
filter_call (close (filter d), none) = some (clears d)
filter_call _ = none

-- No deletion of a filter fails.
abbrev pub Deletes : Call × Option Err → Type 0
Deletes (close (filter d), some e) = ⊥
Deletes _ = Unit

release-Mem :
    (x y : Resource) (xs : List Resource) → same x y ≡ false → Memᴰ y xs → Memᴰ y (release x xs)
release-Mem x y [] ne m = m
release-Mem x y (z ∷ zs) ne (Memᴰ.head e) = rw (← e, ne) (Memᴰ.head refl)
release-Mem x y (z ∷ zs) ne (Memᴰ.tail m) = elim (Bool-cases (same x z)) [
  | inl t ↦ rw t m
  | inr t ↦ rw t (Memᴰ.tail (release-Mem x y zs ne m))
]

-- A call that does not change the filters leaves them held.
effect-Mem :
    (d : Direction) (c : Call) (r : Option Err) (xs : List Resource)
    → Deletes (c, r)
    → filter_call (c, r) ≡ none
    → Memᴰ (filter d) xs
    → Memᴰ (filter d) (effect c r xs)
effect-Mem d remove_memlock r xs ok ne m = m
effect-Mem d load_objects none xs ok ne m = Memᴰ.tail m
effect-Mem d load_objects (some e) xs ok ne m = m
effect-Mem d (update_config cfg) r xs ok ne m = m
effect-Mem d (attach_raw_tracepoint tp) none xs ok ne m = Memᴰ.tail m
effect-Mem d (attach_raw_tracepoint tp) (some e) xs ok ne m = m
effect-Mem d attach_kprobe none xs ok ne m = Memᴰ.tail m
effect-Mem d attach_kprobe (some e) xs ok ne m = m
effect-Mem d (link_by_name name) r xs ok ne m = m
effect-Mem d qdisc_add r xs ok ne m = m
effect-Mem d (filter_replace d') none xs ok ne m = Memᴰ.tail m
effect-Mem d (filter_replace d') (some e) xs ok ne m = m
effect-Mem d new_reader none xs ok ne m = Memᴰ.tail m
effect-Mem d new_reader (some e) xs ok ne m = m
effect-Mem d (close (filter d')) (some e) xs ok ne m = elim ok [ ]
effect-Mem d (close (filter d')) none xs ok ne m = ground (arith, ne)
effect-Mem d (close objects) r xs ok ne m = release-Mem objects (filter d) xs (ground arith) m
effect-Mem d (close (tracepoint tp)) r xs ok ne m =
    release-Mem (tracepoint tp) (filter d) xs (ground arith) m
effect-Mem d (close kprobe) r xs ok ne m = release-Mem kprobe (filter d) xs (ground arith) m
effect-Mem d (close reader) r xs ok ne m = release-Mem reader (filter d) xs (ground arith) m

data View : Call × Option Err → Type 0 where
  sets_filter : (d : Direction) → View (filter_replace d, none)
  clears_filter : (d : Direction) → View (close (filter d), none)
  neither : {c : Call × Option Err} → filter_call c ≡ none → View c

view : (c : Call) (r : Option Err) → View (c, r)
view (filter_replace d) none = sets_filter d
view (close (filter d)) none = clears_filter d
view (filter_replace d) (some e) = neither refl
view (close (filter d)) (some e) = neither refl
view (close objects) r = neither refl
view (close (tracepoint tp)) r = neither refl
view (close kprobe) r = neither refl
view (close reader) r = neither refl
view remove_memlock r = neither refl
view load_objects r = neither refl
view (update_config cfg) r = neither refl
view (attach_raw_tracepoint tp) r = neither refl
view attach_kprobe r = neither refl
view (link_by_name name) r = neither refl
view qdisc_add r = neither refl
view new_reader r = neither refl

-- Two filters are the same or apart.
Direction-cases : (d' d : Direction) → (d' ≡ d) ⊎ (same (filter d') (filter d) ≡ false)
Direction-cases ingress ingress = inl refl
Direction-cases egress egress = inl refl
Direction-cases ingress egress = inr refl
Direction-cases egress ingress = inr refl

module _ (kernel : TrafficControl) (nl : Netlink) (index : ℕ) (fds : Direction → ℕ) where
  open kernel use {
    Filters, at_place, replace_filter, delete_filter, replaced, replaced_ne, deleted, deleted_ne,
  }

  abbrev pub act : Option FilterCall → Filters → Filters
  act none fs = fs
  act (some (sets d)) fs = replace_filter (filter_of nl index fds d) fs
  act (some (clears d)) fs = delete_filter (filter_of nl index fds d) fs

  -- The filters after a trace, the newest call of which comes first.
  abbrev pub filters_after : Trace → Filters → Filters
  filters_after [] fs = fs
  filters_after (c ∷ t) fs = act (filter_call c) (filters_after t fs)

  abbrev pub place : Direction → Place
  place d = place_of kernel nl index fds d

  act-other :
      (x : Option FilterCall) (fs : Filters) (q : Place)
      → ((d : Direction) → place d ≢ q)
      → at_place (act x fs) q ≡ at_place fs q
  act-other none fs q ne = refl
  act-other (some (sets d)) fs q ne = replaced_ne fs (filter_of nl index fds d) q (ne d)
  act-other (some (clears d)) fs q ne = deleted_ne fs (filter_of nl index fds d) q (ne d)

  -- Filters at any other place are as they were.
  pub filters_after-other :
      (t : Trace) (fs : Filters) (q : Place)
      → ((d : Direction) → place d ≢ q)
      → at_place (filters_after t fs) q ≡ at_place fs q
  filters_after-other [] fs q ne = refl
  filters_after-other (c ∷ t) fs q ne =
      act-other (filter_call c) (filters_after t fs) q ne ∙ filters_after-other t fs q ne

  -- A filter is held, or nothing is at its place, or what was there before is.
  abbrev Trail : (d : Direction) → Trace → Filters → Type 0
  Trail d t fs =
      Memᴰ (filter d) (held t)
      ⊎ ((at_place (filters_after t fs) (place d) ≡ none)
          ⊎ (at_place (filters_after t fs) (place d) ≡ at_place fs (place d)))

  carry :
      (d : Direction) (c : Call × Option Err) (t : Trace) (fs : Filters)
      → (Memᴰ (filter d) (held t) → Memᴰ (filter d) (held (c ∷ t)))
      → at_place (filters_after (c ∷ t) fs) (place d) ≡ at_place (filters_after t fs) (place d)
      → Trail d t fs
      → Trail d (c ∷ t) fs
  carry d c t fs keep e (inl m) = inl (keep m)
  carry d c t fs keep e (inr (inl gone)) = inr (inl (e ∙ gone))
  carry d c t fs keep e (inr (inr before)) = inr (inr (e ∙ before))

  places-apart :
      nl.handle_min_ingress ≢ nl.handle_min_egress
      → (d' d : Direction) → same (filter d') (filter d) ≡ false
      → place d' ≢ place d
  places-apart distinct ingress ingress ne = ground (arith, ne)
  places-apart distinct egress egress ne = ground (arith, ne)
  places-apart distinct ingress egress ne = λ e. places_apart kernel nl index fds distinct (sym e)
  places-apart distinct egress ingress ne = places_apart kernel nl index fds distinct

  Trail-step :
      nl.handle_min_ingress ≢ nl.handle_min_egress
      → (d : Direction) (c : Call) (r : Option Err) (t : Trace) (fs : Filters) → Deletes (c, r)
      → View (c, r)
      → Trail d t fs
      → Trail d ((c, r) ∷ t) fs
  Trail-step distinct d _ _ t fs ok (sets_filter d') trail = elim (Direction-cases d' d) [
    | inl e ↦ inl (Memᴰ.head (ap filter (sym e)))
    | inr apart ↦
        carry d (filter_replace d', none) t fs Memᴰ.tail
          (replaced_ne (filters_after t fs) (filter_of nl index fds d') (place d)
            (places-apart distinct d' d apart))
          trail
  ]
  Trail-step distinct d _ _ t fs ok (clears_filter d') trail = elim (Direction-cases d' d) [
    | inl e ↦ inr (
        inl (
          ap
            (λ (x : Direction).
              at_place (filters_after ((close (filter d'), none) ∷ t) fs) (place x))
            (sym e)
          ∙ deleted (filters_after t fs) (filter_of nl index fds d')))
    | inr apart ↦
        carry d (close (filter d'), none) t fs (release-Mem (filter d') (filter d) (held t) apart)
          (deleted_ne (filters_after t fs) (filter_of nl index fds d') (place d)
            (places-apart distinct d' d apart))
          trail
  ]
  Trail-step distinct d c r t fs ok (neither e) trail =
      carry d (c, r) t fs (effect-Mem d c r (held t) ok e)
        (ap (λ x. at_place (act x (filters_after t fs)) (place d)) e) trail

  -- If no deletion of a filter fails and the parents of the two filters differ, a trace that does not
  -- hold a filter has either cleared its place or left there what was there before.
  pub filters_after-Trail :
      nl.handle_min_ingress ≢ nl.handle_min_egress
      → (d : Direction) (t : Trace) (fs : Filters) → All Deletes t
      → Trail d t fs
  filters_after-Trail distinct d [] fs ok = inr (inr refl)
  filters_after-Trail distinct d ((c, r) ∷ t) fs ok =
      Trail-step distinct d c r t fs ok.0 (view c r) (filters_after-Trail distinct d t fs ok.1)
