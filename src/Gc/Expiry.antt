-- ===== src/Gc/Expiry.antt =====
-- What a collection removes, keeps and counts.
use mathlib.Core.List.{Memᴰ}
use mathlib.Core.Option.{some-injective}
use mathlib.Core.Path.{fun_ext}
use networkdoctor_prestudy.Base.{
  ℕ, ◌+◌, ◌≡◌, ◌≢◌, refl, sym, ap, ◌∙◌, subst, inl, inr, arith, Bool, true, false, ◌||◌, Option,
  none, some, List, [], ◌∷◌, leb, ◌==◌, if◌then◌else◌, All, Bool-cases, Option-cases,
}
use networkdoctor_prestudy.Platform.{BpfMaps, MapLaws, NeverFails}
use networkdoctor_prestudy.Kernel.{
  DnsKey, DnsKey-discrete, DnsPending, FlowKey, FlowKey-discrete, UdpFlow,
}
use networkdoctor_prestudy.Gc.{
  keeps_pending, keeps_flow, gc_visit, gc_loop, gc_dns_pending, gc_udp_flows,
}

-- What is left of a binding.
abbrev pub retain : {V : Type 0} → (V → Bool) → Option V → Option V
retain keeps none = none
retain keeps (some v) = if keeps v then some v else none

-- An entry is spared if its stamp is 0 or lies at most `timeout` back.
abbrev pub is_fresh : ℕ → ℕ → ℕ → Bool
is_fresh now timeout stamp = stamp == 0 || leb now (stamp + timeout)

keeps_pending-fresh :
    (now timeout : ℕ) (v : DnsPending)
    → keeps_pending now timeout v ≡ is_fresh now timeout v.start_ns
unfolding keeps_pending
keeps_pending-fresh now timeout v = ground arith

keeps_flow-fresh :
    (now idle : ℕ) (v : UdpFlow) → keeps_flow now idle v ≡ is_fresh now idle v.last_seen_ns
unfolding keeps_flow
keeps_flow-fresh now idle v = ground arith

-- The entries that a collection is to remove.
abbrev pub count_stale : {K V : Type 0} → (V → Bool) → List (K × V) → ℕ
count_stale keeps [] = 0
count_stale keeps ((k, v) ∷ entries) = (if keeps v then 0 else 1) + count_stale keeps entries

-- The iterator yields the bindings of the map, each at least once.
pub record Lists (m : BpfMaps) {K V : Type 0} {d : Discrete K} (h : m.Hash K d V)
    (entries : List (K × V)) : Type 0 where
  pub sound : All (λ e. m.lookup h e.0 ≡ some e.1) entries
  pub complete : (k : K) (v : V) → m.lookup h k ≡ some v → Memᴰ (k, v) entries

module _ (m : BpfMaps) (laws : MapLaws m) {K V : Type 0} (d : Discrete K) (keeps : V → Bool) where
  open m use {Hash, lookup, delete}

  lookup-visit_ne :
      (j k : K) (v : V) (h : Hash K d V) (n : ℕ)
      → k ≢ j
      → lookup (gc_visit m keeps k v h n).0 j ≡ lookup h j
  unfolding gc_visit
  lookup-visit_ne j k v h n ne = ground (arith, laws.lookup-delete_ne h k j ne)

  none-visit :
      (j k : K) (v : V) (h : Hash K d V) (n : ℕ)
      → lookup h j ≡ none
      → lookup (gc_visit m keeps k v h n).0 j ≡ none
  unfolding gc_visit
  none-visit j k v h n e = elim (d k j) [
    | yes p ↦ rw (← p) (gone (subst (λ x. lookup h x ≡ none) (sym p) e))
    | no p ↦ lookup-visit_ne j k v h n p ∙ e
  ]
    where
      gone : lookup h k ≡ none → lookup (gc_visit m keeps k v h n).0 k ≡ none
      gone e = ground (arith, laws.lookup-delete h k)

  -- What is gone stays gone.
  none-loop :
      (entries : List (K × V)) (j : K) (h : Hash K d V) (n : ℕ)
      → lookup h j ≡ none
      → lookup (gc_loop m keeps entries h n).0 j ≡ none
  unfolding gc_loop
  none-loop [] j h n e = e
  none-loop ((k, v) ∷ entries) j h n e = none-loop entries j _ _ (none-visit j k v h n e)

  -- A binding outlives the loop if every entry listed for its key is fresh.
  kept-loop :
      (entries : List (K × V)) (j : K) (h : Hash K d V) (n : ℕ)
      → All (λ e. e.0 ≡ j → keeps e.1 ≡ true) entries
      → lookup (gc_loop m keeps entries h n).0 j ≡ lookup h j
  unfolding gc_loop
  kept-loop [] j h n fresh = refl
  kept-loop ((k, v) ∷ entries) j h n fresh =
      kept-loop entries j (gc_visit m keeps k v h n).0 (gc_visit m keeps k v h n).1 fresh.1 ∙ first
    where
      untouched : keeps v ≡ true → (gc_visit m keeps k v h n).0 ≡ h
      untouched e = unfold gc_visit in rw (e, gc_visit)

      first : lookup (gc_visit m keeps k v h n).0 j ≡ lookup h j
      first = elim (d k j) [
        | yes p ↦ ap (λ x. lookup x j) (untouched (fresh.0 p))
        | no p ↦ lookup-visit_ne j k v h n p
      ]

  removed-visit :
      NeverFails m K d V
      → (k : K) (v : V) (h : Hash K d V) (n : ℕ) → keeps v ≡ false
      → lookup (gc_visit m keeps k v h n).0 k ≡ none
  unfolding gc_visit
  removed-visit ok k v h n e = ground (arith, laws.lookup-delete h k, ok h k)

  -- A stale entry is removed, whatever the map holds under its key by then.
  removed-loop :
      NeverFails m K d V
      → (entries : List (K × V)) (k : K) (v : V) (h : Hash K d V) (n : ℕ) → keeps v ≡ false
      → Memᴰ (k, v) entries
      → lookup (gc_loop m keeps entries h n).0 k ≡ none
  unfolding gc_loop
  removed-loop ok [] k v h n e mem = elim mem [ ]
  removed-loop ok ((k', v') ∷ entries) k v h n e (Memᴰ.head p) = none-loop entries k _ _ (
      subst (λ (x : K × V). lookup (gc_visit m keeps x.0 x.1 h n).0 k ≡ none) p
        (removed-visit ok k v h n e))
  removed-loop ok ((k', v') ∷ entries) k v h n e (Memᴰ.tail mem) =
      removed-loop ok entries k v _ _ e mem

  count-visit :
      NeverFails m K d V
      → (k : K) (v : V) (h : Hash K d V) (n : ℕ)
      → (gc_visit m keeps k v h n).1 ≡ n + (if keeps v then 0 else 1)
  unfolding gc_visit
  count-visit ok k v h n = ground (arith, ok h k)

  count-loop :
      NeverFails m K d V
      → (entries : List (K × V)) (h : Hash K d V) (n : ℕ)
      → (gc_loop m keeps entries h n).1 ≡ n + count_stale keeps entries
  unfolding gc_loop
  count-loop ok [] h n = omega arith
  count-loop ok ((k, v) ∷ entries) h n = omega (
    arith,
    count-loop ok entries (gc_visit m keeps k v h n).0 (gc_visit m keeps k v h n).1,
    count-visit ok k v h n,
  )

  sound-fresh :
      (h : Hash K d V) (j : K) (v : V) (entries : List (K × V))
      → lookup h j ≡ some v
      → keeps v ≡ true
      → All (λ e. lookup h e.0 ≡ some e.1) entries
      → All (λ e. e.0 ≡ j → keeps e.1 ≡ true) entries
  sound-fresh h j v [] e t s = tt
  sound-fresh h j v ((k, w) ∷ entries) e t s = (here, sound-fresh h j v entries e t s.1)
    where
      here : k ≡ j → keeps w ≡ true
      here p =
          subst (λ x. keeps x ≡ true)
            (some-injective _ _ (sym e ∙ subst (λ x. lookup h x ≡ some w) p s.0)) t

  -- With a complete iteration and no failing delete, the loop keeps exactly the fresh bindings.
  pub gc_loop-retain :
      NeverFails m K d V
      → (entries : List (K × V)) (h : Hash K d V) (n : ℕ) → Lists m h entries
      → (k : K) → lookup (gc_loop m keeps entries h n).0 k ≡ retain keeps (lookup h k)
  gc_loop-retain ok entries h n ls k = elim (Option-cases (lookup h k)) [
    | inl e ↦ rw (none-loop entries k h n e, e)
    | inr (v, e) ↦ elim (Bool-cases (keeps v)) [
      | inl t ↦ rw (kept-loop entries k h n (sound-fresh h k v entries e t ls.sound), e, t)
      | inr t ↦ rw (e, t) (removed-loop ok entries k v h n t (ls.complete k v e))
    ]
  ]

module _ (m : BpfMaps) (laws : MapLaws m) where
  open m use {Hash, lookup}

  -- If the iterator yields the bindings of nd_dns_pending and no delete fails, a collection leaves
  -- under each key what was there if its start is 0 or at most `timeout` back, and nothing
  -- otherwise; and it reports as many removals as it was given entries that are to go.
  pub gc_dns_pending_lem :
      NeverFails m DnsKey DnsKey-discrete DnsPending
      → (entries : List (DnsKey × DnsPending)) (now timeout : ℕ)
        (h : Hash DnsKey DnsKey-discrete DnsPending)
      → Lists m h entries
      → ((k : DnsKey)
          → lookup (gc_dns_pending m entries now timeout h).0 k
            ≡ retain (λ v. is_fresh now timeout v.start_ns) (lookup h k))
        × ((gc_dns_pending m entries now timeout h).1
            ≡ count_stale (λ (v : DnsPending). is_fresh now timeout v.start_ns) entries)
  unfolding gc_dns_pending
  gc_dns_pending_lem ok entries now timeout h ls = rw (← same) (
    gc_loop-retain m laws DnsKey-discrete (keeps_pending now timeout) ok entries h 0 ls,
    count-loop m laws DnsKey-discrete (keeps_pending now timeout) ok entries h 0 ∙ omega arith,
  )
    where
      same : keeps_pending now timeout ≡ (λ v. is_fresh now timeout v.start_ns)
      same = fun_ext (keeps_pending-fresh now timeout)

  -- If the iterator yields the bindings of nd_udp_flows and no delete fails, a collection leaves
  -- under each flow what was there if the time it was last seen is 0 or lies at most `idle` back,
  -- and nothing otherwise; and it reports as many removals as it was given entries that are to go.
  pub gc_udp_flows_lem :
      NeverFails m FlowKey FlowKey-discrete UdpFlow
      → (entries : List (FlowKey × UdpFlow)) (now idle : ℕ)
        (h : Hash FlowKey FlowKey-discrete UdpFlow)
      → Lists m h entries
      → ((k : FlowKey)
          → lookup (gc_udp_flows m entries now idle h).0 k
            ≡ retain (λ v. is_fresh now idle v.last_seen_ns) (lookup h k))
        × ((gc_udp_flows m entries now idle h).1
            ≡ count_stale (λ (v : UdpFlow). is_fresh now idle v.last_seen_ns) entries)
  unfolding gc_udp_flows
  gc_udp_flows_lem ok entries now idle h ls = rw (← same) (
    gc_loop-retain m laws FlowKey-discrete (keeps_flow now idle) ok entries h 0 ls,
    count-loop m laws FlowKey-discrete (keeps_flow now idle) ok entries h 0 ∙ omega arith,
  )
    where
      same : keeps_flow now idle ≡ (λ v. is_fresh now idle v.last_seen_ns)
      same = fun_ext (keeps_flow-fresh now idle)

  -- The race with the kernel side: if the iterator yielded a flow that was idle for too long, and no
  -- delete fails, the flow is gone after the collection, whatever value the map holds for it by the
  -- time the loop runs.
  pub gc_udp_flows_race :
      NeverFails m FlowKey FlowKey-discrete UdpFlow
      → (entries : List (FlowKey × UdpFlow)) (now idle : ℕ)
        (h : Hash FlowKey FlowKey-discrete UdpFlow) (k : FlowKey) (listed : UdpFlow)
      → Memᴰ (k, listed) entries
      → is_fresh now idle listed.last_seen_ns ≡ false
      → lookup (gc_udp_flows m entries now idle h).0 k ≡ none
  unfolding gc_udp_flows
  gc_udp_flows_race ok entries now idle h k listed mem stale =
      removed-loop m laws FlowKey-discrete (keeps_flow now idle) ok entries k listed h 0
        (keeps_flow-fresh now idle listed ∙ stale) mem
