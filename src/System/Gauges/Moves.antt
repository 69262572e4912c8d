-- ===== src/System/Gauges/Moves.antt =====
-- How one state change moves the gauges.
use networkdoctor_prestudy.Base.{
  ℕ, ◌+◌, ◌-◌, ◌^◌, ◌<◌, ◌≡◌, refl, arith, Bool, true, false, ◌||◌, some, u64, if◌then◌else◌, ltb,
  eq→==, ne→==, lt→ltb, ℕ_discrete, Bool-cases, inl, inr,
}
use networkdoctor_prestudy.Base.Int.{ℤ, pos, negsuc}
use networkdoctor_prestudy.Platform.{BpfMaps, MapLaws}
use networkdoctor_prestudy.Kernel.{Objects}
use networkdoctor_prestudy.Kernel.Helpers.{
  Hook, Sock, is_state, nd_is_ipv4_sock, tcp_syn_sent, tcp_syn_recv,
}
use networkdoctor_prestudy.Kernel.Update.{
  nd_add_s64_percpu_array, nd_tcp_state_delta_add, nd_inc_tcp_counter,
}
use networkdoctor_prestudy.Kernel.Tcp.{count_transition, nd_inet_sock_set_state}
use networkdoctor_prestudy.Kernel.Tcp.Lifecycle.{
  sum_tcp_state-add, sum_tcp_state-other, set_state-SameGauges,
}
use networkdoctor_prestudy.Snapshot.Sums.{modify-ReadableBelow}
use networkdoctor_prestudy.System.Gauges.Frame.{SameGauges}
use networkdoctor_prestudy.System.Gauges.{counts_for, gauge, GaugesReadable}

balance :
    (s t : Bool) (g g1 g2 : ℕ)
    → g1 ≡ (if s then u64 (g + (2 ^ 64 - 1)) else g)
    → g2 ≡ (if t then u64 (g1 + 1) else g1)
    → u64 (g2 + (if s then 1 else 0)) ≡ u64 (g + (if t then 1 else 0))
balance true true g g1 g2 a b = omega arith
balance true false g g1 g2 a b = omega arith
balance false true g g1 g2 a b = omega arith
balance false false g g1 g2 a b = omega arith

count_transition-same :
    (m : BpfMaps) (h : Hook) (a b : ℤ) (o : Objects m)
    → SameGauges m
        (nd_tcp_state_delta_add m h b 1 (nd_tcp_state_delta_add m h a (2 ^ 64 - 1) o))
        (count_transition m h a b o)
unfolding count_transition nd_inc_tcp_counter
count_transition-same m h a b o =
    elim (Bool-cases (is_state b tcp_syn_sent || is_state b tcp_syn_recv)) [
      | inl e ↦ rw (count_transition, e) refl
      | inr e ↦ rw (count_transition, e) refl
    ]

set_state-foreign :
    (m : BpfMaps) (h : Hook) (sk : Sock) (a b : ℤ) (o : Objects m)
    → nd_is_ipv4_sock sk ≡ false
    → SameGauges m o (nd_inet_sock_set_state m h (some sk) a b o)
unfolding nd_inet_sock_set_state
set_state-foreign m h sk a b o v6 = rw v6 refl

module _ (m : BpfMaps) (laws : MapLaws m) (num_cpu cpus : ℕ) where
  delta_add-Readable :
      (h : Hook) (state : ℤ) (delta : ℕ) (o : Objects m)
      → GaugesReadable m laws num_cpu cpus o
      → h.cpu < cpus
      → GaugesReadable m laws num_cpu cpus (nd_tcp_state_delta_add m h state delta o)
  unfolding nd_tcp_state_delta_add nd_add_s64_percpu_array
  delta_add-Readable h (negsuc n) delta o r c = r
  delta_add-Readable h (pos n) delta o r c = elim (Bool-cases (ltb n 16)) [
    | inl e ↦
        rw (nd_tcp_state_delta_add, e)
          (modify-ReadableBelow m laws num_cpu 16 cpus o.nd_tcp_state_delta h.cpu n _ r c)
    | inr e ↦ rw (nd_tcp_state_delta_add, e) r
  ]

  -- One addition to a gauge, under any state.
  delta_add-gauge :
      (h : Hook) (state : ℤ) (delta j : ℕ) (o : Objects m)
      → GaugesReadable m laws num_cpu cpus o
      → h.cpu < cpus
      → j < 16
      → gauge m laws num_cpu cpus (nd_tcp_state_delta_add m h state delta o) j ≡ (
          if is_state state j
          then u64 (gauge m laws num_cpu cpus o j + delta)
          else gauge m laws num_cpu cpus o j)
  unfolding nd_tcp_state_delta_add
  delta_add-gauge h (negsuc n) delta j o r c k = refl
  delta_add-gauge h (pos n) delta j o r c k = elim (ℕ_discrete n j) [
    | yes e ↦
        let (vs, found, len) = r j k in
        rw (← e, eq→== n n refl, lt→ltb n 16 (rw e k))
          (sum_tcp_state-add m laws num_cpu o.nd_tcp_state_delta h.cpu n delta vs (rw e found)
            (omega arith))
    | no ne ↦ elim (Bool-cases (ltb n 16)) [
      | inl e ↦
          rw (ne→== n j ne, e)
            (sum_tcp_state-other m laws num_cpu o.nd_tcp_state_delta h.cpu n j delta ne)
      | inr e ↦ rw (ne→== n j ne, e) refl
    ]
  ]

  -- What a step does to one gauge, given how often the step leaves and enters the state.
  abbrev pub Moves : ℕ → ℕ → ℕ → Objects m → Objects m → Type 0
  Moves j out into o o' =
      GaugesReadable m laws num_cpu cpus o'
      × (u64 (gauge m laws num_cpu cpus o' j + out) ≡ u64 (gauge m laws num_cpu cpus o j + into))

  same-Moves :
      (j out into : ℕ) (o x y : Objects m)
      → SameGauges m x y
      → Moves j out into o x
      → Moves j out into o y
  same-Moves j out into o x y e (r, g) = (rw e r, rw e g)

  pub stay :
      (j : ℕ) (o o' : Objects m)
      → SameGauges m o o'
      → GaugesReadable m laws num_cpu cpus o
      → Moves j 0 0 o o'
  stay j o o' e r = same-Moves j 0 0 o o o' e (r, refl)

  transition-Moves :
      (h : Hook) (a b : ℤ) (j : ℕ) (o : Objects m)
      → GaugesReadable m laws num_cpu cpus o
      → h.cpu < cpus
      → j < 16
      → Moves j
          (if is_state a j then 1 else 0)
          (if is_state b j then 1 else 0)
          o
          (count_transition m h a b o)
  transition-Moves h a b j o r c k =
      let o1 = nd_tcp_state_delta_add m h a (2 ^ 64 - 1) o in
      let r1 = delta_add-Readable h a (2 ^ 64 - 1) o r c in
      same-Moves j _ _ o (nd_tcp_state_delta_add m h b 1 o1) (count_transition m h a b o)
        (count_transition-same m h a b o)
        (
          delta_add-Readable h b 1 o1 r1 c,
          balance (is_state a j) (is_state b j) (gauge m laws num_cpu cpus o j) _ _
              (delta_add-gauge h a (2 ^ 64 - 1) j o r c k) (delta_add-gauge h b 1 j o1 r1 c k),
        )

  pub set_state-Moves :
      (h : Hook) (sk : Sock) (a b : ℤ) (j : ℕ) (o : Objects m)
      → GaugesReadable m laws num_cpu cpus o
      → h.cpu < cpus
      → j < 16
      → Moves j
          (counts_for (nd_is_ipv4_sock sk) a j)
          (counts_for (nd_is_ipv4_sock sk) b j)
          o
          (nd_inet_sock_set_state m h (some sk) a b o)
  set_state-Moves h sk a b j o r c k = elim (Bool-cases (nd_is_ipv4_sock sk)) [
    | inl v4 ↦
        let moved =
          same-Moves j _ _ o (count_transition m h a b o)
            (nd_inet_sock_set_state m h (some sk) a b o) (set_state-SameGauges m h sk a b o v4).same
            (transition-Moves h a b j o r c k) in
        rw v4 moved
    | inr v6 ↦ rw v6 (
        stay j o (nd_inet_sock_set_state m h (some sk) a b o) (set_state-foreign m h sk a b o v6) r)
  ]
