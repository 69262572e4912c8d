-- ===== src/Kernel/Tcp/Lifecycle.antt =====
-- The state-change hook: the gauges of the TCP states, and the life of a connection.
use networkdoctor_prestudy.Base.{
  ℕ, ◌+◌, ◌-◌, ◌^◌, ◌<◌, ◌≡◌, ◌≢◌, refl, sym, ap, ◌∙◌, arith, Bool, true, false, ◌&&◌, Option, some,
  List, u64, if◌then◌else◌, length,
}
use networkdoctor_prestudy.Base.Int.{ℤ, pos}
use networkdoctor_prestudy.Platform.{BpfMaps, MapLaws}
use networkdoctor_prestudy.Kernel.{Objects, FlowKey}
use networkdoctor_prestudy.Kernel.Helpers.{
  Hook, Sock, EventType, tcp_connect_fail, is_state, tcp_established, tcp_close, zero_flow,
  nd_is_ipv4_sock, nd_flow4_from_sock, nd_is_syn_state,
}
use networkdoctor_prestudy.Kernel.Update.{
  nd_add_s64_percpu_array, nd_inc_tcp_counter, nd_tcp_state_delta_add, nd_submit_event,
}
use networkdoctor_prestudy.Kernel.Tcp.{
  ipproto_tcp, nd_dir_unknown, state_u64, count_transition, enter_established, leave_established,
  nd_inet_sock_set_state,
}
use networkdoctor_prestudy.Snapshot.{lookup_per_cpu, sum_u64_per_cpu, sum_tcp_state}
use networkdoctor_prestudy.Snapshot.Sums.{
  sum_u64_per_cpu-add, lookup_per_cpu-modify_ne, sum_u64_per_cpu-other,
}

module _ (m : BpfMaps) where
  leave_established-delta :
      (h : Hook) (sk : Sock) (have_flow : Bool) (flow : FlowKey) (o : Objects m)
      → (leave_established m h sk have_flow flow o).nd_tcp_state_delta ≡ o.nd_tcp_state_delta
  unfolding leave_established nd_inc_tcp_counter nd_submit_event
  leave_established-delta h sk have_flow flow o = ground arith

  abbrev minus_one : ℕ
  minus_one = 2 ^ 64 - 1

  count_transition-delta :
      (h : Hook) (a b : ℕ) (o : Objects m)
      → a < 16
      → b < 16
      → (count_transition m h (pos a) (pos b) o).nd_tcp_state_delta
        ≡ nd_add_s64_percpu_array m
            (nd_add_s64_percpu_array m o.nd_tcp_state_delta h.cpu a minus_one)
            h.cpu
            b
            1
  unfolding count_transition nd_tcp_state_delta_add nd_inc_tcp_counter
  count_transition-delta h a b o ha hb = ground arith

  pub record SameGauges (o x : Objects m) : Type 0 where
    pub same : x.nd_tcp_state_delta ≡ o.nd_tcp_state_delta

  if-SameGauges :
      (t : Bool) (x y o : Objects m)
      → SameGauges o x
      → SameGauges o y
      → SameGauges o (if t then x else y)
  if-SameGauges true x y o p q = p
  if-SameGauges false x y o p q = q

  connect_failed-delta :
      (h : Hook) (site : ℕ) (type : EventType) (flow : Option FlowKey) (value aux : ℕ)
      (o : Objects m)
      → (nd_submit_event m h site type flow value aux
          (nd_inc_tcp_counter m h 3 o)).nd_tcp_state_delta
        ≡ o.nd_tcp_state_delta
  unfolding nd_inc_tcp_counter nd_submit_event
  connect_failed-delta h site type flow value aux o = ground arith

  pub set_state-SameGauges :
      (h : Hook) (sk : Sock) (a b : ℤ) (o : Objects m)
      → nd_is_ipv4_sock sk ≡ true
      → SameGauges (count_transition m h a b o) (nd_inet_sock_set_state m h (some sk) a b o)
  unfolding nd_inet_sock_set_state enter_established nd_inc_tcp_counter
  set_state-SameGauges h sk a b o v4 =
      let o' = count_transition m h a b o in
      let (have_flow, flow) = nd_flow4_from_sock (some sk) ipproto_tcp nd_dir_unknown zero_flow in
      let failed = nd_inc_tcp_counter m h 3 o' in
      let reported =
        nd_submit_event m h 2 tcp_connect_fail (some flow) (state_u64 a) (state_u64 b) failed in
      let after_failed : SameGauges o' (if have_flow then reported else failed) =
        if-SameGauges have_flow _ _ o' (record { same = connect_failed-delta h 2 _ _ _ _ o' })
          (record { same = refl }) in
      rw v4 (
        if-SameGauges (is_state b tcp_established) (enter_established m h sk flow b o') _ o'
          (record { same = refl })
          (if-SameGauges (is_state a tcp_established) (leave_established m h sk have_flow flow o') _
            o' (record { same = leave_established-delta h sk have_flow flow o' })
            (if-SameGauges (nd_is_syn_state a && is_state b tcp_close)
              (if have_flow then reported else failed) o' o' after_failed
              (record { same = refl }))))

module _ (m : BpfMaps) (laws : MapLaws m) (num_cpu : ℕ) where
  sum_tcp_state-u64 :
      (a : m.PerCpu ℕ) (key : ℕ) → sum_tcp_state m num_cpu a key ≡ sum_u64_per_cpu m num_cpu a key
  unfolding sum_tcp_state sum_u64_per_cpu
  sum_tcp_state-u64 a key = refl

  pub sum_tcp_state-add :
      (a : m.PerCpu ℕ) (cpu key d : ℕ) (vs : List ℕ)
      → lookup_per_cpu m num_cpu a key ≡ some vs
      → cpu < length vs
      → sum_tcp_state m num_cpu (nd_add_s64_percpu_array m a cpu key d) key
        ≡ u64 (sum_tcp_state m num_cpu a key + d)
  unfolding nd_add_s64_percpu_array
  sum_tcp_state-add a cpu key d vs e h =
      sum_tcp_state-u64 _ key
      ∙ sum_u64_per_cpu-add m laws num_cpu a cpu key d vs e h
      ∙ ap (λ s. u64 (s + d)) (sym (sum_tcp_state-u64 a key))

  pub sum_tcp_state-other :
      (a : m.PerCpu ℕ) (cpu key other d : ℕ)
      → key ≢ other
      → sum_tcp_state m num_cpu (nd_add_s64_percpu_array m a cpu key d) other
        ≡ sum_tcp_state m num_cpu a other
  unfolding nd_add_s64_percpu_array
  sum_tcp_state-other a cpu key other d ne =
      sum_tcp_state-u64 _ other
      ∙ sum_u64_per_cpu-other m laws num_cpu a cpu key other _ ne
      ∙ sym (sum_tcp_state-u64 a other)

  lookup-add_ne :
      (a : m.PerCpu ℕ) (cpu key other d : ℕ)
      → key ≢ other
      → lookup_per_cpu m num_cpu (nd_add_s64_percpu_array m a cpu key d) other
        ≡ lookup_per_cpu m num_cpu a other
  unfolding nd_add_s64_percpu_array
  lookup-add_ne a cpu key other d ne = lookup_per_cpu-modify_ne m laws num_cpu a cpu key other _ ne

  -- What one state change of an IPv4 socket, between two different states below 16, does to the
  -- gauges that a scrape reads, as int64 bit patterns, if user space sees the CPU's slots of both:
  -- the gauge of the new state goes up by one, that of the old state down by one, and that of any
  -- third state stays.
  pub set_state-gauges :
      (h : Hook) (sk : Sock) (a b c : ℕ) (o : Objects m) (olds news : List ℕ)
      → nd_is_ipv4_sock sk ≡ true
      → a < 16
      → b < 16
      → a ≢ b
      → a ≢ c
      → b ≢ c
      → lookup_per_cpu m num_cpu o.nd_tcp_state_delta a ≡ some olds
      → lookup_per_cpu m num_cpu o.nd_tcp_state_delta b ≡ some news
      → h.cpu < length olds
      → h.cpu < length news
      → let o' = nd_inet_sock_set_state m h (some sk) (pos a) (pos b) o in
        (sum_tcp_state m num_cpu o'.nd_tcp_state_delta b
          ≡ u64 (sum_tcp_state m num_cpu o.nd_tcp_state_delta b + 1))
        × (sum_tcp_state m num_cpu o'.nd_tcp_state_delta a
            ≡ u64 (sum_tcp_state m num_cpu o.nd_tcp_state_delta a + (2 ^ 64 - 1)))
        × (sum_tcp_state m num_cpu o'.nd_tcp_state_delta c
            ≡ sum_tcp_state m num_cpu o.nd_tcp_state_delta c)
  set_state-gauges h sk a b c o olds news v4 ha hb ne na nb fa fb la lb =
      let d = o.nd_tcp_state_delta in
      let left = nd_add_s64_percpu_array m d h.cpu a (minus_one m) in
      rw
        (
          (set_state-SameGauges m h sk (pos a) (pos b) o v4).same,
          count_transition-delta m h a b o ha hb,
        )
        (
          sum_tcp_state-add left h.cpu b 1 news (lookup-add_ne d h.cpu a b _ ne ∙ fb) lb
              ∙ ap (λ s. u64 (s + 1)) (sum_tcp_state-other d h.cpu a b _ ne),
          sum_tcp_state-other left h.cpu b a 1 (λ e. ne (sym e))
              ∙ sum_tcp_state-add d h.cpu a (minus_one m) olds fa la,
          sum_tcp_state-other left h.cpu b c 1 nb ∙ sum_tcp_state-other d h.cpu a c _ na,
        )
