-- ===== src/Kernel/Tcp/Connections.antt =====
-- The life of a connection in the state-change hook, from ESTABLISHED to the state after it.
use networkdoctor_prestudy.Base.{
  ℕ, ◌≡◌, refl, ap, ap₂, ◌∙◌, arith, Bool, true, false, ◌&&◌, Option, none, some, ltb,
  if◌then◌else◌, ℕ_discrete,
}
use networkdoctor_prestudy.Base.Int.{ℤ, pos}
use networkdoctor_prestudy.Platform.{BpfMaps, MapLaws, NeverFails, NeverRefuses, lookup-delete_gone}
use networkdoctor_prestudy.Kernel.{Objects, FlowKey, TcpConnLife, TcpCounters, NdConfig}
use networkdoctor_prestudy.Kernel.Helpers.{
  Hook, Sock, is_state, tcp_established, nd_get_config, nd_is_ipv4_sock, nd_flow4_from_sock,
  zero_flow, bump_tcp,
}
use networkdoctor_prestudy.Kernel.Update.{modify_slot, nd_inc_tcp_counter, nd_submit_event}
use networkdoctor_prestudy.Kernel.Tcp.{
  ipproto_tcp, nd_dir_unknown, count_transition, enter_established, leave_established,
  nd_inet_sock_set_state,
}
use networkdoctor_prestudy.Kernel.Udp.{micros_since}

module _ (m : BpfMaps) where
  open m use {PerCpu, lookup, delete}

  -- closed_total, and short_lived_total if the connection was short.
  abbrev pub count_closed : Hook → Bool → PerCpu TcpCounters → PerCpu TcpCounters
  count_closed h short counters =
      let closed = modify_slot m counters h.cpu 0 (bump_tcp 0) in
      if short then modify_slot m closed h.cpu 0 (bump_tcp 1) else closed

  -- A duration of at least a microsecond and below the threshold.
  abbrev pub is_short : ℕ → Objects m → Bool
  is_short dur_us o = ltb 0 dur_us && ltb dur_us (nd_get_config o.nd_config).short_tcp_conn_us

  pub leave_established-found :
      (h : Hook) (sk : Sock) (have_flow : Bool) (flow : FlowKey) (o : Objects m)
      (life : TcpConnLife)
      → lookup o.nd_tcp_conn_life sk.address ≡ some life
      → let o' = leave_established m h sk have_flow flow o in
        (o'.nd_tcp_conn_life ≡ (delete o.nd_tcp_conn_life sk.address).0)
        × (o'.nd_tcp_counters
            ≡ count_closed h
                (is_short (micros_since (h.ktime 0) life.start_ns) o)
                o.nd_tcp_counters)
  unfolding leave_established nd_inc_tcp_counter nd_submit_event
  leave_established-found h sk have_flow flow o life e =
      rw (leave_established, e) (ground arith, ground arith)

  pub count_transition-frame :
      (h : Hook) (a b : ℤ) (o : Objects m)
      → let o' = count_transition m h a b o in
        (o'.nd_tcp_conn_life ≡ o.nd_tcp_conn_life) × (o'.nd_config ≡ o.nd_config)
  unfolding count_transition networkdoctor_prestudy.Kernel.Update.nd_tcp_state_delta_add
      nd_inc_tcp_counter
  count_transition-frame h a b o = (ground arith, ground arith)

  pub opened_life :
      (h : Hook) (sk : Sock) (a : ℤ) (o : Objects m)
      → NeverRefuses m ℕ ℕ_discrete TcpConnLife
      → nd_is_ipv4_sock sk ≡ true
      → (life : TcpConnLife) × (lookup
            (nd_inet_sock_set_state m h (some sk) a (pos 1) o).nd_tcp_conn_life
            sk.address
          ≡ some life)
        × (life.start_ns ≡ h.ktime 0)
  unfolding nd_inet_sock_set_state enter_established
  opened_life h sk a o taken v4 =
      rw v4 (_, taken (count_transition m h a (pos 1) o).nd_tcp_conn_life sk.address _, refl)

  pub closed_by :
      (h : Hook) (sk : Sock) (b : ℤ) (o : Objects m)
      → nd_is_ipv4_sock sk ≡ true
      → is_state b tcp_established ≡ false
      → nd_inet_sock_set_state m h (some sk) (pos 1) b o ≡ (
          let (have_flow, flow) =
            nd_flow4_from_sock (some sk) ipproto_tcp nd_dir_unknown zero_flow in
          leave_established m h sk have_flow flow (count_transition m h (pos 1) b o))
  unfolding nd_inet_sock_set_state
  closed_by h sk b o v4 left = rw (nd_inet_sock_set_state, v4, left) refl

  -- An IPv4 socket enters ESTABLISHED and, in the next step, leaves it, if the map takes the record of
  -- the connection and no delete fails: besides what the change of state itself counts, the
  -- connection is counted as closed, and as short-lived exactly if the whole microseconds between
  -- the two, 0 if the clock ran back, are positive and below the threshold; and its record is gone.
  pub connection_closed :
      NeverRefuses m ℕ ℕ_discrete TcpConnLife
      → MapLaws m
      → NeverFails m ℕ ℕ_discrete TcpConnLife
      → (h h' : Hook) (sk : Sock) (a b : ℤ) (o : Objects m) → nd_is_ipv4_sock sk ≡ true
      → is_state b tcp_established ≡ false
      → let opened = nd_inet_sock_set_state m h (some sk) a (pos 1) o in
        let closed = nd_inet_sock_set_state m h' (some sk) (pos 1) b opened in
        (closed.nd_tcp_counters
          ≡ count_closed h'
              (is_short (micros_since (h'.ktime 0) (h.ktime 0)) opened)
              (count_transition m h' (pos 1) b opened).nd_tcp_counters)
        × (lookup closed.nd_tcp_conn_life sk.address ≡ none)
  connection_closed taken laws ok h h' sk a b o v4 left =
      let opened = nd_inet_sock_set_state m h (some sk) a (pos 1) o in
      let counted = count_transition m h' (pos 1) b opened in
      let (life, found, start) = opened_life h sk a o taken v4 in
      let (same_life, same_config) = count_transition-frame h' (pos 1) b opened in
      let (gone, counters) =
        leave_established-found h' sk _ _ counted life
          (ap (λ s. lookup s sk.address) same_life ∙ found) in
      let leaving = closed_by h' sk b opened v4 left in
      (
        ap (λ x. x.nd_tcp_counters) leaving
            ∙ counters
            ∙ ap₂
                (λ (s : ℕ) (c : Option NdConfig).
                  count_closed h'
                    (ltb 0 (micros_since (h'.ktime 0) s)
                      && ltb (micros_since (h'.ktime 0) s) (nd_get_config c).short_tcp_conn_us)
                    counted.nd_tcp_counters)
                start same_config,
        ap (λ x. lookup x.nd_tcp_conn_life sk.address) leaving
            ∙ ap (λ s. lookup s sk.address) gone
            ∙ lookup-delete_gone m ℕ ℕ_discrete TcpConnLife laws ok counted.nd_tcp_conn_life
                sk.address,
      )
