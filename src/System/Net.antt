-- ===== src/System/Net.antt =====
-- What the hooks of TCP and of the scheduler leave alone: the maps of UDP and DNS, and of each other.
use networkdoctor_prestudy.Base.{
  ℕ, ◌/◌, ◌≡◌, refl, ap, ◌∙◌, arith, Bool, true, false, not, ◌&&◌, Option, none, some,
  if◌then◌else◌, ℕ_discrete,
}
use networkdoctor_prestudy.Base.Int.{ℤ}
use networkdoctor_prestudy.Platform.{BpfMaps}
use networkdoctor_prestudy.Kernel.{
  Objects, FlowKey, TcpFlow, Retrans, DnsKey, DnsKey-discrete, DnsPending, TcpConnLife,
  FlowKey-discrete, UdpFlow, UdpCounters, DnsCounters, TcpCounters,
}
use networkdoctor_prestudy.Kernel.Helpers.{
  Hook, Sock, zero_flow, nd_is_ipv4_sock, nd_flow4_from_sock, nd_get_config, is_state,
  nd_is_syn_state, tcp_established, tcp_close, tcp_connect_fail,
}
use networkdoctor_prestudy.Kernel.Update.{
  nd_inc_tcp_counter, nd_submit_event, nd_tcp_state_delta_add,
}
use networkdoctor_prestudy.Kernel.Tcp.{
  ipproto_tcp, nd_dir_unknown, state_u64, count_transition, enter_established, leave_established,
  nd_inet_sock_set_state, flow_value, retrans_value, sample_rtt, sample_cwnd, report_rtt,
  report_cwnd, report_burst, note_retrans, nd_tcp_rcv_established, nd_tcp_retransmit_skb,
}
use networkdoctor_prestudy.Kernel.Sched.{
  nd_sched_wakeup_common, nd_sched_switch, switch_to, record_runqlat,
}

module _ (m : BpfMaps) where
  -- The pending queries, the flows, and the UDP and the DNS counters.
  abbrev pub Net : Type 0
  Net =
      m.Hash DnsKey DnsKey-discrete DnsPending
      × m.Hash FlowKey FlowKey-discrete UdpFlow
      × m.PerCpu UdpCounters
      × m.PerCpu DnsCounters

  abbrev pub net : Objects m → Net
  net o = (o.nd_dns_pending, o.nd_udp_flows, o.nd_udp_counters, o.nd_dns_counters)

  abbrev pub Waiting : Type 0
  Waiting = m.Hash ℕ ℕ_discrete ℕ

  abbrev pub Open : Type 0
  Open = m.Hash ℕ ℕ_discrete TcpConnLife

  -- Those with the tasks that wait, with the connections that are open and the counters of TCP, and
  -- with the tasks and the connections.
  abbrev pub net_tasks : Objects m → Net × Waiting
  net_tasks o = (net o, o.nd_runq_start)

  abbrev pub net_conns : Objects m → Net × Open × m.PerCpu TcpCounters
  net_conns o = (net o, o.nd_tcp_conn_life, o.nd_tcp_counters)

  abbrev pub kept : Objects m → Net × Waiting × Open
  kept o = (net o, o.nd_runq_start, o.nd_tcp_conn_life)

  abbrev pub SameNet : Objects m → Objects m → Type 0
  SameNet o x = net x ≡ net o

  abbrev pub SameTasks : Objects m → Objects m → Type 0
  SameTasks o x = net_tasks x ≡ net_tasks o

  abbrev pub SameConns : Objects m → Objects m → Type 0
  SameConns o x = net_conns x ≡ net_conns o

  abbrev pub SameKept : Objects m → Objects m → Type 0
  SameKept o x = kept x ≡ kept o

  pub if-same :
      {A : Type 0} (view : Objects m → A) (t : Bool) (x y : Objects m) (v : A)
      → view x ≡ v
      → view y ≡ v
      → view (if t then x else y) ≡ v
  if-same view true x y v p q = p
  if-same view false x y v p q = q

  count_transition-SameTasks :
      (h : Hook) (a b : ℤ) (o : Objects m) → SameTasks o (count_transition m h a b o)
  unfolding count_transition nd_tcp_state_delta_add nd_inc_tcp_counter
  count_transition-SameTasks h a b o = ground arith

  leave_established-SameTasks :
      (h : Hook) (sk : Sock) (have_flow : Bool) (flow : FlowKey) (o : Objects m)
      → SameTasks o (leave_established m h sk have_flow flow o)
  unfolding leave_established nd_inc_tcp_counter nd_submit_event
  leave_established-SameTasks h sk have_flow flow o = ground arith

  failed-SameTasks :
      (h : Hook) (flow : FlowKey) (value aux : ℕ) (o : Objects m)
      → SameTasks o (
          nd_submit_event m h 2 tcp_connect_fail (some flow) value aux (nd_inc_tcp_counter m h 3 o))
  unfolding nd_submit_event nd_inc_tcp_counter
  failed-SameTasks h flow value aux o = ground arith

  pub set_state-SameTasks :
      (h : Hook) (sk : Option Sock) (a b : ℤ) (o : Objects m)
      → SameTasks o (nd_inet_sock_set_state m h sk a b o)
  unfolding nd_inet_sock_set_state enter_established nd_inc_tcp_counter
  set_state-SameTasks h none a b o = refl
  set_state-SameTasks h (some sk) a b o =
      let o1 = count_transition m h a b o in
      let same1 = count_transition-SameTasks h a b o in
      let (have_flow, flow) = nd_flow4_from_sock (some sk) ipproto_tcp nd_dir_unknown zero_flow in
      if-same net_tasks (not (nd_is_ipv4_sock sk)) o _ (net_tasks o) refl (
        if-same net_tasks (is_state b tcp_established) (enter_established m h sk flow b o1) _
          (net_tasks o) same1
          (if-same net_tasks (is_state a tcp_established)
            (leave_established m h sk have_flow flow o1) _ (net_tasks o)
            (leave_established-SameTasks h sk have_flow flow o1 ∙ same1)
            (if-same net_tasks (nd_is_syn_state a && is_state b tcp_close) _ o1 (net_tasks o)
              (if-same net_tasks have_flow _ (nd_inc_tcp_counter m h 3 o1) (net_tasks o)
                (failed-SameTasks h flow (state_u64 a) (state_u64 b) o1 ∙ same1) same1)
              same1)))

  report_rtt-SameKept :
      (h : Hook) (flow : FlowKey) (v : TcpFlow) (o : Objects m)
      → SameKept o (report_rtt m h flow v o).1
  unfolding report_rtt nd_submit_event
  report_rtt-SameKept h flow v o = ground arith

  report_cwnd-SameKept :
      (h : Hook) (flow : FlowKey) (v : TcpFlow) (o : Objects m)
      → SameKept o (report_cwnd m h flow v o).1
  unfolding report_cwnd nd_submit_event
  report_cwnd-SameKept h flow v o = ground arith

  report_burst-SameKept :
      (h : Hook) (flow : FlowKey) (v : Retrans) (o : Objects m)
      → SameKept o (report_burst m h flow v o).1
  unfolding report_burst nd_submit_event nd_inc_tcp_counter
  report_burst-SameKept h flow v o = ground arith

  note_retrans-SameKept :
      (h : Hook) (flow : FlowKey) (o : Objects m) → SameKept o (note_retrans m h flow o)
  unfolding note_retrans
  note_retrans-SameKept h flow o = ground arith

  sample-SameKept :
      (h : Hook) (srtt size : ℕ) (o : Objects m)
      → SameKept o (sample_cwnd m h size (sample_rtt m h srtt o))
  unfolding sample_cwnd sample_rtt nd_inc_tcp_counter
  sample-SameKept h srtt size o = ground arith

  pub rcv_established-SameKept :
      (h : Hook) (sk : Option Sock) (o : Objects m) → SameKept o (nd_tcp_rcv_established m h sk o)
  unfolding nd_tcp_rcv_established
  rcv_established-SameKept h none o = refl
  rcv_established-SameKept h (some sk) o =
      let o1 = sample_cwnd m h sk.snd_cwnd (sample_rtt m h (sk.srtt_us / 8) o) in
      let same1 = sample-SameKept h (sk.srtt_us / 8) sk.snd_cwnd o in
      let (have_flow, flow) = nd_flow4_from_sock (some sk) ipproto_tcp nd_dir_unknown zero_flow in
      let newv =
        flow_value m (h.ktime 0) (sk.srtt_us / 8) sk.snd_cwnd
          (m.lookup o1.nd_tcp_flow_latest flow) in
      let (v2, o2) = report_rtt m h flow newv o1 in
      if-same kept (not (nd_is_ipv4_sock sk)) o _ (kept o) refl (
        if-same kept (not have_flow) o1 _ (kept o) same1
          (report_cwnd-SameKept h flow v2 o2 ∙ report_rtt-SameKept h flow newv o1 ∙ same1))

  pub retransmit-SameKept :
      (h : Hook) (sk : Option Sock) (o : Objects m) → SameKept o (nd_tcp_retransmit_skb m h sk o)
  unfolding nd_tcp_retransmit_skb nd_inc_tcp_counter
  retransmit-SameKept h none o = refl
  retransmit-SameKept h (some sk) o =
      let o1 = nd_inc_tcp_counter m h 4 o in
      let (have_flow, flow) = nd_flow4_from_sock (some sk) ipproto_tcp nd_dir_unknown zero_flow in
      let newv =
        retrans_value m (h.ktime 0) (nd_get_config o1.nd_config).retrans_burst_window_ns
          (m.lookup o1.nd_tcp_retrans_by_flow flow) in
      let (v2, o2) = report_burst m h flow newv o1 in
      let o3 : Objects m = record o2 {
        nd_tcp_retrans_by_flow = m.update o2.nd_tcp_retrans_by_flow flow v2;
      } in
      if-same kept (not (nd_is_ipv4_sock sk)) o _ (kept o) refl (
        if-same kept (not have_flow) o1 _ (kept o) refl
          (note_retrans-SameKept h flow o3 ∙ report_burst-SameKept h flow newv o1))

  pub switch-SameConns :
      (h : Hook) (p : Option ℕ) (o : Objects m) → SameConns o (nd_sched_switch m h p o)
  unfolding nd_sched_switch switch_to record_runqlat nd_submit_event
  switch-SameConns h p o = ground arith

  pub wakeup-SameConns :
      (h : Hook) (p : Option ℕ) (o : Objects m) → SameConns o (nd_sched_wakeup_common m h p o)
  unfolding nd_sched_wakeup_common
  wakeup-SameConns h p o = ground arith

  -- So they leave UDP and DNS alone.
  pub set_state-SameNet :
      (h : Hook) (sk : Option Sock) (a b : ℤ) (o : Objects m)
      → SameNet o (nd_inet_sock_set_state m h sk a b o)
  set_state-SameNet h sk a b o = ap (λ n. n.0) (set_state-SameTasks h sk a b o)

  pub rcv_established-SameNet :
      (h : Hook) (sk : Option Sock) (o : Objects m) → SameNet o (nd_tcp_rcv_established m h sk o)
  rcv_established-SameNet h sk o = ap (λ n. n.0) (rcv_established-SameKept h sk o)

  pub retransmit-SameNet :
      (h : Hook) (sk : Option Sock) (o : Objects m) → SameNet o (nd_tcp_retransmit_skb m h sk o)
  retransmit-SameNet h sk o = ap (λ n. n.0) (retransmit-SameKept h sk o)

  pub switch-SameNet :
      (h : Hook) (p : Option ℕ) (o : Objects m) → SameNet o (nd_sched_switch m h p o)
  switch-SameNet h p o = ap (λ n. n.0) (switch-SameConns h p o)

  pub wakeup-SameNet :
      (h : Hook) (p : Option ℕ) (o : Objects m) → SameNet o (nd_sched_wakeup_common m h p o)
  wakeup-SameNet h p o = ap (λ n. n.0) (wakeup-SameConns h p o)
