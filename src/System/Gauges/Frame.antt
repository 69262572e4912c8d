-- ===== src/System/Gauges/Frame.antt =====
-- The hooks and the collection that leave the gauges of the TCP states alone.
use networkdoctor_prestudy.Base.{
  ℕ, ◌/◌, ◌≡◌, refl, ◌∙◌, arith, Bool, true, false, not, ◌&&◌, Option, none, some, List,
  if◌then◌else◌, ◌==◌, subst, inl, inr, Option-cases,
}
use networkdoctor_prestudy.Platform.{BpfMaps}
use networkdoctor_prestudy.Kernel.{Objects, FlowKey, TcpFlow, Retrans, DnsKey, DnsPending, UdpFlow}
use networkdoctor_prestudy.Kernel.Helpers.{
  Hook, Sock, EventType, zero_flow, nd_is_ipv4_sock, nd_flow4_from_sock, nd_get_config,
}
use networkdoctor_prestudy.Kernel.Update.{
  nd_inc_tcp_counter, nd_inc_dns_counter, nd_inc_udp_counter, nd_submit_event,
  nd_submit_event_no_pid,
}
use networkdoctor_prestudy.Kernel.Packet.{UdpHeader, DnsHeader, parse_frame, parse_dns}
use networkdoctor_prestudy.Kernel.Tcp.{
  ipproto_tcp, nd_dir_unknown, flow_value, retrans_value, sample_rtt, sample_cwnd, report_rtt,
  report_cwnd, report_burst, note_retrans, nd_tcp_rcv_established, nd_tcp_retransmit_skb,
}
use networkdoctor_prestudy.Kernel.Udp.{
  SkBuff, continue_flow, account_udp, dns_query, dns_response, count_rcode, settle, account_dns,
  inspect_dns, nd_parse_ipv4_udp, is_response, dns_port, response_key, dns_rcode, udp_flow_key,
}
use networkdoctor_prestudy.Kernel.Sched.{
  nd_sched_wakeup_common, nd_sched_switch, switch_to, record_runqlat,
}
use networkdoctor_prestudy.System.Sound.Headers.{Yields, Yields-if, Yields-any}
use networkdoctor_prestudy.Gc.{Timespec, gc}

module _ (m : BpfMaps) where
  -- The gauges of the two states are the same.
  abbrev pub SameGauges : Objects m → Objects m → Type 0
  SameGauges o x = x.nd_tcp_state_delta ≡ o.nd_tcp_state_delta

  submit-SameGauges :
      (h : Hook) (site : ℕ) (type : EventType) (flow : Option FlowKey) (value aux : ℕ)
      (o : Objects m)
      → SameGauges o (nd_submit_event m h site type flow value aux o)
  unfolding nd_submit_event
  submit-SameGauges h site type flow value aux o = ground arith

  submit_no_pid-SameGauges :
      (h : Hook) (site : ℕ) (type : EventType) (flow : Option FlowKey) (value aux : ℕ)
      (o : Objects m)
      → SameGauges o (nd_submit_event_no_pid m h site type flow value aux o)
  unfolding nd_submit_event_no_pid
  submit_no_pid-SameGauges h site type flow value aux o = ground arith

  report_rtt-SameGauges :
      (h : Hook) (flow : FlowKey) (v : TcpFlow) (o : Objects m)
      → SameGauges o (report_rtt m h flow v o).1
  unfolding report_rtt nd_submit_event
  report_rtt-SameGauges h flow v o = ground arith

  report_cwnd-SameGauges :
      (h : Hook) (flow : FlowKey) (v : TcpFlow) (o : Objects m)
      → SameGauges o (report_cwnd m h flow v o).1
  unfolding report_cwnd nd_submit_event
  report_cwnd-SameGauges h flow v o = ground arith

  report_burst-SameGauges :
      (h : Hook) (flow : FlowKey) (v : Retrans) (o : Objects m)
      → SameGauges o (report_burst m h flow v o).1
  unfolding report_burst nd_submit_event nd_inc_tcp_counter
  report_burst-SameGauges h flow v o = ground arith

  note_retrans-SameGauges :
      (h : Hook) (flow : FlowKey) (o : Objects m) → SameGauges o (note_retrans m h flow o)
  unfolding note_retrans
  note_retrans-SameGauges h flow o = ground arith

  sample-SameGauges :
      (h : Hook) (srtt cwnd : ℕ) (o : Objects m)
      → SameGauges o (sample_cwnd m h cwnd (sample_rtt m h srtt o))
  unfolding sample_cwnd sample_rtt nd_inc_tcp_counter
  sample-SameGauges h srtt cwnd o = ground arith

  account_udp-SameGauges :
      (h : Hook) (skb : SkBuff) (flow : FlowKey) (o : Objects m)
      → SameGauges o (account_udp m h skb flow o)
  unfolding account_udp continue_flow nd_inc_udp_counter nd_submit_event_no_pid
  account_udp-SameGauges h skb flow o = ground arith

  count_rcode-SameGauges :
      (h : Hook) (flow : FlowKey) (rcode : ℕ) (o : Objects m)
      → SameGauges o (count_rcode m h flow rcode o)
  unfolding count_rcode nd_inc_dns_counter nd_submit_event_no_pid
  count_rcode-SameGauges h flow rcode o = ground arith

  settle-SameGauges :
      (h : Hook) (flow : FlowKey) (key : DnsKey) (rcode : ℕ) (pending : DnsPending) (o : Objects m)
      → SameGauges o (settle m h flow key rcode pending o)
  unfolding settle nd_inc_dns_counter nd_submit_event_no_pid
  settle-SameGauges h flow key rcode pending o = ground arith

  dns_response-SameGauges :
      (h : Hook) (flow : FlowKey) (key : DnsKey) (rcode : ℕ) (o : Objects m)
      → SameGauges o (dns_response m h flow key rcode o)
  unfolding dns_response nd_inc_dns_counter
  dns_response-SameGauges h flow key rcode o =
      let counted = count_rcode m h flow rcode (nd_inc_dns_counter m h 1 o) in
      let same = count_rcode-SameGauges h flow rcode (nd_inc_dns_counter m h 1 o) in
      elim (Option-cases (m.lookup counted.nd_dns_pending key)) [
        | inl e ↦ rw (dns_response, e) same
        | inr (pending, e) ↦
            rw (dns_response, e) (settle-SameGauges h flow key rcode pending counted ∙ same)
      ]

  if-SameGauges :
      (t : Bool) (x y o : Objects m)
      → SameGauges o x
      → SameGauges o y
      → SameGauges o (if t then x else y)
  if-SameGauges true x y o p q = p
  if-SameGauges false x y o p q = q

  account_dns-SameGauges :
      (h : Hook) (skb : SkBuff) (flow : FlowKey) (udp : UdpHeader) (dns : DnsHeader) (o : Objects m)
      → SameGauges o (account_dns m h skb flow udp dns o)
  unfolding account_dns dns_query nd_inc_dns_counter
  account_dns-SameGauges h skb flow udp dns o =
      if-SameGauges (not (is_response dns.flags) && (udp.dport == dns_port)) _ _ o refl (
        if-SameGauges (is_response dns.flags && (udp.sport == dns_port)) _ o o
          (dns_response-SameGauges h flow (response_key skb udp dns.txid) (dns_rcode dns.flags) o)
          refl)

  inspect_dns-Yields :
      (h : Hook) (skb : SkBuff) (flow : FlowKey) (udp : UdpHeader) (o : Objects m)
      → Yields (SameGauges o) (inspect_dns m h skb flow udp o)
  unfolding inspect_dns
  inspect_dns-Yields h skb flow udp o =
      Yields-if (SameGauges o) (not (udp.sport == dns_port) && not (udp.dport == dns_port)) (some o)
        _ refl
        (Yields-any (SameGauges o) (parse_dns skb.packet udp.payload) _
          (elim [ none ↦ refl | some header ↦ account_dns-SameGauges h skb flow udp header o ]))

  tc-Yields :
      (h : Hook) (skb : SkBuff) (direction : ℕ) (o : Objects m)
      → Yields (SameGauges o) (nd_parse_ipv4_udp m h skb direction o)
  unfolding nd_parse_ipv4_udp
  tc-Yields h skb direction o = elim (Option-cases (parse_frame skb.packet)) [
    | inl e ↦ rw (nd_parse_ipv4_udp, e) tt
    | inr (none, e) ↦ rw (nd_parse_ipv4_udp, e) refl
    | inr (some udp, e) ↦
        let flow = udp_flow_key skb direction udp in
        let o1 = account_udp m h skb flow o in
        rw (nd_parse_ipv4_udp, e)
          (subst
            (λ d.
              Yields (λ (x : Objects m). x.nd_tcp_state_delta ≡ d)
                (inspect_dns m h skb flow udp o1))
            (account_udp-SameGauges h skb flow o) (inspect_dns-Yields h skb flow udp o1))
  ]

  pub tc-SameGauges :
      (h : Hook) (skb : SkBuff) (direction : ℕ) (o o' : Objects m)
      → nd_parse_ipv4_udp m h skb direction o ≡ some o'
      → SameGauges o o'
  unfolding nd_parse_ipv4_udp inspect_dns
  tc-SameGauges h skb direction o o' e =
      subst (Yields (SameGauges o)) e (tc-Yields h skb direction o)

  pub rcv_established-SameGauges :
      (h : Hook) (sk : Option Sock) (o : Objects m) → SameGauges o (nd_tcp_rcv_established m h sk o)
  unfolding nd_tcp_rcv_established
  rcv_established-SameGauges h none o = refl
  rcv_established-SameGauges h (some sk) o =
      let o1 = sample_cwnd m h sk.snd_cwnd (sample_rtt m h (sk.srtt_us / 8) o) in
      let same1 = sample-SameGauges h (sk.srtt_us / 8) sk.snd_cwnd o in
      let (have_flow, flow) = nd_flow4_from_sock (some sk) ipproto_tcp nd_dir_unknown zero_flow in
      let newv =
        flow_value m (h.ktime 0) (sk.srtt_us / 8) sk.snd_cwnd
          (m.lookup o1.nd_tcp_flow_latest flow) in
      let (v2, o2) = report_rtt m h flow newv o1 in
      if-SameGauges (not (nd_is_ipv4_sock sk)) o _ o refl (
        if-SameGauges (not have_flow) o1 _ o same1
          (report_cwnd-SameGauges h flow v2 o2 ∙ report_rtt-SameGauges h flow newv o1 ∙ same1))

  pub retransmit-SameGauges :
      (h : Hook) (sk : Option Sock) (o : Objects m) → SameGauges o (nd_tcp_retransmit_skb m h sk o)
  unfolding nd_tcp_retransmit_skb
  retransmit-SameGauges h none o = refl
  retransmit-SameGauges h (some sk) o =
      let o1 = nd_inc_tcp_counter m h 4 o in
      let same1 : SameGauges o o1 = unfold nd_inc_tcp_counter in refl in
      let (have_flow, flow) = nd_flow4_from_sock (some sk) ipproto_tcp nd_dir_unknown zero_flow in
      let newv =
        retrans_value m (h.ktime 0) (nd_get_config o1.nd_config).retrans_burst_window_ns
          (m.lookup o1.nd_tcp_retrans_by_flow flow) in
      let (v2, o2) = report_burst m h flow newv o1 in
      let o3 : Objects m = record o2 {
        nd_tcp_retrans_by_flow = m.update o2.nd_tcp_retrans_by_flow flow v2;
      } in
      if-SameGauges (not (nd_is_ipv4_sock sk)) o _ o refl (
        if-SameGauges (not have_flow) o1 _ o same1
          (note_retrans-SameGauges h flow o3 ∙ report_burst-SameGauges h flow newv o1 ∙ same1))

  pub switch-SameGauges :
      (h : Hook) (p : Option ℕ) (o : Objects m) → SameGauges o (nd_sched_switch m h p o)
  unfolding nd_sched_switch switch_to record_runqlat nd_submit_event
  switch-SameGauges h p o = ground arith

  pub wakeup-SameGauges :
      (h : Hook) (p : Option ℕ) (o : Objects m) → SameGauges o (nd_sched_wakeup_common m h p o)
  unfolding nd_sched_wakeup_common
  wakeup-SameGauges h p o = ground arith

  pub gc-SameGauges :
      (clock : Option Timespec) (pending : List (DnsKey × DnsPending))
      (flows : List (FlowKey × UdpFlow)) (dns_timeout udp_idle : ℕ) (o : Objects m)
      → SameGauges o (gc m clock pending flows dns_timeout udp_idle o).0
  unfolding gc
  gc-SameGauges clock pending flows dns_timeout udp_idle o = ground arith
