-- ===== src/System/Sound/Steps.antt =====
-- Every step keeps the state sound.
use networkdoctor_prestudy.Base.{
  ℕ, ◌-◌, ◌^◌, ◌<◌, ◌/◌, subst, arith, not, ◌&&◌, Option, none, some, List, ltb, leb, ◌==◌, inl,
  inr, Option-cases,
}
use networkdoctor_prestudy.Platform.{BpfMaps, MapLaws}
use networkdoctor_prestudy.Histogram.{nd_log2_bucket}
use networkdoctor_prestudy.Kernel.{Objects, FlowKey, UdpFlow, DnsKey, DnsPending}
use networkdoctor_prestudy.Kernel.Helpers.{Hook, nd_get_config, high_runqlat}
use networkdoctor_prestudy.Kernel.Update.{nd_inc_u64_percpu_array}
use networkdoctor_prestudy.Kernel.Packet.{UdpHeader, parse_frame, parse_dns}
use networkdoctor_prestudy.Kernel.Udp.{
  SkBuff, udp_flow_key, dns_port, inspect_dns, nd_parse_ipv4_udp,
}
use networkdoctor_prestudy.Kernel.Sched.{
  nd_sched_wakeup_common, nd_sched_wakeup, nd_sched_wakeup_new, record_runqlat, switch_to,
  nd_sched_switch,
}
use networkdoctor_prestudy.Gc.{Timespec, monotonic_now_ns, gc}
use networkdoctor_prestudy.System.{HasClock, SkbInRange, PidArgument}
use networkdoctor_prestudy.System.Sound.{Sound, FlowInRange, if-Sound, submit_event-Sound}
use networkdoctor_prestudy.System.Sound.Headers.{Yields, Yields-if, Yields-any, parsed_flow-InRange}
use networkdoctor_prestudy.System.Sound.State.{set_state-Sound}
use networkdoctor_prestudy.System.Sound.Tcp.{rcv_established-Sound, retransmit-Sound}
use networkdoctor_prestudy.System.Sound.Udp.{account_udp-Sound, account_dns-Sound}
use networkdoctor_prestudy.System.{
  Step, inet_sock_set_state, tcp_rcv_established, tcp_retransmit_skb, tc, sched_wakeup,
  sched_wakeup_new, sched_switch, collection, Reach, fresh, later,
}

module _ (m : BpfMaps) (h : Hook) (clock : HasClock h) where
  open m use {lookup}

  inspect_dns-Sound :
      (skb : SkBuff) (flow : FlowKey) (udp : UdpHeader) (o : Objects m)
      → FlowInRange flow
      → Sound m o
      → Yields (Sound m) (inspect_dns m h skb flow udp o)
  unfolding inspect_dns
  inspect_dns-Sound skb flow udp o f s =
      Yields-if (Sound m) (not (udp.sport == dns_port) && not (udp.dport == dns_port)) (some o) _ s
        (Yields-any (Sound m) (parse_dns skb.packet udp.payload) _
          (elim [ none ↦ s | some header ↦ account_dns-Sound m h clock skb flow udp header o f s ]))

  tc-Sound :
      (skb : SkBuff) (direction : ℕ) (o : Objects m)
      → SkbInRange skb
      → Sound m o
      → Yields (Sound m) (nd_parse_ipv4_udp m h skb direction o)
  unfolding nd_parse_ipv4_udp
  tc-Sound skb direction o b s = elim (Option-cases (parse_frame skb.packet)) [
    | inl e ↦ rw (nd_parse_ipv4_udp, e) tt
    | inr (none, e) ↦ rw (nd_parse_ipv4_udp, e) s
    | inr (some udp, e) ↦
        let f = parsed_flow-InRange skb direction udp b e in
        rw (nd_parse_ipv4_udp, e)
          (inspect_dns-Sound skb (udp_flow_key skb direction udp) udp _ f
            (account_udp-Sound m h clock skb (udp_flow_key skb direction udp) o f s))
  ]

  wakeup-Sound :
      (p : Option ℕ) (o : Objects m) → Sound m o → Sound m (nd_sched_wakeup_common m h p o)
  unfolding nd_sched_wakeup_common
  wakeup-Sound none o s = s
  wakeup-Sound (some pid) o s =
      if-Sound m (pid == 0) o _ s (record { window = s.window; flows = s.flows; events = s.events })

  record_runqlat-Sound :
      (pid start : ℕ) (o : Objects m)
      → pid < 2 ^ 32
      → Sound m o
      → Sound m (record_runqlat m h pid start o)
  unfolding record_runqlat
  record_runqlat-Sound pid start o p s =
      let runqlat_us = (h.ktime 0 - start) / 1000 in
      let sampled : Objects m = record o {
        nd_runqlat_us_hist =
            nd_inc_u64_percpu_array m o.nd_runqlat_us_hist h.cpu (nd_log2_bucket runqlat_us);
      } in
      let sampled_s : Sound m sampled = record {
        window = s.window;
        flows = s.flows;
        events = s.events;
      } in
      let now = clock 0 in
      if-Sound m (leb (nd_get_config o.nd_config).high_runqlat_us runqlat_us) _ sampled
        (submit_event-Sound m h clock 1 high_runqlat none runqlat_us pid sampled tt (omega arith)
          (omega arith) sampled_s)
        sampled_s

  switch_to-Sound :
      (pid : ℕ) (o : Objects m) → pid < 2 ^ 32 → Sound m o → Sound m (switch_to m h pid o)
  unfolding switch_to
  switch_to-Sound pid o p s = elim (Option-cases (lookup o.nd_runq_start pid)) [
    | inl e ↦ rw (switch_to, e) s
    | inr (start, e) ↦
        let s' =
          if-Sound m (ltb start (h.ktime 0)) (record_runqlat m h pid start o) o
            (record_runqlat-Sound pid start o p s) s in
        rw (switch_to, e) (record { window = s'.window; flows = s'.flows; events = s'.events })
  ]

  switch-Sound :
      (p : Option ℕ) (o : Objects m) → PidArgument p → Sound m o → Sound m (nd_sched_switch m h p o)
  unfolding nd_sched_switch
  switch-Sound none o r s = s
  switch-Sound (some pid) o r s = if-Sound m (pid == 0) o _ s (switch_to-Sound pid o r s)

gc-Sound :
    (m : BpfMaps) (clock : Option Timespec) (pending : List (DnsKey × DnsPending))
    (flows : List (FlowKey × UdpFlow)) (dns_timeout udp_idle : ℕ) (o : Objects m)
    → Sound m o
    → Sound m (gc m clock pending flows dns_timeout udp_idle o).0
unfolding gc
gc-Sound m clock pending flows dns_timeout udp_idle o s =
    elim (Option-cases (monotonic_now_ns clock)) [
      | inl e ↦ rw (gc, e) s
      | inr (now, e) ↦ rw (gc, e) (record { window = s.window; flows = s.flows; events = s.events })
    ]

module _ (m : BpfMaps) (laws : MapLaws m) where
  Step-Sound : {o o' : Objects m} → Step m o o' → Sound m o → Sound m o'
  unfolding nd_sched_wakeup nd_sched_wakeup_new
  Step-Sound {o} (inet_sock_set_state h sk a b c r ra rb) s =
      set_state-Sound m h c sk a b o r ra rb s
  Step-Sound {o} (tcp_rcv_established h sk c r) s = rcv_established-Sound m laws h c sk o r s
  Step-Sound {o} (tcp_retransmit_skb h sk c r) s = retransmit-Sound m laws h c sk o r s
  Step-Sound {o} (tc h skb direction c b e) s =
      subst (Yields (Sound m)) e (tc-Sound m h c skb direction o b s)
  Step-Sound {o} (sched_wakeup h p c r) s = wakeup-Sound m h c p o s
  Step-Sound {o} (sched_wakeup_new h p c r) s = wakeup-Sound m h c p o s
  Step-Sound {o} (sched_switch h p c r) s = switch-Sound m h c p o r s
  Step-Sound {o} (collection clock pending flows dns_timeout udp_idle) s =
      gc-Sound m clock pending flows dns_timeout udp_idle o s

  -- From a sound state every course of hooks on any CPUs and of collections, in any order and whatever
  -- the maps refuse or evict, leads to a sound state: every event in the ring buffer is in the ranges
  -- of its C types, and so is every congestion window that a later event may carry.
  pub Reach-Sound : {o o' : Objects m} → Reach m o o' → Sound m o → Sound m o'
  Reach-Sound fresh s = s
  Reach-Sound (later r st) s = Step-Sound st (Reach-Sound r s)
