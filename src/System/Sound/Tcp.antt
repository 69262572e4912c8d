-- ===== src/System/Sound/Tcp.antt =====
-- nd_tcp_rcv_established and nd_tcp_retransmit_skb keep the state sound.
use networkdoctor_prestudy.Base.{
  ℕ, ◌*◌, ◌^◌, ◌<◌, ◌/◌, ◌≡◌, refl, arith, not, ◌&&◌, Option, none, some, ltb, leb, inl, inr, u64,
  Bool-cases, Option-cases,
}
use networkdoctor_prestudy.Platform.{BpfMaps, MapLaws}
use networkdoctor_prestudy.Kernel.{Objects, FlowKey, TcpFlow, Retrans}
use networkdoctor_prestudy.Kernel.Helpers.{
  Hook, Sock, slow_tcp_rtt, tcp_cwnd_drop, tcp_retrans_burst, nd_is_ipv4_sock, nd_get_config,
}
use networkdoctor_prestudy.Kernel.Update.{nd_inc_tcp_counter}
use networkdoctor_prestudy.Kernel.Tcp.{
  past_cooldown, sample_rtt, sample_cwnd, flow_value, report_rtt, report_cwnd,
  nd_tcp_rcv_established, retrans_value, report_burst, note_retrans, nd_tcp_retransmit_skb,
}
use networkdoctor_prestudy.System.{HasClock, SockArgument}
use networkdoctor_prestudy.System.Sound.{
  Sound, FlowInRange, if-Sound, inc_tcp-Sound, submit_event-Sound, update-FlowsInRange,
  write-FlowsInRange,
}
use networkdoctor_prestudy.System.Sound.State.{key_of, key_of-InRange}

module _ (m : BpfMaps) (laws : MapLaws m) (h : Hook) (clock : HasClock h) where
  open m use {lookup, update}

  sample_rtt-Sound : (srtt_us : ℕ) (o : Objects m) → Sound m o → Sound m (sample_rtt m h srtt_us o)
  unfolding sample_rtt nd_inc_tcp_counter
  sample_rtt-Sound srtt_us o s =
      if-Sound m (ltb 0 srtt_us) _ o
        (record { window = s.window; flows = s.flows; events = s.events }) s

  sample_cwnd-Sound : (cwnd : ℕ) (o : Objects m) → Sound m o → Sound m (sample_cwnd m h cwnd o)
  unfolding sample_cwnd nd_inc_tcp_counter
  sample_cwnd-Sound cwnd o s =
      if-Sound m (ltb 0 cwnd) _ o (record { window = s.window; flows = s.flows; events = s.events })
        s

  -- The flow's value on its way through the two reports.
  record Reported (v : TcpFlow) (r : TcpFlow × Objects m) : Type 0 where
    cwnd : r.0.cwnd ≡ v.cwnd
    prev_cwnd : r.0.prev_cwnd ≡ v.prev_cwnd
    sound : Sound m r.1

  report_rtt-Reported :
      (flow : FlowKey) (v : TcpFlow) (o : Objects m)
      → FlowInRange flow
      → v.srtt_us < 2 ^ 32
      → v.cwnd < 2 ^ 32
      → Sound m o
      → Reported v (report_rtt m h flow v o)
  unfolding report_rtt
  report_rtt-Reported flow v o f a b s =
      elim (Bool-cases (
        leb (nd_get_config o.nd_config).slow_tcp_rtt_us v.srtt_us
        && past_cooldown (h.ktime 0) v.last_rtt_event_ns
            (nd_get_config o.nd_config).event_cooldown_ns)) [
              | inl t ↦
                  rw (report_rtt, t)
                    (record {
                      cwnd = refl;
                      prev_cwnd = refl;
                      sound =
                          submit_event-Sound m h clock 1 slow_tcp_rtt (some flow) v.srtt_us v.cwnd o
                            f (omega arith) (omega arith) s;
                    })
              | inr t ↦ rw (report_rtt, t) (record { cwnd = refl; prev_cwnd = refl; sound = s })
            ]

  report_cwnd-Reported :
      (flow : FlowKey) (v : TcpFlow) (o : Objects m)
      → FlowInRange flow
      → v.cwnd < 2 ^ 32
      → v.prev_cwnd < 2 ^ 32
      → Sound m o
      → Reported v (report_cwnd m h flow v o)
  unfolding report_cwnd
  report_cwnd-Reported flow v o f a b s =
      elim (Bool-cases (
        ltb 0 v.prev_cwnd
        && ltb 0 v.cwnd
        && leb (u64 (v.cwnd * 100))
            (u64 (v.prev_cwnd * (nd_get_config o.nd_config).cwnd_drop_percent))
        && past_cooldown (h.ktime 0) v.last_cwnd_event_ns
            (nd_get_config o.nd_config).event_cooldown_ns)) [
              | inl t ↦
                  rw (report_cwnd, t)
                    (record {
                      cwnd = refl;
                      prev_cwnd = refl;
                      sound =
                          submit_event-Sound m h clock 2 tcp_cwnd_drop (some flow) v.cwnd
                            v.prev_cwnd o f (omega arith) (omega arith) s;
                    })
              | inr t ↦ rw (report_cwnd, t) (record { cwnd = refl; prev_cwnd = refl; sound = s })
            ]

  flow_value-InRange :
      (flow : FlowKey) (srtt_us cwnd : ℕ) (o : Objects m)
      → srtt_us < 2 ^ 32
      → cwnd < 2 ^ 32
      → Sound m o
      → let v = flow_value m (h.ktime 0) srtt_us cwnd (lookup o.nd_tcp_flow_latest flow) in
        (v.srtt_us < 2 ^ 32) × (v.cwnd < 2 ^ 32) × (v.prev_cwnd < 2 ^ 32)
  unfolding flow_value
  flow_value-InRange flow srtt_us cwnd o a b s =
      elim (Option-cases (lookup o.nd_tcp_flow_latest flow)) [
        | inl e ↦ rw (flow_value, e) (a, b, omega arith)
        | inr (old, e) ↦ rw (flow_value, e) (a, b, s.flows flow old e)
      ]

  pub rcv_established-Sound :
      (sk : Option Sock) (o : Objects m)
      → SockArgument sk
      → Sound m o
      → Sound m (nd_tcp_rcv_established m h sk o)
  unfolding nd_tcp_rcv_established
  rcv_established-Sound none o r s = s
  rcv_established-Sound (some sk) o r s =
      let o1 = sample_cwnd m h sk.snd_cwnd (sample_rtt m h (sk.srtt_us / 8) o) in
      let s1 = sample_cwnd-Sound sk.snd_cwnd _ (sample_rtt-Sound (sk.srtt_us / 8) o s) in
      let flow = (key_of sk).1 in
      let f = key_of-InRange sk r in
      let newv =
        flow_value m (h.ktime 0) (sk.srtt_us / 8) sk.snd_cwnd (lookup o1.nd_tcp_flow_latest flow) in
      let (a, b, c) =
        flow_value-InRange flow (sk.srtt_us / 8) sk.snd_cwnd o1 (let x = r.srtt_us in omega arith)
          r.snd_cwnd s1 in
      let (v2, o2) = report_rtt m h flow newv o1 in
      let r2 = report_rtt-Reported flow newv o1 f a b s1 in
      let (v3, o3) = report_cwnd m h flow v2 o2 in
      let r3 =
        report_cwnd-Reported flow v2 o2 f (let x = r2.cwnd in omega arith)
          (let x = r2.prev_cwnd in omega arith) r2.sound in
      if-Sound m (not (nd_is_ipv4_sock sk)) o _ s (
        if-Sound m (not (key_of sk).0) o1 _ s1 (record {
          window = r3.sound.window;
          flows =
              update-FlowsInRange m laws o3.nd_tcp_flow_latest flow v3 r3.sound.flows
                (let x = r2.cwnd in let y = r3.cwnd in omega arith);
          events = r3.sound.events;
        }))

  report_burst-Sound :
      (flow : FlowKey) (v : Retrans) (o : Objects m)
      → FlowInRange flow
      → v.count < 2 ^ 64
      → Sound m o
      → Sound m (report_burst m h flow v o).1
  unfolding report_burst
  report_burst-Sound flow v o f c s =
      elim (Bool-cases (
        leb (nd_get_config o.nd_config).retrans_burst_count v.count
        && past_cooldown (h.ktime 0) v.last_event_ns
            (nd_get_config o.nd_config).event_cooldown_ns)) [
              | inl t ↦
                  rw (report_burst, t)
                    (submit_event-Sound m h clock 1 tcp_retrans_burst (some flow) v.count
                      (nd_get_config o.nd_config).retrans_burst_window_ns
                      (nd_inc_tcp_counter m h 5 o) f c s.window (inc_tcp-Sound m h 5 o s))
              | inr t ↦ rw (report_burst, t) s
            ]

  note_retrans-Sound :
      (flow : FlowKey) (o : Objects m) → Sound m o → Sound m (note_retrans m h flow o)
  unfolding note_retrans
  note_retrans-Sound flow o s = elim (Option-cases (lookup o.nd_tcp_flow_latest flow)) [
    | inl e ↦ rw (note_retrans, e) s
    | inr (tv, e) ↦
        rw (note_retrans, e)
          (record {
            window = s.window;
            flows =
                write-FlowsInRange m laws o.nd_tcp_flow_latest flow _ tv s.flows e
                  (s.flows flow tv e);
            events = s.events;
          })
  ]

  retrans_value-InRange :
      (now window : ℕ) (old : Option Retrans) → (retrans_value m now window old).count < 2 ^ 64
  unfolding retrans_value
  retrans_value-InRange now window old = ground arith

  pub retransmit-Sound :
      (sk : Option Sock) (o : Objects m)
      → SockArgument sk
      → Sound m o
      → Sound m (nd_tcp_retransmit_skb m h sk o)
  unfolding nd_tcp_retransmit_skb
  retransmit-Sound none o r s = s
  retransmit-Sound (some sk) o r s =
      let o1 = nd_inc_tcp_counter m h 4 o in
      let s1 = inc_tcp-Sound m h 4 o s in
      let flow = (key_of sk).1 in
      let old = lookup o1.nd_tcp_retrans_by_flow flow in
      let newv =
        retrans_value m (h.ktime 0) (nd_get_config o1.nd_config).retrans_burst_window_ns old in
      let (v2, o2) = report_burst m h flow newv o1 in
      let s2 =
        report_burst-Sound flow newv o1 (key_of-InRange sk r) (retrans_value-InRange _ _ old) s1 in
      if-Sound m (not (nd_is_ipv4_sock sk)) o _ s (
        if-Sound m (not (key_of sk).0) o1 _ s1 (
          note_retrans-Sound flow
            (record o2 { nd_tcp_retrans_by_flow = update o2.nd_tcp_retrans_by_flow flow v2 })
            (record { window = s2.window; flows = s2.flows; events = s2.events })))
