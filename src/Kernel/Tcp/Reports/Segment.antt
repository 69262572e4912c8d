-- ===== src/Kernel/Tcp/Reports/Segment.antt =====
-- One segment of a known flow: the two blocks of nd_tcp_rcv_established that report, one after the other.
use networkdoctor_prestudy.Base.{
  ℕ, ◌+◌, ◌/◌, ◌≡◌, refl, ap, ◌∙◌, arith, Bool, true, false, ◌&&◌, some, ◌==◌, if◌then◌else◌,
  Bool-cases, inl, inr,
}
use networkdoctor_prestudy.Platform.{BpfMaps, NeverRefuses}
use networkdoctor_prestudy.Kernel.{Objects, FlowKey, FlowKey-discrete, TcpFlow, NdConfig}
use networkdoctor_prestudy.Kernel.Helpers.{
  Hook, Sock, event_number, slow_tcp_rtt, tcp_cwnd_drop, nd_get_config, nd_is_ipv4_sock,
}
use networkdoctor_prestudy.Kernel.Update.{nd_inc_tcp_counter}
use networkdoctor_prestudy.Kernel.Tcp.{
  sample_rtt, sample_cwnd, flow_value, report_rtt, report_cwnd, nd_tcp_rcv_established,
}
use networkdoctor_prestudy.Kernel.Tcp.Bursts.{one_if, flow_of, have_flow}
use networkdoctor_prestudy.Kernel.Tcp.Reports.{
  Kind, rtt, cwnd, type_of, site_of, last, is_due, rtt_due, cwnd_due, reports, config,
  submit-reports,
}

off : (a b : Bool) (n : ℕ) → one_if (a && (b && false)) + n ≡ n
off a b n = ground arith

on : (a b : Bool) → one_if (a && (b && true)) ≡ one_if (a && b)
on a b = ground arith

module _ (m : BpfMaps) where
  open m use {lookup}

  -- A report that is due is made, and noted in the flow's value.
  report_rtt_lem :
      (h : Hook) (flow : FlowKey) (v : TcpFlow) (o : Objects m)
      → let due = rtt_due h v (config m o) in
        let (v', o') = report_rtt m h flow v o in
        (o'.nd_config ≡ o.nd_config)
        × (o'.nd_tcp_flow_latest ≡ o.nd_tcp_flow_latest)
        × (v' ≡ record v { last_rtt_event_ns = if due then h.ktime 0 else v.last_rtt_event_ns })
        × ((k : Kind)
            → reports k o'.nd_events
              ≡ one_if (due && (h.has_room 1 && (1 == event_number (type_of k))))
                + reports k o.nd_events)
  unfolding report_rtt
  report_rtt_lem h flow v o = elim (Bool-cases (rtt_due h v (config m o))) [
    | inl due ↦
        let (c, l, r) = submit-reports m h 1 slow_tcp_rtt (some flow) v.srtt_us v.cwnd o in
        rw (report_rtt, due) (c, l, refl, r)
    | inr quiet ↦ rw (report_rtt, quiet) (refl, refl, refl, λ k. omega arith)
  ]

  report_cwnd_lem :
      (h : Hook) (flow : FlowKey) (v : TcpFlow) (o : Objects m)
      → let due = cwnd_due h v (config m o) in
        let (v', o') = report_cwnd m h flow v o in
        (o'.nd_config ≡ o.nd_config)
        × (o'.nd_tcp_flow_latest ≡ o.nd_tcp_flow_latest)
        × (v' ≡ record v { last_cwnd_event_ns = if due then h.ktime 0 else v.last_cwnd_event_ns })
        × ((k : Kind)
            → reports k o'.nd_events
              ≡ one_if (due && (h.has_room 2 && (2 == event_number (type_of k))))
                + reports k o.nd_events)
  unfolding report_cwnd
  report_cwnd_lem h flow v o = elim (Bool-cases (cwnd_due h v (config m o))) [
    | inl due ↦
        let (c, l, r) = submit-reports m h 2 tcp_cwnd_drop (some flow) v.cwnd v.prev_cwnd o in
        rw (report_cwnd, due) (c, l, refl, r)
    | inr quiet ↦ rw (report_cwnd, quiet) (refl, refl, refl, λ k. omega arith)
  ]

  sample-frame :
      (h : Hook) (srtt size : ℕ) (o : Objects m)
      → let o' = sample_cwnd m h size (sample_rtt m h srtt o) in
        (o'.nd_config ≡ o.nd_config)
        × (o'.nd_tcp_flow_latest ≡ o.nd_tcp_flow_latest)
        × (o'.nd_events ≡ o.nd_events)
  unfolding sample_cwnd sample_rtt nd_inc_tcp_counter
  sample-frame h srtt size o = (ground arith, ground arith, ground arith)

  abbrev due : Kind → Hook → TcpFlow → NdConfig → Bool
  due rtt = rtt_due
  due cwnd = cwnd_due

  -- The two blocks one after the other.
  both_lem :
      (k : Kind) (h : Hook) (flow : FlowKey) (v : TcpFlow) (o : Objects m)
      → let (v2, o2) = report_rtt m h flow v o in
        let (v3, o3) = report_cwnd m h flow v2 o2 in
        (last k v3 ≡ (if due k h v (config m o) then h.ktime 0 else last k v))
        × (reports k o3.nd_events
            ≡ one_if (due k h v (config m o) && h.has_room (site_of k)) + reports k o.nd_events)
  both_lem rtt h flow v o =
      let (v2, o2) = report_rtt m h flow v o in
      let (c2, l2, w2, r2) = report_rtt_lem h flow v o in
      let (c3, l3, w3, r3) = report_cwnd_lem h flow v2 o2 in
      (
        ap (λ (x : TcpFlow). x.last_rtt_event_ns) w3 ∙ ap (λ (x : TcpFlow). x.last_rtt_event_ns) w2,
        r3 rtt
            ∙ off (cwnd_due h v2 (config m o2)) (h.has_room 2) (reports rtt o2.nd_events)
            ∙ r2 rtt
            ∙ ap (λ n. n + reports rtt o.nd_events) (on (rtt_due h v (config m o)) (h.has_room 1)),
      )
  both_lem cwnd h flow v o =
      let (v2, o2) = report_rtt m h flow v o in
      let (c2, l2, w2, r2) = report_rtt_lem h flow v o in
      let (c3, l3, w3, r3) = report_cwnd_lem h flow v2 o2 in
      let same : cwnd_due h v2 (config m o2) ≡ cwnd_due h v (config m o) =
        ap (λ x. cwnd_due h x (config m o2)) w2 ∙ ap (λ c. cwnd_due h v (nd_get_config c)) c2 in
      (
        ap (λ (x : TcpFlow). x.last_cwnd_event_ns) w3
            ∙ ap
                (λ (x : TcpFlow).
                  if cwnd_due h v2 (config m o2) then h.ktime 0 else x.last_cwnd_event_ns)
                w2
            ∙ ap (λ (d : Bool). if d then h.ktime 0 else v.last_cwnd_event_ns) same,
        r3 cwnd
            ∙ ap (λ n. n + reports cwnd o2.nd_events)
                (on (cwnd_due h v2 (config m o2)) (h.has_room 2))
            ∙ ap (λ (d : Bool). one_if (d && h.has_room 2) + reports cwnd o2.nd_events) same
            ∙ ap (λ n. one_if (cwnd_due h v (config m o) && h.has_room 2) + n)
                (r2 cwnd
                  ∙ off (rtt_due h v (config m o)) (h.has_room 1) (reports cwnd o.nd_events)),
      )

  due-is_due :
      (k : Kind) (h : Hook) (sk : Sock) (v : TcpFlow) (cfg : NdConfig)
      → due k h (flow_value m (h.ktime 0) (sk.srtt_us / 8) sk.snd_cwnd (some v)) cfg
        ≡ is_due k h sk v cfg
  unfolding flow_value
  due-is_due rtt h sk v cfg = refl
  due-is_due cwnd h sk v cfg = refl

  last-flow_value :
      (k : Kind) (now srtt size : ℕ) (v : TcpFlow)
      → last k (flow_value m now srtt size (some v)) ≡ last k v
  unfolding flow_value
  last-flow_value rtt now srtt size v = refl
  last-flow_value cwnd now srtt size v = refl

  -- One segment of a flow that the map holds.
  pub rcv-known :
      NeverRefuses m FlowKey FlowKey-discrete TcpFlow
      → (h : Hook) (sk : Sock) (o : Objects m) (v : TcpFlow) → nd_is_ipv4_sock sk ≡ true
      → lookup o.nd_tcp_flow_latest (flow_of sk) ≡ some v
      → let o' = nd_tcp_rcv_established m h (some sk) o in
        (o'.nd_config ≡ o.nd_config)
        × (w : TcpFlow) × (lookup o'.nd_tcp_flow_latest (flow_of sk) ≡ some w)
        × ((k : Kind)
            → (last k w ≡ (if is_due k h sk v (config m o) then h.ktime 0 else last k v))
              × (reports k o'.nd_events
                  ≡ one_if (is_due k h sk v (config m o) && h.has_room (site_of k))
                    + reports k o.nd_events))
  unfolding nd_tcp_rcv_established
  rcv-known taken h sk o v v4 e =
      let o1 = sample_cwnd m h sk.snd_cwnd (sample_rtt m h (sk.srtt_us / 8) o) in
      let (c1, l1, e1) = sample-frame h (sk.srtt_us / 8) sk.snd_cwnd o in
      let flow = flow_of sk in
      let newv = flow_value m (h.ktime 0) (sk.srtt_us / 8) sk.snd_cwnd (some v) in
      let (v2, o2) = report_rtt m h flow newv o1 in
      let (v3, o3) = report_cwnd m h flow v2 o2 in
      let e' : lookup o1.nd_tcp_flow_latest flow ≡ some v = ap (λ s. lookup s flow) l1 ∙ e in
      rw (nd_tcp_rcv_established, v4, have_flow sk v4, e')
        (
          (report_cwnd_lem h flow v2 o2).0 ∙ (report_rtt_lem h flow newv o1).0 ∙ c1,
          v3,
          taken o3.nd_tcp_flow_latest flow v3,
          λ k.
              let (l, r) = both_lem k h flow newv o1 in
              let d : due k h newv (config m o1) ≡ is_due k h sk v (config m o) =
                ap (λ c. due k h newv (nd_get_config c)) c1 ∙ due-is_due k h sk v (config m o) in
              (
                l
                    ∙ ap (λ (t : Bool). if t then h.ktime 0 else last k newv) d
                    ∙ ap (λ (n : ℕ). if is_due k h sk v (config m o) then h.ktime 0 else n)
                        (last-flow_value k (h.ktime 0) (sk.srtt_us / 8) sk.snd_cwnd v),
                r
                    ∙ ap
                        (λ (t : Bool).
                          one_if (t && h.has_room (site_of k)) + reports k o1.nd_events)
                        d
                    ∙ ap
                        (λ es.
                          one_if (is_due k h sk v (config m o) && h.has_room (site_of k))
                          + reports k es)
                        e1,
              ),
        )
