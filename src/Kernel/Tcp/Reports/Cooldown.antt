-- ===== src/Kernel/Tcp/Reports/Cooldown.antt =====
-- The cooldown of the two reports, over any course of segments and retransmissions of a flow.
use networkdoctor_prestudy.Base.{
  ℕ, ◌+◌, ◌≤◌, ◌≡◌, refl, sym, ap, ◌∙◌, arith, Bool, true, false, ◌&&◌, some, List, [], ◌∷◌, All,
  IsU64, leb, ◌==◌, if◌then◌else◌, Bool-cases, inl, inr,
}
use networkdoctor_prestudy.Platform.{BpfMaps, MapLaws, NeverRefuses}
use networkdoctor_prestudy.Kernel.{Objects, FlowKey, FlowKey-discrete, TcpFlow, NdConfig, Retrans}
use networkdoctor_prestudy.Kernel.Helpers.{
  Hook, Sock, event_number, tcp_retrans_burst, nd_get_config, nd_is_ipv4_sock,
}
use networkdoctor_prestudy.Kernel.Update.{nd_inc_tcp_counter}
use networkdoctor_prestudy.Kernel.Tcp.{
  past_cooldown, nd_tcp_rcv_established, retrans_value, report_burst, note_retrans,
  nd_tcp_retransmit_skb,
}
use networkdoctor_prestudy.Kernel.Tcp.Bursts.{one_if, flow_of, have_flow}
use networkdoctor_prestudy.Kernel.Tcp.Reports.Segment.{rcv-known}
use networkdoctor_prestudy.Kernel.Tcp.Reports.{
  Kind, rtt, cwnd, type_of, site_of, last, is_due, reports, config, submit-reports,
}

-- What the two hooks see of a flow: a segment received on one of its sockets, or sent again.
pub data Traffic : Type 0 where
  segment : Hook → Sock → Traffic
  retransmission : Hook → Sock → Traffic

abbrev pub hook_of : Traffic → Hook
hook_of (segment h sk) = h
hook_of (retransmission h sk) = h

abbrev pub sock_of : Traffic → Sock
sock_of (segment h sk) = sk
sock_of (retransmission h sk) = sk

abbrev pub IsOf : FlowKey → Traffic → Type 0
IsOf flow t = (nd_is_ipv4_sock (sock_of t) ≡ true) × (flow_of (sock_of t) ≡ flow)

module _ (m : BpfMaps) where
  abbrev pub observe : Traffic → Objects m → Objects m
  observe (segment h sk) o = nd_tcp_rcv_established m h (some sk) o
  observe (retransmission h sk) o = nd_tcp_retransmit_skb m h (some sk) o

  abbrev pub observe_all : List Traffic → Objects m → Objects m
  observe_all [] o = o
  observe_all (t ∷ ts) o = observe_all ts (observe t o)

  -- What a retransmission leaves of the flow's value, and that it makes neither report.
  record Kept (flow : FlowKey) (v : TcpFlow) (o o' : Objects m) : Type 0 where
    nd_config : o'.nd_config ≡ o.nd_config
    found :
        (w : TcpFlow) × (m.lookup o'.nd_tcp_flow_latest flow ≡ some w)
        × ((k : Kind) → last k w ≡ last k v)
    reported : (k : Kind) → reports k o'.nd_events ≡ reports k o.nd_events

not_burst :
    (k : Kind) (t : Bool) (n : ℕ)
    → one_if (t && (event_number tcp_retrans_burst == event_number (type_of k))) + n ≡ n
not_burst rtt t n = ground arith
not_burst cwnd t n = ground arith

module _ (m : BpfMaps) (laws : MapLaws m)
    (taken : NeverRefuses m FlowKey FlowKey-discrete TcpFlow) where
  open m use {lookup}

  note_retrans-Kept :
      (h : Hook) (flow : FlowKey) (v : TcpFlow) (o : Objects m)
      → lookup o.nd_tcp_flow_latest flow ≡ some v
      → Kept m flow v o (note_retrans m h flow o)
  unfolding note_retrans
  note_retrans-Kept h flow v o e =
      rw (note_retrans, e)
        (record {
          nd_config = refl;
          found = (
            _,
            laws.lookup-write o.nd_tcp_flow_latest flow _ v e,
            λ k. elim k as (λ k. last k _ ≡ last k v) [ rtt ↦ refl | cwnd ↦ refl ],
          );
          reported = λ k. refl;
        })

  report_burst-same :
      (h : Hook) (flow : FlowKey) (r : Retrans) (o : Objects m)
      → let o' = (report_burst m h flow r o).1 in
        (o'.nd_config ≡ o.nd_config)
        × (o'.nd_tcp_flow_latest ≡ o.nd_tcp_flow_latest)
        × ((k : Kind) → reports k o'.nd_events ≡ reports k o.nd_events)
  unfolding report_burst nd_inc_tcp_counter
  report_burst-same h flow r o =
      let cfg = nd_get_config o.nd_config in
      let counted = nd_inc_tcp_counter m h 5 o in
      elim (Bool-cases (
        leb cfg.retrans_burst_count r.count
        && past_cooldown (h.ktime 0) r.last_event_ns cfg.event_cooldown_ns)) [
          | inl due ↦
              let (c, l, n) =
                submit-reports m h 1 tcp_retrans_burst (some flow) r.count
                  cfg.retrans_burst_window_ns counted in
              rw (report_burst, due)
                (c, l, λ k. n k ∙ not_burst k (h.has_room 1) (reports k o.nd_events))
          | inr quiet ↦ rw (report_burst, quiet) (refl, refl, λ k. refl)
        ]

  retransmit-Kept :
      (h : Hook) (sk : Sock) (v : TcpFlow) (o : Objects m)
      → nd_is_ipv4_sock sk ≡ true
      → lookup o.nd_tcp_flow_latest (flow_of sk) ≡ some v
      → Kept m (flow_of sk) v o (nd_tcp_retransmit_skb m h (some sk) o)
  unfolding nd_tcp_retransmit_skb nd_inc_tcp_counter
  retransmit-Kept h sk v o v4 e =
      let o1 = nd_inc_tcp_counter m h 4 o in
      let flow = flow_of sk in
      let newv =
        retrans_value m (h.ktime 0) (config m o).retrans_burst_window_ns
          (lookup o1.nd_tcp_retrans_by_flow flow) in
      let (v2, o2) = report_burst m h flow newv o1 in
      let (c, l, n) = report_burst-same h flow newv o1 in
      let o3 : Objects m = record o2 {
        nd_tcp_retrans_by_flow = m.update o2.nd_tcp_retrans_by_flow flow v2;
      } in
      let kept = note_retrans-Kept h flow v o3 (ap (λ s. lookup s flow) l ∙ e) in
      rw (nd_tcp_retransmit_skb, v4, have_flow sk v4)
        (record {
          nd_config = kept.nd_config ∙ c;
          found = kept.found;
          reported = λ k. kept.reported k ∙ n k;
        })

  not_due :
      (k : Kind) (h : Hook) (sk : Sock) (v : TcpFlow) (cfg : NdConfig)
      → IsU64 (last k v + cfg.event_cooldown_ns)
      → h.ktime 0 ≤ last k v + cfg.event_cooldown_ns
      → is_due k h sk v cfg ≡ false
  not_due k h sk v cfg fits soon = ground arith

  -- Up to the cooldown after the last report none is made, and the time of the last one stays.
  observe-quiet :
      (k : Kind) (t : Traffic) (flow : FlowKey) (o : Objects m) (v : TcpFlow)
      → IsOf flow t
      → lookup o.nd_tcp_flow_latest flow ≡ some v
      → IsU64 (last k v + (config m o).event_cooldown_ns)
      → (hook_of t).ktime 0 ≤ last k v + (config m o).event_cooldown_ns
      → let o' = observe m t o in
        (o'.nd_config ≡ o.nd_config)
        × (w : TcpFlow) × (lookup o'.nd_tcp_flow_latest flow ≡ some w)
        × (last k w ≡ last k v)
        × (reports k o'.nd_events ≡ reports k o.nd_events)
  observe-quiet k (segment h sk) flow o v (v4, same) e fits soon =
      let (c, w, found, both) =
        rcv-known m taken h sk o v v4 (ap (lookup o.nd_tcp_flow_latest) same ∙ e) in
      let (l, r) = both k in
      let quiet = not_due k h sk v (config m o) fits soon in
      (
        c,
        w,
        ap (lookup (nd_tcp_rcv_established m h (some sk) o).nd_tcp_flow_latest) (sym same) ∙ found,
        l ∙ ap (λ (d : Bool). if d then h.ktime 0 else last k v) quiet,
        r
            ∙ ap (λ (d : Bool). one_if (d && h.has_room (site_of k)) + reports k o.nd_events) quiet
            ∙ omega arith,
      )
  observe-quiet k (retransmission h sk) flow o v (v4, same) e fits soon =
      let kept = retransmit-Kept h sk v o v4 (ap (lookup o.nd_tcp_flow_latest) same ∙ e) in
      let (w, found, l) = kept.found in
      (
        kept.nd_config,
        w,
        ap (lookup (nd_tcp_retransmit_skb m h (some sk) o).nd_tcp_flow_latest) (sym same) ∙ found,
        l k,
        kept.reported k,
      )

  observe_all-quiet :
      (k : Kind) (ts : List Traffic) (flow : FlowKey) (o : Objects m) (v : TcpFlow) (until : ℕ)
      → All (IsOf flow) ts
      → lookup o.nd_tcp_flow_latest flow ≡ some v
      → until ≡ last k v + (config m o).event_cooldown_ns
      → IsU64 until
      → All (λ t. (hook_of t).ktime 0 ≤ until) ts
      → reports k (observe_all m ts o).nd_events ≡ reports k o.nd_events
  observe_all-quiet k [] flow o v until of e u fits soon = refl
  observe_all-quiet k (t ∷ ts) flow o v until of e u fits soon =
      let (c, w, found, l, r) =
        observe-quiet k t flow o v of.0 e (omega (arith, fits, u)) (omega (arith, soon.0, u)) in
      observe_all-quiet k ts flow (observe m t o) w until of.1 found
        (omega (arith, u, l, ap (λ x. (nd_get_config x).event_cooldown_ns) c)) fits soon.1
      ∙ r

  -- A slow RTT and a drop of the congestion window are each reported once per cooldown: if a segment of
  -- a flow that the map holds makes the hook report the one or the other, and all of any further
  -- segments and retransmissions of the flow come up to the cooldown later, where that time does not
  -- wrap, and no update of the map is refused, then by their end the ring buffer has got one event of
  -- that type, or none if it had no room for it.
  pub reported_apart :
      (k : Kind) (h : Hook) (sk : Sock) (ts : List Traffic) (o : Objects m) (v : TcpFlow)
      → nd_is_ipv4_sock sk ≡ true
      → lookup o.nd_tcp_flow_latest (flow_of sk) ≡ some v
      → is_due k h sk v (config m o) ≡ true
      → IsU64 (h.ktime 0 + (config m o).event_cooldown_ns)
      → All (IsOf (flow_of sk)) ts
      → All (λ t. (hook_of t).ktime 0 ≤ h.ktime 0 + (config m o).event_cooldown_ns) ts
      → reports k (observe_all m (segment h sk ∷ ts) o).nd_events
        ≡ one_if (h.has_room (site_of k)) + reports k o.nd_events
  reported_apart k h sk ts o v v4 e now fits of soon =
      let (c, w, found, both) = rcv-known m taken h sk o v v4 e in
      let (l, r) = both k in
      let noted = l ∙ ap (λ (d : Bool). if d then h.ktime 0 else last k v) now in
      observe_all-quiet k ts (flow_of sk) (nd_tcp_rcv_established m h (some sk) o) w
        (h.ktime 0 + (config m o).event_cooldown_ns) of found
        (omega (arith, noted, ap (λ x. (nd_get_config x).event_cooldown_ns) c)) fits soon
      ∙ r
      ∙ ap (λ (d : Bool). one_if (d && h.has_room (site_of k)) + reports k o.nd_events) now
