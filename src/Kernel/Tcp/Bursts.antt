-- ===== src/Kernel/Tcp/Bursts.antt =====
-- The retransmission hook: how it counts the retransmissions of a socket in a window.
pub mod Threshold
use networkdoctor_prestudy.Base.{
  ℕ, ◌+◌, ◌<◌, ◌≤◌, ◌≡◌, refl, sym, ap, ◌∙◌, subst, arith, true, some, List, [], ◌∷◌, All, length,
  u64, IsU64, Bool, ◌&&◌, leb, ◌==◌, if◌then◌else◌, inl, inr, Bool-cases,
}
use networkdoctor_prestudy.Platform.{BpfMaps, NeverRefuses}
use networkdoctor_prestudy.Kernel.{Objects, FlowKey, FlowKey-discrete, Retrans, NdConfig, NdEvent}
use networkdoctor_prestudy.Kernel.Helpers.{
  Hook, Sock, nd_get_config, nd_is_ipv4_sock, nd_flow4_from_sock, zero_flow, event_number,
  tcp_retrans_burst, nd_fill_event,
}
use networkdoctor_prestudy.Kernel.Update.{nd_inc_tcp_counter, nd_submit_event}
use networkdoctor_prestudy.Kernel.Tcp.{
  past_cooldown, ipproto_tcp, nd_dir_unknown, retrans_value, report_burst, note_retrans,
  nd_tcp_retransmit_skb,
}

-- The key of a socket's flow.
abbrev pub flow_of : Sock → FlowKey
flow_of sk = (nd_flow4_from_sock (some sk) ipproto_tcp nd_dir_unknown zero_flow).1

pub have_flow :
    (sk : Sock)
    → nd_is_ipv4_sock sk ≡ true
    → (nd_flow4_from_sock (some sk) ipproto_tcp nd_dir_unknown zero_flow).0 ≡ true
unfolding nd_flow4_from_sock
have_flow sk v4 = rw v4 refl

-- Whether the hook reports the flow with this new value.
abbrev pub burst_due : Hook → Retrans → NdConfig → Bool
burst_due h v cfg =
    leb cfg.retrans_burst_count v.count
    && past_cooldown (h.ktime 0) v.last_event_ns cfg.event_cooldown_ns

abbrev pub one_if : Bool → ℕ
one_if t = if t then 1 else 0

-- The reports of bursts in the ring buffer.
abbrev pub bursts : List NdEvent → ℕ
bursts [] = 0
bursts (e ∷ es) = one_if (e.type == event_number tcp_retrans_burst) + bursts es

module _ (m : BpfMaps) where
  open m use {lookup}

  submit-bursts :
      (h : Hook) (flow : FlowKey) (value aux : ℕ) (o : Objects m)
      → let o' = nd_submit_event m h 1 tcp_retrans_burst (some flow) value aux o in
        (o'.nd_config ≡ o.nd_config)
        × (o'.nd_tcp_retrans_by_flow ≡ o.nd_tcp_retrans_by_flow)
        × (bursts o'.nd_events ≡ one_if (h.has_room 1) + bursts o.nd_events)
  unfolding nd_submit_event nd_fill_event
  submit-bursts h flow value aux o = (ground arith, ground arith, ground arith)

  abbrev pub burst_window : Objects m → ℕ
  burst_window o = (nd_get_config o.nd_config).retrans_burst_window_ns

  -- The retransmissions of one socket, in their order.
  abbrev pub retransmit_all : Sock → List Hook → Objects m → Objects m
  retransmit_all sk [] o = o
  retransmit_all sk (h ∷ hs) o = retransmit_all sk hs (nd_tcp_retransmit_skb m h (some sk) o)

  note_retrans-frame :
      (h : Hook) (flow : FlowKey) (o : Objects m)
      → let o' = note_retrans m h flow o in
        (o'.nd_config ≡ o.nd_config)
        × (o'.nd_tcp_retrans_by_flow ≡ o.nd_tcp_retrans_by_flow)
        × (o'.nd_events ≡ o.nd_events)
  unfolding note_retrans
  note_retrans-frame h flow o = (ground arith, ground arith, ground arith)

  report_burst-frame :
      (h : Hook) (flow : FlowKey) (v : Retrans) (o : Objects m)
      → let (v', o') = report_burst m h flow v o in
        (o'.nd_config ≡ o.nd_config)
        × (o'.nd_tcp_retrans_by_flow ≡ o.nd_tcp_retrans_by_flow)
        × (v'.first_seen_ns ≡ v.first_seen_ns)
        × (v'.count ≡ v.count)
        × (v'.last_event_ns
            ≡ (if burst_due h v (nd_get_config o.nd_config) then h.ktime 0 else v.last_event_ns))
        × (bursts o'.nd_events
            ≡ one_if (burst_due h v (nd_get_config o.nd_config) && h.has_room 1)
              + bursts o.nd_events)
  unfolding report_burst nd_inc_tcp_counter
  report_burst-frame h flow v o =
      let cfg = nd_get_config o.nd_config in
      let counted = nd_inc_tcp_counter m h 5 o in
      elim (Bool-cases (burst_due h v cfg)) [
        | inl due ↦
            let (c, r, n) = submit-bursts h flow v.count cfg.retrans_burst_window_ns counted in
            rw (report_burst, due) (c, r, refl, refl, refl, n)
        | inr quiet ↦ rw (report_burst, quiet) (refl, refl, refl, refl, refl, omega arith)
      ]

  -- In the window of a known flow the count goes up.
  pub retrans_value-window :
      (now span : ℕ) (r : Retrans)
      → r.first_seen_ns < now
      → now ≤ r.first_seen_ns + span
      → let v = retrans_value m now span (some r) in
        (v.first_seen_ns ≡ r.first_seen_ns) × (v.count ≡ u64 (r.count + 1))
  unfolding retrans_value
  retrans_value-window now span r after soon = (ground arith, ground arith)

  pub retrans_value-last :
      (now span : ℕ) (r : Retrans)
      → (retrans_value m now span (some r)).last_event_ns ≡ r.last_event_ns
  unfolding retrans_value
  retrans_value-last now span r = ground arith

  -- One run of the hook on a flow that the map holds.
  pub retransmit-known :
      NeverRefuses m FlowKey FlowKey-discrete Retrans
      → (h : Hook) (sk : Sock) (o : Objects m) (r : Retrans) → nd_is_ipv4_sock sk ≡ true
      → lookup o.nd_tcp_retrans_by_flow (flow_of sk) ≡ some r
      → let o' = nd_tcp_retransmit_skb m h (some sk) o in
        (o'.nd_config ≡ o.nd_config)
        × (v : Retrans) × (lookup o'.nd_tcp_retrans_by_flow (flow_of sk) ≡ some v)
        × (v.first_seen_ns ≡ (retrans_value m (h.ktime 0) (burst_window o) (some r)).first_seen_ns)
        × (v.count ≡ (retrans_value m (h.ktime 0) (burst_window o) (some r)).count)
        × (let newv = retrans_value m (h.ktime 0) (burst_window o) (some r) in
            let due = burst_due h newv (nd_get_config o.nd_config) in
            (v.last_event_ns ≡ (if due then h.ktime 0 else r.last_event_ns))
            × (bursts o'.nd_events ≡ one_if (due && h.has_room 1) + bursts o.nd_events))
  unfolding nd_tcp_retransmit_skb nd_inc_tcp_counter
  retransmit-known taken h sk o r v4 e =
      let o1 = nd_inc_tcp_counter m h 4 o in
      let newv = retrans_value m (h.ktime 0) (burst_window o) (some r) in
      let (v2, o2) = report_burst m h (flow_of sk) newv o1 in
      let o3 : Objects m = record o2 {
        nd_tcp_retrans_by_flow = m.update o2.nd_tcp_retrans_by_flow (flow_of sk) v2;
      } in
      let (reported_config, reported_map, first, count, noted, made) =
        report_burst-frame h (flow_of sk) newv o1 in
      let (noted_config, noted_map, noted_events) = note_retrans-frame h (flow_of sk) o3 in
      rw (nd_tcp_retransmit_skb, v4, have_flow sk v4, e)
        (
          noted_config ∙ reported_config,
          v2,
          ap (λ s. lookup s (flow_of sk)) noted_map
              ∙ taken o2.nd_tcp_retrans_by_flow (flow_of sk) v2,
          first,
          count,
          (
            noted
                ∙ ap
                    (λ (n : ℕ).
                      if burst_due h newv (nd_get_config o.nd_config) then h.ktime 0 else n)
                    (retrans_value-last (h.ktime 0) (burst_window o) r),
            ap bursts noted_events ∙ made,
          ),
        )

  -- While the retransmissions of a known flow come after its first one and within the window from
  -- it, and no update of the map is refused, they are counted one by one, modulo 2 ^ 64, and the
  -- window stays where it began.
  pub retransmit_all-count :
      NeverRefuses m FlowKey FlowKey-discrete Retrans
      → (hs : List Hook) (sk : Sock) (o : Objects m) (r : Retrans) (span : ℕ)
      → nd_is_ipv4_sock sk ≡ true
      → lookup o.nd_tcp_retrans_by_flow (flow_of sk) ≡ some r
      → burst_window o ≡ span
      → All (λ h. (r.first_seen_ns < h.ktime 0) × (h.ktime 0 ≤ r.first_seen_ns + span)) hs
      → IsU64 r.count
      → (v : Retrans) × (lookup (retransmit_all sk hs o).nd_tcp_retrans_by_flow (flow_of sk)
          ≡ some v)
        × (v.first_seen_ns ≡ r.first_seen_ns)
        × (v.count ≡ u64 (r.count + length hs))
  retransmit_all-count taken [] sk o r span v4 e w soon hr = (r, e, refl, omega arith)
  retransmit_all-count taken (h ∷ hs) sk o r span v4 e w soon hr =
      let o' = nd_tcp_retransmit_skb m h (some sk) o in
      let (same_config, v, found, first, count, reported) = retransmit-known taken h sk o r v4 e in
      let in_span = soon.0.1 in
      let (begun, counted) =
        retrans_value-window (h.ktime 0) (burst_window o) r soon.0.0 (rw w in_span) in
      let same_first = first ∙ begun in
      let (v', found', first', count') =
        retransmit_all-count taken hs sk o' v span v4 found
          (ap (λ c. (nd_get_config c).retrans_burst_window_ns) same_config ∙ w)
          (subst (λ f. All (λ g. (f < g.ktime 0) × (g.ktime 0 ≤ f + span)) hs) (sym same_first)
            soon.1)
          (omega (arith, count, counted)) in
      (v', found', first' ∙ same_first, omega (arith, count', count, counted))
