-- ===== src/Kernel/Tcp/Reports.antt =====
-- nd_tcp_rcv_established: how often a flow's slow RTT and a drop of its congestion window are reported.
pub mod Segment
pub mod Cooldown
use networkdoctor_prestudy.Base.{
  ℕ, ◌+◌, ◌*◌, ◌/◌, ◌≤◌, ◌≡◌, refl, sym, ap, ◌∙◌, subst, arith, Bool, true, false, not, ◌&&◌,
  Option, none, some, List, [], ◌∷◌, All, u64, u32, ◌^◌, IsU64, leb, ltb, ◌==◌, if◌then◌else◌,
  Bool-cases, Option-cases, inl, inr,
}
use networkdoctor_prestudy.Platform.{BpfMaps, MapLaws, NeverRefuses}
use networkdoctor_prestudy.Kernel.{
  Objects, FlowKey, FlowKey-discrete, TcpFlow, NdConfig, NdEvent, Retrans,
}
use networkdoctor_prestudy.Kernel.Helpers.{
  Hook, Sock, EventType, event_number, slow_tcp_rtt, tcp_cwnd_drop, tcp_retrans_burst,
  nd_get_config, nd_is_ipv4_sock, nd_fill_event,
}
use networkdoctor_prestudy.Kernel.Update.{nd_inc_tcp_counter, nd_submit_event}
use networkdoctor_prestudy.Kernel.Tcp.Bursts.{one_if}
use networkdoctor_prestudy.Kernel.Tcp.{
  past_cooldown, sample_rtt, sample_cwnd, flow_value, report_rtt, report_cwnd,
  nd_tcp_rcv_established, retrans_value, report_burst, note_retrans, nd_tcp_retransmit_skb,
}

-- The two reports of the hook.
pub data Kind : Type 0 where
  rtt : Kind
  cwnd : Kind

abbrev pub type_of : Kind → EventType
type_of rtt = slow_tcp_rtt
type_of cwnd = tcp_cwnd_drop

-- The number of the report's call site in the hook, the first reading of the clock being 0.
abbrev pub site_of : Kind → ℕ
site_of rtt = 1
site_of cwnd = 2

-- When the flow was last reported.
abbrev pub last : Kind → TcpFlow → ℕ
last rtt v = v.last_rtt_event_ns
last cwnd v = v.last_cwnd_event_ns

-- What the hook reports, whenever it was last reported.
abbrev pub is_anomalous : Kind → Sock → TcpFlow → NdConfig → Bool
is_anomalous rtt sk v cfg = leb cfg.slow_tcp_rtt_us (sk.srtt_us / 8)
is_anomalous cwnd sk v cfg =
    ltb 0 v.cwnd
    && ltb 0 sk.snd_cwnd
    && leb (u64 (sk.snd_cwnd * 100)) (u64 (v.cwnd * cfg.cwnd_drop_percent))

-- Whether a segment of a flow that the map holds makes the hook report it.
abbrev pub is_due : Kind → Hook → Sock → TcpFlow → NdConfig → Bool
is_due k h sk v cfg =
    is_anomalous k sk v cfg && past_cooldown (h.ktime 0) (last k v) cfg.event_cooldown_ns

-- The same conditions, on the new value of the flow, as the two blocks of the hook read them.
abbrev pub rtt_due : Hook → TcpFlow → NdConfig → Bool
rtt_due h v cfg =
    leb cfg.slow_tcp_rtt_us v.srtt_us
    && past_cooldown (h.ktime 0) v.last_rtt_event_ns cfg.event_cooldown_ns

abbrev pub cwnd_due : Hook → TcpFlow → NdConfig → Bool
cwnd_due h v cfg =
    ltb 0 v.prev_cwnd
    && ltb 0 v.cwnd
    && leb (u64 (v.cwnd * 100)) (u64 (v.prev_cwnd * cfg.cwnd_drop_percent))
    && past_cooldown (h.ktime 0) v.last_cwnd_event_ns cfg.event_cooldown_ns

-- The events of a type in the ring buffer.
abbrev pub reports : Kind → List NdEvent → ℕ
reports k [] = 0
reports k (e ∷ es) = one_if (e.type == event_number (type_of k)) + reports k es

fill_event-type :
    (type : EventType) (flow : Option FlowKey) (value aux pid ts : ℕ)
    → (nd_fill_event type flow value aux pid ts).type ≡ event_number type
unfolding nd_fill_event
fill_event-type type none value aux pid ts = refl
fill_event-type type (some flow) value aux pid ts = refl

module _ (m : BpfMaps) where
  open m use {lookup}

  abbrev pub config : Objects m → NdConfig
  config o = nd_get_config o.nd_config

  pub submit-reports :
      (h : Hook) (site : ℕ) (type : EventType) (flow : Option FlowKey) (value aux : ℕ)
      (o : Objects m)
      → let o' = nd_submit_event m h site type flow value aux o in
        (o'.nd_config ≡ o.nd_config)
        × (o'.nd_tcp_flow_latest ≡ o.nd_tcp_flow_latest)
        × ((k : Kind)
            → reports k o'.nd_events
              ≡ one_if (h.has_room site && (event_number type == event_number (type_of k)))
                + reports k o.nd_events)
  unfolding nd_submit_event
  submit-reports h site type flow value aux o = (
    ground arith,
    ground arith,
    λ k. elim (Bool-cases (h.has_room site)) [
      | inl e ↦
          rw (nd_submit_event, e)
            (ap (λ (n : ℕ). one_if (n == event_number (type_of k)) + reports k o.nd_events)
              (fill_event-type type flow value aux (u32 (h.pid_tgid / 2 ^ 32)) (h.ktime site)))
      | inr e ↦ rw (nd_submit_event, e) (omega arith)
    ],
  )
