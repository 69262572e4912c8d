-- ===== src/System/Sound.antt =====
-- What every hook and every collection preserves: the events in the ring buffer are in the ranges of
-- their C types, and what is put into later ones stays in range.
pub mod State
pub mod Tcp
pub mod Headers
pub mod Udp
pub mod Steps
pub mod Logged
use networkdoctor_prestudy.Base.{
  ℕ, ◌^◌, ◌<◌, ◌/◌, ◌%◌, ◌≡◌, refl, sym, ap, ◌∙◌, subst, arith, Bool, true, false, Option, none,
  some, List, [], ◌∷◌, All, if◌then◌else◌, ltb, leb, inl, inr, u64, u32,
}
use mathlib.Core.Option.{some-injective}
use networkdoctor_prestudy.Platform.{BpfMaps, MapLaws}
use networkdoctor_prestudy.Kernel.{Objects, NdConfig, FlowKey, TcpFlow, NdEvent, FlowKey-discrete}
use networkdoctor_prestudy.Kernel.Helpers.{
  Hook, EventType, event_number, nd_get_config, nd_fill_event,
}
use networkdoctor_prestudy.Kernel.Update.{
  nd_inc_tcp_counter, nd_inc_dns_counter, nd_inc_udp_counter, nd_submit_event,
  nd_submit_event_no_pid,
}
use networkdoctor_prestudy.Kernel.Udp.{micros_since}
use networkdoctor_prestudy.Event.RoundTrip.{InRange}
use networkdoctor_prestudy.System.{HasClock}

pub record FlowInRange (flow : FlowKey) : Type 0 where
  pub ifindex : flow.ifindex < 2 ^ 32
  pub src_ip : flow.src_ip < 2 ^ 32
  pub dst_ip : flow.dst_ip < 2 ^ 32
  pub src_port : flow.src_port < 2 ^ 16
  pub dst_port : flow.dst_port < 2 ^ 16

abbrev pub FlowArgument : Option FlowKey → Type 0
FlowArgument none = Unit
FlowArgument (some flow) = FlowInRange flow

event_number-lt : (type : EventType) → event_number type < 2 ^ 32
event_number-lt type = ground arith

pub micros_since-lt : (now start : ℕ) → now < 2 ^ 64 → micros_since now start < 2 ^ 64
micros_since-lt now start h = ground arith

fill-InRange :
    (type : EventType) (flow : Option FlowKey) (value aux pid ts : ℕ)
    → FlowArgument flow
    → value < 2 ^ 64
    → aux < 2 ^ 64
    → pid < 2 ^ 32
    → ts < 2 ^ 64
    → InRange (nd_fill_event type flow value aux pid ts)
unfolding nd_fill_event
fill-InRange type none value aux pid ts f v a p t = record {
  type = event_number-lt type;
  pid = p;
  ts_ns = t;
  ifindex = omega arith;
  src_ip = omega arith;
  dst_ip = omega arith;
  src_port = omega arith;
  dst_port = omega arith;
  value_us = v;
  aux = a;
}
fill-InRange type (some flow) value aux pid ts f v a p t = record {
  type = event_number-lt type;
  pid = p;
  ts_ns = t;
  ifindex = f.ifindex;
  src_ip = f.src_ip;
  dst_ip = f.dst_ip;
  src_port = f.src_port;
  dst_port = f.dst_port;
  value_us = v;
  aux = a;
}

module _ (m : BpfMaps) where
  open m use {Hash, lookup}

  abbrev pub FlowsInRange : Hash FlowKey FlowKey-discrete TcpFlow → Type 0
  FlowsInRange flows = (k : FlowKey) (v : TcpFlow) → lookup flows k ≡ some v → v.cwnd < 2 ^ 32

  pub record Sound (o : Objects m) : Type 0 where
    pub window : (nd_get_config o.nd_config).retrans_burst_window_ns < 2 ^ 64
    pub flows : FlowsInRange o.nd_tcp_flow_latest
    pub events : All InRange o.nd_events

  pub if-Sound : (t : Bool) (x y : Objects m) → Sound x → Sound y → Sound (if t then x else y)
  if-Sound true x y p q = p
  if-Sound false x y p q = q

  pub inc_tcp-Sound :
      (h : Hook) (k : ℕ) (o : Objects m) → Sound o → Sound (nd_inc_tcp_counter m h k o)
  unfolding nd_inc_tcp_counter
  inc_tcp-Sound h k o s = record { window = s.window; flows = s.flows; events = s.events }

  pub inc_dns-Sound :
      (h : Hook) (k : ℕ) (o : Objects m) → Sound o → Sound (nd_inc_dns_counter m h k o)
  unfolding nd_inc_dns_counter
  inc_dns-Sound h k o s = record { window = s.window; flows = s.flows; events = s.events }

  pub inc_udp-Sound :
      (h : Hook) (k : ℕ) (o : Objects m) → Sound o → Sound (nd_inc_udp_counter m h k o)
  unfolding nd_inc_udp_counter
  inc_udp-Sound h k o s = record { window = s.window; flows = s.flows; events = s.events }

  module _ (h : Hook) (clock : HasClock h) (site : ℕ) (type : EventType) (flow : Option FlowKey)
      (value aux : ℕ) (o : Objects m) (f : FlowArgument flow) (v : value < 2 ^ 64)
      (a : aux < 2 ^ 64) (s : Sound o) where
    pub submit_event-Sound : Sound (nd_submit_event m h site type flow value aux o)
    unfolding nd_submit_event
    submit_event-Sound =
        if-Sound (h.has_room site) _ o
          (record {
            window = s.window;
            flows = s.flows;
            events = (
              fill-InRange type flow value aux (u32 (h.pid_tgid / 2 ^ 32)) (h.ktime site) f v a
                  (omega arith) (clock site),
              s.events,
            );
          })
          s

    pub submit_event_no_pid-Sound : Sound (nd_submit_event_no_pid m h site type flow value aux o)
    unfolding nd_submit_event_no_pid
    submit_event_no_pid-Sound =
        if-Sound (h.has_room site) _ o
          (record {
            window = s.window;
            flows = s.flows;
            events = (
              fill-InRange type flow value aux 0 (h.ktime site) f v a (omega arith) (clock site),
              s.events,
            );
          })
          s

module _ (m : BpfMaps) (laws : MapLaws m) where
  open m use {Hash, lookup, update, write}

  -- Storing a value in range, whether the map takes it, refuses it or evicts another.
  pub update-FlowsInRange :
      (flows : Hash FlowKey FlowKey-discrete TcpFlow) (k : FlowKey) (v : TcpFlow)
      → FlowsInRange m flows
      → v.cwnd < 2 ^ 32
      → FlowsInRange m (update flows k v)
  update-FlowsInRange flows k v p h j w e = elim (FlowKey-discrete k j) [
    | yes same ↦ self (subst (λ x. lookup (update flows k v) x ≡ some w) (sym same) e)
    | no ne ↦ elim (laws.lookup-update_ne flows k j v ne) [
      | inl kept ↦ p j w (sym kept ∙ e)
      | inr gone ↦ cc
    ]
  ]
    where
      self : lookup (update flows k v) k ≡ some w → w.cwnd < 2 ^ 32
      self q = elim (laws.lookup-update flows k v) [
        | inl taken ↦
            subst (λ (x : TcpFlow). x.cwnd < 2 ^ 32) (some-injective _ _ (sym taken ∙ q)) h
        | inr refused ↦ p k w (sym refused ∙ q)
      ]

  pub write-FlowsInRange :
      (flows : Hash FlowKey FlowKey-discrete TcpFlow) (k : FlowKey) (v old : TcpFlow)
      → FlowsInRange m flows
      → lookup flows k ≡ some old
      → v.cwnd < 2 ^ 32
      → FlowsInRange m (write flows k v)
  write-FlowsInRange flows k v old p found h j w e = elim (FlowKey-discrete k j) [
    | yes same ↦
        subst (λ (x : TcpFlow). x.cwnd < 2 ^ 32)
          (some-injective _ _ (
            sym (laws.lookup-write flows k v old found)
            ∙ subst (λ x. lookup (write flows k v) x ≡ some w) (sym same) e))
          h
    | no ne ↦ p j w (sym (laws.lookup-write_ne flows k j v ne) ∙ e)
  ]
