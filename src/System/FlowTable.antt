-- ===== src/System/FlowTable.antt =====
-- nd_udp_flows as its users see it: for each flow the times of its first and its last packet, and how
-- many packets and bytes it has had.
use networkdoctor_prestudy.Base.{
  ℕ, ◌+◌, ◌≡◌, ◌≢◌, ◌⊎◌, refl, ap, ◌∙◌, arith, Option, none, some, List, u64, inl, inr,
  Option-cases, Bool-cases,
}
use mathlib.Core.Option
use networkdoctor_prestudy.Platform.{BpfMaps, MapLaws, NeverFull}
use networkdoctor_prestudy.Kernel.{Objects, FlowKey, FlowKey-discrete, UdpFlow}
use networkdoctor_prestudy.Kernel.Helpers.{Hook, EventType, long_udp_flow}
use networkdoctor_prestudy.Kernel.Update.{
  nd_inc_udp_counter, nd_submit_event_no_pid, nd_inc_u64_percpu_array,
}
use networkdoctor_prestudy.Histogram.{nd_log2_bucket}
use networkdoctor_prestudy.Kernel.Udp.{SkBuff, micros_since, continue_flow, account_udp}
use networkdoctor_prestudy.Kernel.Udp.Flows.{touch, is_reported, account-touch}
use networkdoctor_prestudy.Gc.{gc_udp_flows}
use networkdoctor_prestudy.Gc.Expiry.{Lists, is_fresh, retain, gc_udp_flows_lem}
use networkdoctor_prestudy.System.Table.{replays, set_at, set_at-eq}

pub record Seen : Type 0 where
  pub first : ℕ
  pub last : ℕ
  pub packets : ℕ
  pub bytes : ℕ

abbrev pub seen_of : UdpFlow → Seen
seen_of v = record {
  first = v.first_seen_ns;
  last = v.last_seen_ns;
  packets = v.packets;
  bytes = v.bytes;
}

abbrev pub FlowTable : Type 0
FlowTable = FlowKey → Option Seen

-- A packet of some length is seen of a flow at a time; or the flows that were idle longer than a
-- timeout are given up.
pub data Op : Type 0 where
  see : FlowKey → ℕ → ℕ → Op
  expire : ℕ → ℕ → Op

abbrev pub see_again : ℕ → ℕ → Option Seen → Seen
see_again now len none = record { first = now; last = now; packets = 1; bytes = len }
see_again now len (some s) = record {
  first = s.first;
  last = now;
  packets = u64 (s.packets + 1);
  bytes = u64 (s.bytes + len);
}

abbrev pub apply : Op → FlowTable → FlowTable
apply (see flow now len) t = set_at FlowKey-discrete t flow (some (see_again now len (t flow)))
apply (expire now idle) t = λ k. retain (λ (s : Seen). is_fresh now idle s.last) (t k)

abbrev pub replay : List Op → FlowTable → FlowTable
replay = replays apply

-- What the maps hold, as a table.
abbrev pub table : (m : BpfMaps) → Objects m → FlowTable
table m o k = Option.map seen_of (m.lookup o.nd_udp_flows k)

retain-map :
    (now idle : ℕ) (x : Option UdpFlow)
    → Option.map seen_of (retain (λ (v : UdpFlow). is_fresh now idle v.last_seen_ns) x)
      ≡ retain (λ (s : Seen). is_fresh now idle s.last) (Option.map seen_of x)
retain-map now idle none = refl
retain-map now idle (some v) = ground arith

module _ (m : BpfMaps) (laws : MapLaws m)
    (full : NeverFull m FlowKey FlowKey-discrete UdpFlow) where
  open m use {lookup, write, update}

  submit-flows :
      (h : Hook) (site : ℕ) (type : EventType) (flow : Option FlowKey) (value aux : ℕ)
      (o : Objects m)
      → (nd_submit_event_no_pid m h site type flow value aux o).nd_udp_flows ≡ o.nd_udp_flows
  unfolding nd_submit_event_no_pid
  submit-flows h site type flow value aux o = ground arith

  -- A known flow is written in place, once or twice.
  known_written :
      (h : Hook) (skb : SkBuff) (flow : FlowKey) (uv : UdpFlow) (o : Objects m)
      → lookup o.nd_udp_flows flow ≡ some uv
      → let o' = account_udp m h skb flow o in
        (o'.nd_udp_flows ≡ write o.nd_udp_flows flow (touch h skb uv))
        ⊎ ((v : UdpFlow) × (o'.nd_udp_flows
              ≡ write (write o.nd_udp_flows flow (touch h skb uv)) flow v))
  unfolding account_udp continue_flow nd_inc_udp_counter
  known_written h skb flow uv o e = elim (Bool-cases (is_reported m h uv o)) [
    | inl t ↦
        let dur_us = micros_since (h.ktime 0) uv.first_seen_ns in
        let written = record (nd_inc_udp_counter m h 0 o) {
          nd_udp_flows = write o.nd_udp_flows flow (touch h skb uv);
          nd_udp_duration_us_hist =
              nd_inc_u64_percpu_array m o.nd_udp_duration_us_hist h.cpu (nd_log2_bucket dur_us);
        } in
        let v : UdpFlow = record (touch h skb uv) { last_event_ns = h.ktime 0 } in
        rw (account_udp, e, continue_flow, t)
          (inr (
            v,
            ap (λ s. write s flow v)
                (submit-flows h 1 long_udp_flow (some flow) dur_us (u64 (uv.packets + 1))
                  (nd_inc_udp_counter m h 1 written)),
          ))
    | inr t ↦ rw (account_udp, e, continue_flow, t) (inl refl)
  ]

  fresh_written :
      (h : Hook) (skb : SkBuff) (flow : FlowKey) (o : Objects m)
      → lookup o.nd_udp_flows flow ≡ none
      → (account_udp m h skb flow o).nd_udp_flows
        ≡ update o.nd_udp_flows flow (record {
          first_seen_ns = h.ktime 0;
          last_seen_ns = h.ktime 0;
          last_event_ns = 0;
          packets = 1;
          bytes = skb.len;
        })
  unfolding account_udp nd_inc_udp_counter
  fresh_written h skb flow o e = rw (account_udp, e) refl

  other_flow :
      (h : Hook) (skb : SkBuff) (flow : FlowKey) (o : Objects m) (k : FlowKey)
      → flow ≢ k
      → lookup (account_udp m h skb flow o).nd_udp_flows k ≡ lookup o.nd_udp_flows k
  other_flow h skb flow o k ne = elim (Option-cases (lookup o.nd_udp_flows flow)) [
    | inl e ↦
        ap (λ s. lookup s k) (fresh_written h skb flow o e)
        ∙ full.update_ne o.nd_udp_flows flow k _ ne
    | inr (uv, e) ↦ elim (known_written h skb flow uv o e) [
      | inl w ↦
          ap (λ s. lookup s k) w ∙ laws.lookup-write_ne o.nd_udp_flows flow k (touch h skb uv) ne
      | inr (v, w) ↦
          ap (λ s. lookup s k) w
          ∙ laws.lookup-write_ne (write o.nd_udp_flows flow (touch h skb uv)) flow k v ne
          ∙ laws.lookup-write_ne o.nd_udp_flows flow k (touch h skb uv) ne
    ]
  ]

  own_flow :
      (h : Hook) (skb : SkBuff) (flow : FlowKey) (o : Objects m)
      → table m (account_udp m h skb flow o) flow
        ≡ some (see_again (h.ktime 0) skb.len (table m o flow))
  own_flow h skb flow o = elim (Option-cases (lookup o.nd_udp_flows flow)) [
    | inl e ↦ rw e (
        ap (λ s. Option.map seen_of (lookup s flow)) (fresh_written h skb flow o e)
        ∙ ap (Option.map seen_of) (full.update_self o.nd_udp_flows flow _))
    | inr (uv, e) ↦
        let (t, found) = account-touch m laws h skb flow o uv e in
        rw e (ap (Option.map seen_of) found)
  ]

  -- What the hook does to the table for a packet, and a collection that goes through all flows.
  pub account_udp-apply :
      (h : Hook) (skb : SkBuff) (flow : FlowKey) (o : Objects m) (k : FlowKey)
      → table m (account_udp m h skb flow o) k ≡ apply (see flow (h.ktime 0) skb.len) (table m o) k
  account_udp-apply h skb flow o =
      set_at-eq FlowKey-discrete (table m o) flow
        (some (see_again (h.ktime 0) skb.len (table m o flow)))
        (table m (account_udp m h skb flow o)) (own_flow h skb flow o)
        (λ k ne. ap (Option.map seen_of) (other_flow h skb flow o k ne))

  pub gc_udp_flows-apply :
      (entries : List (FlowKey × UdpFlow)) (now idle : ℕ) (o : Objects m)
      → Lists m o.nd_udp_flows entries
      → (k : FlowKey)
      → Option.map seen_of (lookup (gc_udp_flows m entries now idle o.nd_udp_flows).0 k)
        ≡ apply (expire now idle) (table m o) k
  gc_udp_flows-apply entries now idle o ls k =
      ap (Option.map seen_of)
        ((gc_udp_flows_lem m laws full.never_fails entries now idle o.nd_udp_flows ls).0 k)
      ∙ retain-map now idle (lookup o.nd_udp_flows k)
