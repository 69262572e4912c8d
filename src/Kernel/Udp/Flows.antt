-- ===== src/Kernel/Udp/Flows.antt =====
-- The accounting of the UDP flows, and how often a long flow is reported.
use networkdoctor_prestudy.Base.{
  ℕ, ◌+◌, ◌≤◌, ◌≡◌, refl, ap, ◌∙◌, arith, Bool, true, false, ◌&&◌, Option, some, List, [], ◌∷◌, map,
  All, length, sum, u64, IsU64, leb, Bool-cases, inl, inr,
}
use networkdoctor_prestudy.Platform.{BpfMaps, MapLaws}
use networkdoctor_prestudy.Histogram.{nd_log2_bucket}
use networkdoctor_prestudy.Kernel.{Objects, FlowKey, UdpFlow, NdConfig}
use networkdoctor_prestudy.Kernel.Helpers.{Hook, EventType, long_udp_flow, nd_get_config}
use networkdoctor_prestudy.Kernel.Update.{
  nd_inc_u64_percpu_array, nd_inc_udp_counter, nd_submit_event_no_pid,
}
use networkdoctor_prestudy.Kernel.Tcp.{past_cooldown}
use networkdoctor_prestudy.Kernel.Udp.{SkBuff, micros_since, continue_flow, account_udp}

-- A flow's value with one more packet.
abbrev pub touch : Hook → SkBuff → UdpFlow → UdpFlow
touch h skb uv = record uv {
  last_seen_ns = h.ktime 0;
  packets = u64 (uv.packets + 1);
  bytes = u64 (uv.bytes + skb.len);
}

module _ (m : BpfMaps) where
  open m use {lookup}

  abbrev pub config : Objects m → NdConfig
  config o = nd_get_config o.nd_config

  -- Whether a packet of a known flow makes the hook report it.
  abbrev pub is_reported : Hook → UdpFlow → Objects m → Bool
  is_reported h uv o =
      leb (config o).long_udp_flow_us (micros_since (h.ktime 0) uv.first_seen_ns)
      && past_cooldown (h.ktime 0) uv.last_event_ns (config o).event_cooldown_ns

  -- The packets of one flow, in their order.
  abbrev pub account_all : FlowKey → List (Hook × SkBuff) → Objects m → Objects m
  account_all flow [] o = o
  account_all flow ((h, skb) ∷ packets) o = account_all flow packets (account_udp m h skb flow o)

  -- No report was made, and the thresholds are what they were.
  pub record Quiet (o o' : Objects m) : Type 0 where
    pub nd_config : o'.nd_config ≡ o.nd_config
    pub nd_udp_duration_us_hist : o'.nd_udp_duration_us_hist ≡ o.nd_udp_duration_us_hist
    pub nd_events : o'.nd_events ≡ o.nd_events

  submit-frame :
      (h : Hook) (site : ℕ) (type : EventType) (flow : Option FlowKey) (value aux : ℕ)
      (o : Objects m)
      → let o' = nd_submit_event_no_pid m h site type flow value aux o in
        (o'.nd_config ≡ o.nd_config)
        × (o'.nd_udp_duration_us_hist ≡ o.nd_udp_duration_us_hist)
        × (o'.nd_udp_flows ≡ o.nd_udp_flows)
  unfolding nd_submit_event_no_pid
  submit-frame h site type flow value aux o = (ground arith, ground arith, ground arith)

module _ (m : BpfMaps) (laws : MapLaws m) where
  open m use {lookup}

  account-Quiet :
      (h : Hook) (skb : SkBuff) (flow : FlowKey) (o : Objects m) (uv : UdpFlow)
      → lookup o.nd_udp_flows flow ≡ some uv
      → is_reported m h uv o ≡ false
      → Quiet m o (account_udp m h skb flow o)
        × (lookup (account_udp m h skb flow o).nd_udp_flows flow ≡ some (touch h skb uv))
  unfolding account_udp continue_flow nd_inc_udp_counter
  account-Quiet h skb flow o uv e q =
      rw (account_udp, e, continue_flow, q)
        (
          record { nd_config = refl; nd_udp_duration_us_hist = refl; nd_events = refl },
          laws.lookup-write o.nd_udp_flows flow (touch h skb uv) uv e,
        )

  account_reported :
      (h : Hook) (skb : SkBuff) (flow : FlowKey) (o : Objects m) (uv : UdpFlow)
      → lookup o.nd_udp_flows flow ≡ some uv
      → is_reported m h uv o ≡ true
      → let o' = account_udp m h skb flow o in
        (o'.nd_config ≡ o.nd_config)
        × (o'.nd_udp_duration_us_hist
            ≡ nd_inc_u64_percpu_array m o.nd_udp_duration_us_hist h.cpu
                (nd_log2_bucket (micros_since (h.ktime 0) uv.first_seen_ns)))
        × (lookup o'.nd_udp_flows flow
            ≡ some (record (touch h skb uv) { last_event_ns = h.ktime 0 }))
  unfolding account_udp continue_flow nd_inc_udp_counter
  account_reported h skb flow o uv e q =
      let dur_us = micros_since (h.ktime 0) uv.first_seen_ns in
      let counted = nd_inc_udp_counter m h 0 o in
      let written = record counted {
        nd_udp_flows = m.write o.nd_udp_flows flow (touch h skb uv);
        nd_udp_duration_us_hist =
            nd_inc_u64_percpu_array m o.nd_udp_duration_us_hist h.cpu (nd_log2_bucket dur_us);
      } in
      let (same_config, hist, flows) =
        submit-frame m h 1 long_udp_flow (some flow) dur_us (u64 (uv.packets + 1))
          (nd_inc_udp_counter m h 1 written) in
      let found = laws.lookup-write o.nd_udp_flows flow (touch h skb uv) uv e in
      rw (account_udp, e, continue_flow, q)
        (
          same_config,
          hist,
          laws.lookup-write _ flow (record (touch h skb uv) { last_event_ns = h.ktime 0 })
              (touch h skb uv) (ap (λ s. lookup s flow) flows ∙ found),
        )

  -- The two branches as to the flow's value: a report changes nothing of it but the time of the last.
  pub account-touch :
      (h : Hook) (skb : SkBuff) (flow : FlowKey) (o : Objects m) (uv : UdpFlow)
      → lookup o.nd_udp_flows flow ≡ some uv
      → (t : ℕ) × (lookup (account_udp m h skb flow o).nd_udp_flows flow
          ≡ some (record (touch h skb uv) { last_event_ns = t }))
  account-touch h skb flow o uv e = elim (Bool-cases (is_reported m h uv o)) [
    | inl t ↦ (h.ktime 0, (account_reported h skb flow o uv e t).2)
    | inr t ↦ (uv.last_event_ns, (account-Quiet h skb flow o uv e t).1)
  ]

  -- Over any course of packets of a flow that the map holds, with or without reports: the flow stays
  -- in the map with the time of its first packet, its packets go up by their number and its bytes by
  -- the sum of their lengths, both modulo 2 ^ 64.
  pub account_all-totals :
      (packets : List (Hook × SkBuff)) (flow : FlowKey) (o : Objects m) (uv : UdpFlow)
      → lookup o.nd_udp_flows flow ≡ some uv
      → IsU64 uv.packets
      → IsU64 uv.bytes
      → (v : UdpFlow) × (lookup (account_all m flow packets o).nd_udp_flows flow ≡ some v)
        × (v.first_seen_ns ≡ uv.first_seen_ns)
        × (v.packets ≡ u64 (uv.packets + length packets))
        × (v.bytes ≡ u64 (uv.bytes + sum (map (λ p. p.1.len) packets)))
  account_all-totals [] flow o uv e hp hb = (uv, e, refl, omega arith, omega arith)
  account_all-totals ((h, skb) ∷ packets) flow o uv e hp hb =
      let (t, found) = account-touch h skb flow o uv e in
      let (v, held, first, count, bytes) =
        account_all-totals packets flow (account_udp m h skb flow o)
          (record (touch h skb uv) { last_event_ns = t }) found (omega arith) (omega arith) in
      (v, held, first, omega (arith, count), omega (arith, bytes))

  in_cooldown :
      (h : Hook) (uv : UdpFlow) (o : Objects m) (cooldown : ℕ)
      → (config m o).event_cooldown_ns ≡ cooldown
      → IsU64 (uv.last_event_ns + cooldown)
      → h.ktime 0 ≤ uv.last_event_ns + cooldown
      → is_reported m h uv o ≡ false
  in_cooldown h uv o cooldown c fits soon = ground arith

  account_all-Quiet :
      (packets : List (Hook × SkBuff)) (flow : FlowKey) (o : Objects m) (uv : UdpFlow)
      (cooldown : ℕ)
      → (config m o).event_cooldown_ns ≡ cooldown
      → IsU64 (uv.last_event_ns + cooldown)
      → lookup o.nd_udp_flows flow ≡ some uv
      → All (λ p. p.0.ktime 0 ≤ uv.last_event_ns + cooldown) packets
      → Quiet m o (account_all m flow packets o)
  account_all-Quiet [] flow o uv cooldown c fits e soon = record {
    nd_config = refl;
    nd_udp_duration_us_hist = refl;
    nd_events = refl;
  }
  account_all-Quiet ((h, skb) ∷ packets) flow o uv cooldown c fits e soon =
      let (first, found) =
        account-Quiet h skb flow o uv e (in_cooldown h uv o cooldown c fits soon.0) in
      let rest =
        account_all-Quiet packets flow (account_udp m h skb flow o) (touch h skb uv) cooldown
          (ap (λ x. (nd_get_config x).event_cooldown_ns) first.nd_config ∙ c) fits found soon.1 in
      record {
        nd_config = rest.nd_config ∙ first.nd_config;
        nd_udp_duration_us_hist = rest.nd_udp_duration_us_hist ∙ first.nd_udp_duration_us_hist;
        nd_events = rest.nd_events ∙ first.nd_events;
      }

  -- A long flow is reported once per cooldown: if a packet makes the hook report a flow, and all of
  -- any further packets of the flow come up to the cooldown later, where that time does not wrap,
  -- then by their end the duration histogram has got the one sample of the report, and no event
  -- has been submitted since.
  pub reported_once :
      (h : Hook) (skb : SkBuff) (packets : List (Hook × SkBuff)) (flow : FlowKey) (o : Objects m)
      (uv : UdpFlow)
      → lookup o.nd_udp_flows flow ≡ some uv
      → is_reported m h uv o ≡ true
      → IsU64 (h.ktime 0 + (config m o).event_cooldown_ns)
      → All (λ p. p.0.ktime 0 ≤ h.ktime 0 + (config m o).event_cooldown_ns) packets
      → let o' = account_all m flow ((h, skb) ∷ packets) o in
        (o'.nd_udp_duration_us_hist
          ≡ nd_inc_u64_percpu_array m o.nd_udp_duration_us_hist h.cpu
              (nd_log2_bucket (micros_since (h.ktime 0) uv.first_seen_ns)))
        × (o'.nd_events ≡ (account_udp m h skb flow o).nd_events)
  reported_once h skb packets flow o uv e q fits soon =
      let (same_config, hist, found) = account_reported h skb flow o uv e q in
      let rest =
        account_all-Quiet packets flow (account_udp m h skb flow o)
          (record (touch h skb uv) { last_event_ns = h.ktime 0 }) (config m o).event_cooldown_ns
          (ap (λ x. (nd_get_config x).event_cooldown_ns) same_config) fits found soon in
      (rest.nd_udp_duration_us_hist ∙ hist, rest.nd_events)
