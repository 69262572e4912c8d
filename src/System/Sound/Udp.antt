-- ===== src/System/Sound/Udp.antt =====
-- What nd_parse_ipv4_udp does with a packet keeps the state sound.
use networkdoctor_prestudy.Base.{
  ℕ, ◌+◌, ◌<◌, arith, not, ◌&&◌, some, if◌then◌else◌, ltb, leb, ◌==◌, inl, inr, u64, Option-cases,
}
use networkdoctor_prestudy.Platform.{BpfMaps}
use networkdoctor_prestudy.Histogram.{nd_log2_bucket}
use networkdoctor_prestudy.Kernel.{Objects, FlowKey, UdpFlow, DnsKey, DnsPending}
use networkdoctor_prestudy.Kernel.Helpers.{
  Hook, nd_get_config, long_udp_flow, slow_dns, dns_rcode_error,
}
use networkdoctor_prestudy.Kernel.Update.{
  nd_inc_u64_percpu_array, nd_inc_udp_counter, nd_inc_dns_counter, nd_submit_event_no_pid,
}
use networkdoctor_prestudy.Kernel.Packet.{UdpHeader, DnsHeader}
use networkdoctor_prestudy.Kernel.Tcp.{past_cooldown}
use networkdoctor_prestudy.Kernel.Udp.{
  SkBuff, is_response, dns_rcode, micros_since, query_key, response_key, dns_port, continue_flow,
  account_udp, dns_query, count_rcode, settle, dns_response, account_dns,
}
use networkdoctor_prestudy.System.{HasClock}
use networkdoctor_prestudy.System.Sound.{
  Sound, FlowInRange, if-Sound, inc_udp-Sound, inc_dns-Sound, submit_event_no_pid-Sound,
  micros_since-lt,
}

module _ (m : BpfMaps) (h : Hook) (clock : HasClock h) where
  open m use {lookup, update, write, delete}

  continue_flow-Sound :
      (skb : SkBuff) (flow : FlowKey) (uv : UdpFlow) (o : Objects m)
      → FlowInRange flow
      → Sound m o
      → Sound m (continue_flow m h skb flow uv o)
  unfolding continue_flow
  continue_flow-Sound skb flow uv o f s =
      let dur_us = micros_since (h.ktime 0) uv.first_seen_ns in
      let t =
        leb (nd_get_config o.nd_config).long_udp_flow_us dur_us
        && past_cooldown (h.ktime 0) uv.last_event_ns
            (nd_get_config o.nd_config).event_cooldown_ns in
      let sampled : Objects m = record o {
        nd_udp_flows = write o.nd_udp_flows flow (record uv {
          last_seen_ns = h.ktime 0;
          packets = u64 (uv.packets + 1);
          bytes = u64 (uv.bytes + skb.len);
        });
        nd_udp_duration_us_hist =
            nd_inc_u64_percpu_array m o.nd_udp_duration_us_hist h.cpu (nd_log2_bucket dur_us);
      } in
      let sampled_s : Sound m sampled = record {
        window = s.window;
        flows = s.flows;
        events = s.events;
      } in
      let reported_s =
        submit_event_no_pid-Sound m h clock 1 long_udp_flow (some flow) dur_us
          (u64 (uv.packets + 1)) (nd_inc_udp_counter m h 1 sampled) f
          (micros_since-lt (h.ktime 0) uv.first_seen_ns (clock 0)) (omega arith)
          (inc_udp-Sound m h 1 sampled sampled_s) in
      if-Sound m t _ _
        (record {
          window = reported_s.window;
          flows = reported_s.flows;
          events = reported_s.events;
        })
        (record { window = s.window; flows = s.flows; events = s.events })

  pub account_udp-Sound :
      (skb : SkBuff) (flow : FlowKey) (o : Objects m)
      → FlowInRange flow
      → Sound m o
      → Sound m (account_udp m h skb flow o)
  unfolding account_udp
  account_udp-Sound skb flow o f s =
      let counted = nd_inc_udp_counter m h 0 o in
      let s' = inc_udp-Sound m h 0 o s in
      elim (Option-cases (lookup counted.nd_udp_flows flow)) [
        | inl e ↦
            rw (account_udp, e)
              (record { window = s'.window; flows = s'.flows; events = s'.events })
        | inr (uv, e) ↦ rw (account_udp, e) (continue_flow-Sound skb flow uv counted f s')
      ]

  dns_query-Sound : (key : DnsKey) (o : Objects m) → Sound m o → Sound m (dns_query m h key o)
  unfolding dns_query
  dns_query-Sound key o s =
      let s' = inc_dns-Sound m h 0 o s in
      record { window = s'.window; flows = s'.flows; events = s'.events }

  count_rcode-Sound :
      (flow : FlowKey) (rcode : ℕ) (o : Objects m)
      → FlowInRange flow
      → rcode < 16
      → Sound m o
      → Sound m (count_rcode m h flow rcode o)
  unfolding count_rcode
  count_rcode-Sound flow rcode o f r s =
      let counted : Objects m = record o {
        nd_dns_rcode_total = nd_inc_u64_percpu_array m o.nd_dns_rcode_total h.cpu rcode;
      } in
      let counted_s : Sound m counted = record {
        window = s.window;
        flows = s.flows;
        events = s.events;
      } in
      if-Sound m (ltb rcode 16) _ o
        (if-Sound m (rcode == 0) counted _ counted_s (
          submit_event_no_pid-Sound m h clock 2 dns_rcode_error (some flow) rcode 0
            (nd_inc_dns_counter m h 2 counted) f (omega arith) (omega arith)
            (inc_dns-Sound m h 2 counted counted_s)))
        s

  settle-Sound :
      (flow : FlowKey) (key : DnsKey) (rcode : ℕ) (pending : DnsPending) (o : Objects m)
      → FlowInRange flow
      → rcode < 16
      → Sound m o
      → Sound m (settle m h flow key rcode pending o)
  unfolding settle
  settle-Sound flow key rcode pending o f r s =
      let latency_us = micros_since (h.ktime 0) pending.start_ns in
      let bucketed : Objects m = record o {
        nd_dns_latency_us_hist =
            nd_inc_u64_percpu_array m o.nd_dns_latency_us_hist h.cpu (nd_log2_bucket latency_us);
      } in
      let sampled = if ltb 0 latency_us then bucketed else o in
      let sampled_s =
        if-Sound m (ltb 0 latency_us) bucketed o
          (record { window = s.window; flows = s.flows; events = s.events }) s in
      let reported_s =
        if-Sound m (leb (nd_get_config o.nd_config).slow_dns_us latency_us)
          (nd_submit_event_no_pid m h 3 slow_dns (some flow) latency_us rcode
            (nd_inc_dns_counter m h 3 sampled))
          sampled
          (submit_event_no_pid-Sound m h clock 3 slow_dns (some flow) latency_us rcode
            (nd_inc_dns_counter m h 3 sampled) f
            (micros_since-lt (h.ktime 0) pending.start_ns (clock 0)) (omega arith)
            (inc_dns-Sound m h 3 sampled sampled_s))
          sampled_s in
      record { window = reported_s.window; flows = reported_s.flows; events = reported_s.events }

  dns_response-Sound :
      (flow : FlowKey) (key : DnsKey) (rcode : ℕ) (o : Objects m)
      → FlowInRange flow
      → rcode < 16
      → Sound m o
      → Sound m (dns_response m h flow key rcode o)
  unfolding dns_response
  dns_response-Sound flow key rcode o f r s =
      let counted = count_rcode m h flow rcode (nd_inc_dns_counter m h 1 o) in
      let s' = count_rcode-Sound flow rcode _ f r (inc_dns-Sound m h 1 o s) in
      elim (Option-cases (lookup counted.nd_dns_pending key)) [
        | inl e ↦ rw (dns_response, e) s'
        | inr (pending, e) ↦
            rw (dns_response, e) (settle-Sound flow key rcode pending counted f r s')
      ]

  pub account_dns-Sound :
      (skb : SkBuff) (flow : FlowKey) (udp : UdpHeader) (dns : DnsHeader) (o : Objects m)
      → FlowInRange flow
      → Sound m o
      → Sound m (account_dns m h skb flow udp dns o)
  unfolding account_dns
  account_dns-Sound skb flow udp dns o f s =
      if-Sound m (not (is_response dns.flags) && (udp.dport == dns_port)) _ _
        (dns_query-Sound (query_key skb udp dns.txid) o s)
        (if-Sound m (is_response dns.flags && (udp.sport == dns_port)) _ o
          (dns_response-Sound flow (response_key skb udp dns.txid) (dns_rcode dns.flags) o f
            (omega arith) s)
          s)
