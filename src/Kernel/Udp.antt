-- ===== src/Kernel/Udp.antt =====
-- bpf/networkdoctor.bpf.c: what nd_parse_ipv4_udp does with a packet once it is read.
pub mod Dns
pub mod Flows
pub mod Exchange
use networkdoctor_prestudy.Base.{
  ℕ, ◌+◌, ◌-◌, ◌/◌, ◌%◌, ◌^◌, Bool, not, ◌&&◌, Option, none, some, List, u64, ltb, leb, ◌==◌,
  if◌then◌else◌,
}
use networkdoctor_prestudy.Platform.{BpfMaps}
use networkdoctor_prestudy.Histogram.{nd_log2_bucket}
use networkdoctor_prestudy.Kernel.{Objects, FlowKey, UdpFlow, DnsKey, DnsPending}
use networkdoctor_prestudy.Kernel.Helpers.{
  Hook, nd_get_config, slow_dns, dns_rcode_error, long_udp_flow,
}
use networkdoctor_prestudy.Kernel.Update.{
  nd_inc_u64_percpu_array, nd_inc_dns_counter, nd_inc_udp_counter, nd_submit_event_no_pid,
}
use networkdoctor_prestudy.Kernel.Packet.{
  ◌>>=◌, UdpHeader, DnsHeader, parse_frame, parse_dns, ipproto_udp,
}
use networkdoctor_prestudy.Kernel.Tcp.{past_cooldown}

-- The fields of the __sk_buff.
pub record SkBuff : Type 0 where
  pub packet : List ℕ
  pub len : ℕ
  pub ifindex : ℕ

abbrev pub nd_dir_ingress : ℕ
nd_dir_ingress = 1

abbrev pub nd_dir_egress : ℕ
nd_dir_egress = 2

abbrev pub dns_port : ℕ
dns_port = 53

abbrev pub udp_flow_key : SkBuff → ℕ → UdpHeader → FlowKey
udp_flow_key skb direction udp = record {
  ifindex = skb.ifindex;
  src_ip = udp.saddr;
  dst_ip = udp.daddr;
  src_port = udp.sport;
  dst_port = udp.dport;
  proto = ipproto_udp;
  direction = direction;
  pad = 0;
}

-- `flags & ND_DNS_RCODE_MASK` and `flags & ND_DNS_QR_RESPONSE`.
abbrev pub dns_rcode : ℕ → ℕ
dns_rcode flags = flags % 16

abbrev pub is_response : ℕ → Bool
is_response flags = not (flags / 32768 % 2 == 0)

-- The microseconds since a stamp, 0 if the clock is not past it.
abbrev pub micros_since : ℕ → ℕ → ℕ
micros_since now start = if ltb start now then (now - start) / 1000 else 0

abbrev pub query_key : SkBuff → UdpHeader → ℕ → DnsKey
query_key skb udp txid = record {
  ifindex = skb.ifindex;
  client_ip = udp.saddr;
  server_ip = udp.daddr;
  client_port = udp.sport;
  server_port = udp.dport;
  txid = txid;
  pad = 0;
}

abbrev pub response_key : SkBuff → UdpHeader → ℕ → DnsKey
response_key skb udp txid = record {
  ifindex = skb.ifindex;
  client_ip = udp.daddr;
  server_ip = udp.saddr;
  client_port = udp.dport;
  server_port = udp.sport;
  txid = txid;
  pad = 0;
}

module _ (m : BpfMaps) where
  open m use {lookup, update, write, delete}

  -- The flow is known: its value after this packet, and the report if it has lasted too long.
  unfoldable pub continue_flow : Hook → SkBuff → FlowKey → UdpFlow → Objects m → Objects m
  continue_flow h skb flow uv o =
      let now = h.ktime 0 in
      let cfg = nd_get_config o.nd_config in
      let uv' : UdpFlow = record uv {
        last_seen_ns = now;
        packets = u64 (uv.packets + 1);
        bytes = u64 (uv.bytes + skb.len);
      } in
      let dur_us = micros_since now uv'.first_seen_ns in
      let o' = record o { nd_udp_flows = write o.nd_udp_flows flow uv' } in
      if leb cfg.long_udp_flow_us dur_us
        && past_cooldown now uv'.last_event_ns cfg.event_cooldown_ns
      then (let sampled = record o' {
        nd_udp_duration_us_hist =
            nd_inc_u64_percpu_array m o'.nd_udp_duration_us_hist h.cpu (nd_log2_bucket dur_us);
      } in
          let reported =
            nd_submit_event_no_pid m h 1 long_udp_flow (some flow) dur_us uv'.packets
              (nd_inc_udp_counter m h 1 sampled) in
          record reported {
            nd_udp_flows = write reported.nd_udp_flows flow (record uv' { last_event_ns = now });
          })
      else o'

  unfoldable pub account_udp : Hook → SkBuff → FlowKey → Objects m → Objects m
  unfolding continue_flow
  account_udp h skb flow o =
      let counted = nd_inc_udp_counter m h 0 o in
      elim (lookup counted.nd_udp_flows flow) [
        | none ↦ record counted {
          nd_udp_flows = update counted.nd_udp_flows flow (record {
            first_seen_ns = h.ktime 0;
            last_seen_ns = h.ktime 0;
            last_event_ns = 0;
            packets = 1;
            bytes = skb.len;
          });
        }
        | some uv ↦ continue_flow h skb flow uv counted
      ]

  -- A query to port 53 is remembered under its key.
  unfoldable pub dns_query : Hook → DnsKey → Objects m → Objects m
  dns_query h key o =
      let counted = nd_inc_dns_counter m h 0 o in
      record counted {
        nd_dns_pending = update counted.nd_dns_pending key (record { start_ns = h.ktime 0 });
      }

  -- The count by rcode. A rcode has four bits, so the test `rcode < ND_DNS_RCODES` holds.
  unfoldable pub count_rcode : Hook → FlowKey → ℕ → Objects m → Objects m
  count_rcode h flow rcode o =
      if ltb rcode 16
      then (let counted = record o {
        nd_dns_rcode_total = nd_inc_u64_percpu_array m o.nd_dns_rcode_total h.cpu rcode;
      } in
          if rcode == 0
          then counted
          else nd_submit_event_no_pid m h 2 dns_rcode_error (some flow) rcode 0
              (nd_inc_dns_counter m h 2 counted))
      else o

  -- The response to a query that is pending: its latency, and the query is settled.
  unfoldable pub settle : Hook → FlowKey → DnsKey → ℕ → DnsPending → Objects m → Objects m
  settle h flow key rcode pending o =
      let latency_us = micros_since (h.ktime 0) pending.start_ns in
      let sampled =
        if ltb 0 latency_us
        then record o {
          nd_dns_latency_us_hist =
              nd_inc_u64_percpu_array m o.nd_dns_latency_us_hist h.cpu (nd_log2_bucket latency_us);
        }
        else o in
      let reported =
        if leb (nd_get_config o.nd_config).slow_dns_us latency_us
        then nd_submit_event_no_pid m h 3 slow_dns (some flow) latency_us rcode
            (nd_inc_dns_counter m h 3 sampled)
        else sampled in
      record reported { nd_dns_pending = (delete reported.nd_dns_pending key).0 }

  unfoldable pub dns_response : Hook → FlowKey → DnsKey → ℕ → Objects m → Objects m
  unfolding count_rcode settle
  dns_response h flow key rcode o =
      let counted = count_rcode h flow rcode (nd_inc_dns_counter m h 1 o) in
      elim (lookup counted.nd_dns_pending key) [
        | none ↦ counted
        | some pending ↦ settle h flow key rcode pending counted
      ]

  -- The branch on the direction of a DNS message.
  unfoldable pub account_dns :
      Hook → SkBuff → FlowKey → UdpHeader → DnsHeader → Objects m → Objects m
  unfolding dns_query dns_response
  account_dns h skb flow udp dns o =
      if not (is_response dns.flags) && (udp.dport == dns_port)
      then dns_query h (query_key skb udp dns.txid) o
      else (if is_response dns.flags && (udp.sport == dns_port)
          then dns_response h flow (response_key skb udp dns.txid) (dns_rcode dns.flags) o
          else o)

  -- Past the flow accounting: only port 53, and only with a whole DNS header.
  unfoldable pub inspect_dns : Hook → SkBuff → FlowKey → UdpHeader → Objects m → Option (Objects m)
  unfolding account_dns parse_dns
  inspect_dns h skb flow udp o =
      if not (udp.sport == dns_port) && not (udp.dport == dns_port) then some o else (do
        dns ← parse_dns skb.packet udp.payload
        some (elim dns [ none ↦ o | some header ↦ account_dns h skb flow udp header o ]))

  -- The whole hook; it always returns TC_ACT_OK. `none` is a read outside the packet.
  unfoldable pub nd_parse_ipv4_udp : Hook → SkBuff → ℕ → Objects m → Option (Objects m)
  unfolding account_udp inspect_dns parse_frame
  nd_parse_ipv4_udp h skb direction o = do
    parsed ← parse_frame skb.packet
    elim parsed [
      | none ↦ some o
      | some udp ↦
          let flow = udp_flow_key skb direction udp in
          inspect_dns h skb flow udp (account_udp h skb flow o)
    ]

  unfoldable pub nd_tc_ingress : Hook → SkBuff → Objects m → Option (Objects m)
  unfolding nd_parse_ipv4_udp
  nd_tc_ingress h skb o = nd_parse_ipv4_udp h skb nd_dir_ingress o

  unfoldable pub nd_tc_egress : Hook → SkBuff → Objects m → Option (Objects m)
  unfolding nd_parse_ipv4_udp
  nd_tc_egress h skb o = nd_parse_ipv4_udp h skb nd_dir_egress o
