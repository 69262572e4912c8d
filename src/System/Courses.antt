-- ===== src/System/Courses.antt =====
-- What a course of steps stands for in the two tables, read off the packets and the collections.
pub mod Frames
pub mod Dns
pub mod Flows
pub mod Exchange
pub mod Packets
pub mod Counting
pub mod Messages
pub mod Segments
pub mod Tasks
pub mod Connections
pub mod Waits
pub mod Lives
use networkdoctor_prestudy.Base.{
  ℕ, ◌==◌, Bool, not, ◌&&◌, Option, none, some, List, [], ◌∷◌, ◌++◌, if◌then◌else◌,
}
use networkdoctor_prestudy.Platform.{BpfMaps}
use networkdoctor_prestudy.Kernel.{Objects}
use networkdoctor_prestudy.Kernel.Helpers.{Hook}
use networkdoctor_prestudy.Kernel.Packet.{UdpHeader, DnsHeader}
use networkdoctor_prestudy.Kernel.Udp.{
  SkBuff, dns_port, is_response, query_key, response_key, udp_flow_key,
}
use networkdoctor_prestudy.Gc.{monotonic_now_ns}
use networkdoctor_prestudy.Gc.Expiry.{Lists}
use networkdoctor_prestudy.System.{
  Step, inet_sock_set_state, tcp_rcv_established, tcp_retransmit_skb, tc, sched_wakeup,
  sched_wakeup_new, sched_switch, collection, Reach, fresh, later,
}
use networkdoctor_prestudy.System.Packets.{datagram_of, message_of}
use networkdoctor_prestudy.System.DnsTable
use networkdoctor_prestudy.System.FlowTable

-- A query to port 53 is asked under its key, a response from port 53 answers the query that it is for.
abbrev pub message_ops : Hook → SkBuff → UdpHeader → Option DnsHeader → List DnsTable.Op
message_ops h skb udp none = []
message_ops h skb udp (some dns) =
    if not (is_response dns.flags) && (udp.dport == dns_port)
    then DnsTable.ask (query_key skb udp dns.txid) (h.ktime 0) ∷ []
    else (if is_response dns.flags && (udp.sport == dns_port)
        then DnsTable.answer (response_key skb udp dns.txid) ∷ []
        else [])

abbrev pub packet_dns_ops : Hook → SkBuff → Option UdpHeader → List DnsTable.Op
packet_dns_ops h skb none = []
packet_dns_ops h skb (some udp) = message_ops h skb udp (message_of skb udp)

abbrev pub packet_flow_ops : Hook → SkBuff → ℕ → Option UdpHeader → List FlowTable.Op
packet_flow_ops h skb direction none = []
packet_flow_ops h skb direction (some udp) =
    FlowTable.see (udp_flow_key skb direction udp) (h.ktime 0) skb.len ∷ []

-- A collection that finds no clock does nothing.
abbrev pub dns_expiry : Option ℕ → ℕ → List DnsTable.Op
dns_expiry none timeout = []
dns_expiry (some now) timeout = DnsTable.expire now timeout ∷ []

abbrev pub flow_expiry : Option ℕ → ℕ → List FlowTable.Op
flow_expiry none idle = []
flow_expiry (some now) idle = FlowTable.expire now idle ∷ []

module _ {m : BpfMaps} where
  abbrev pub step_dns_ops : {o o' : Objects m} → Step m o o' → List DnsTable.Op
  step_dns_ops (tc h skb direction _ _ _) = packet_dns_ops h skb (datagram_of skb)
  step_dns_ops (collection clock pending flows dns_timeout udp_idle) =
      dns_expiry (monotonic_now_ns clock) dns_timeout
  step_dns_ops _ = []

  abbrev pub step_flow_ops : {o o' : Objects m} → Step m o o' → List FlowTable.Op
  step_flow_ops (tc h skb direction _ _ _) = packet_flow_ops h skb direction (datagram_of skb)
  step_flow_ops (collection clock pending flows dns_timeout udp_idle) =
      flow_expiry (monotonic_now_ns clock) udp_idle
  step_flow_ops _ = []

  abbrev pub dns_ops : {o o' : Objects m} → Reach m o o' → List DnsTable.Op
  dns_ops fresh = []
  dns_ops (later r st) = dns_ops r ++ step_dns_ops st

  abbrev pub flow_ops : {o o' : Objects m} → Reach m o o' → List FlowTable.Op
  flow_ops fresh = []
  flow_ops (later r st) = flow_ops r ++ step_flow_ops st

  -- The iterators of each collection yield the bindings of the two maps as it finds them.
  abbrev pub StepIterates : {o o' : Objects m} → Step m o o' → Type 0
  StepIterates {o} (collection clock pending flows dns_timeout udp_idle) =
      Lists m o.nd_dns_pending pending × Lists m o.nd_udp_flows flows
  StepIterates _ = Unit

  abbrev pub Iterates : {o o' : Objects m} → Reach m o o' → Type 0
  Iterates fresh = Unit
  Iterates (later r st) = Iterates r × StepIterates st
