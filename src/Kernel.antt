-- ===== src/Kernel.antt =====
-- bpf/networkdoctor.bpf.c: the structs, the maps and the helpers that the hooks share.
-- A hook runs on one CPU as one step; the clock, the task and the room in the ring buffer are
-- its surroundings. The network byte order of the sock fields is undone by `ntohs`.
pub mod Helpers
pub mod Update
pub mod Sched
pub mod Tcp
pub mod Packet
pub mod Udp
use networkdoctor_prestudy.Base.{
  ℕ, ◌+◌, ◌*◌, ◌/◌, ◌%◌, ◌^◌, ◌≡◌, Bool, Option, none, some, List, [], ◌∷◌, u64, u16, ltb, ◌==◌,
  if◌then◌else◌, ℕ_discrete,
}
use networkdoctor_prestudy.Platform.{BpfMaps}

pub record NdConfig : Type 0 where
  pub slow_tcp_rtt_us : ℕ
  pub short_tcp_conn_us : ℕ
  pub slow_dns_us : ℕ
  pub long_udp_flow_us : ℕ
  pub high_runqlat_us : ℕ
  pub retrans_burst_window_ns : ℕ
  pub event_cooldown_ns : ℕ
  pub retrans_burst_count : ℕ
  pub cwnd_drop_percent : ℕ

pub record FlowKey : Type 0 where
  pub ifindex : ℕ
  pub src_ip : ℕ
  pub dst_ip : ℕ
  pub src_port : ℕ
  pub dst_port : ℕ
  pub proto : ℕ
  pub direction : ℕ
  pub pad : ℕ

pub record TcpCounters : Type 0 where
  pub closed_total : ℕ
  pub short_lived_total : ℕ
  pub connect_attempt_total : ℕ
  pub connect_failed_total : ℕ
  pub retrans_total : ℕ
  pub retrans_burst_total : ℕ
  pub rtt_sample_total : ℕ
  pub cwnd_sample_total : ℕ

pub record DnsCounters : Type 0 where
  pub query_total : ℕ
  pub response_total : ℕ
  pub rcode_error_total : ℕ
  pub slow_total : ℕ

pub record UdpCounters : Type 0 where
  pub packet_total : ℕ
  pub long_flow_total : ℕ

pub record TcpConnLife : Type 0 where
  pub start_ns : ℕ
  pub last_ns : ℕ
  pub src_ip : ℕ
  pub dst_ip : ℕ
  pub src_port : ℕ
  pub dst_port : ℕ
  pub initial_state : ℕ
  pub last_state : ℕ
  pub pad : ℕ

pub record TcpFlow : Type 0 where
  pub last_seen_ns : ℕ
  pub last_rtt_event_ns : ℕ
  pub last_cwnd_event_ns : ℕ
  pub srtt_us : ℕ
  pub cwnd : ℕ
  pub prev_cwnd : ℕ
  pub retrans_count : ℕ

pub record Retrans : Type 0 where
  pub first_seen_ns : ℕ
  pub last_seen_ns : ℕ
  pub count : ℕ
  pub last_event_ns : ℕ

pub record DnsKey : Type 0 where
  pub ifindex : ℕ
  pub client_ip : ℕ
  pub server_ip : ℕ
  pub client_port : ℕ
  pub server_port : ℕ
  pub txid : ℕ
  pub pad : ℕ

pub record DnsPending : Type 0 where
  pub start_ns : ℕ

pub record UdpFlow : Type 0 where
  pub first_seen_ns : ℕ
  pub last_seen_ns : ℕ
  pub last_event_ns : ℕ
  pub packets : ℕ
  pub bytes : ℕ

pub record NdEvent : Type 0 where
  pub type : ℕ
  pub pid : ℕ
  pub ts_ns : ℕ
  pub ifindex : ℕ
  pub src_ip : ℕ
  pub dst_ip : ℕ
  pub src_port : ℕ
  pub dst_port : ℕ
  pub value_us : ℕ
  pub aux : ℕ

pub FlowKey-discrete : Discrete FlowKey
FlowKey-discrete = hlevel ℕ_discrete

pub DnsKey-discrete : Discrete DnsKey
DnsKey-discrete = hlevel ℕ_discrete

-- The maps of the object. A ring buffer is the list of its submitted events, the newest first.
pub record Objects (m : BpfMaps) : Type 0 where
  pub nd_config : Option NdConfig
  pub nd_tcp_counters : m.PerCpu TcpCounters
  pub nd_dns_counters : m.PerCpu DnsCounters
  pub nd_udp_counters : m.PerCpu UdpCounters
  pub nd_tcp_state_delta : m.PerCpu ℕ
  pub nd_tcp_conn_life : m.Hash ℕ ℕ_discrete TcpConnLife
  pub nd_tcp_flow_latest : m.Hash FlowKey FlowKey-discrete TcpFlow
  pub nd_tcp_srtt_us_hist : m.PerCpu ℕ
  pub nd_tcp_cwnd_hist : m.PerCpu ℕ
  pub nd_tcp_retrans_by_flow : m.Hash FlowKey FlowKey-discrete Retrans
  pub nd_dns_pending : m.Hash DnsKey DnsKey-discrete DnsPending
  pub nd_dns_latency_us_hist : m.PerCpu ℕ
  pub nd_dns_rcode_total : m.PerCpu ℕ
  pub nd_udp_flows : m.Hash FlowKey FlowKey-discrete UdpFlow
  pub nd_udp_duration_us_hist : m.PerCpu ℕ
  pub nd_runq_start : m.Hash ℕ ℕ_discrete ℕ
  pub nd_runqlat_us_hist : m.PerCpu ℕ
  pub nd_events : List NdEvent
