-- ===== src/Model.antt =====
-- internal/model/types.go: the values of one scrape. uint64 and int64 fields are numbers below
-- 2 ^ 64, an int64 by its bit pattern; a Go array is a list of its length.
use networkdoctor_prestudy.Base.{ℕ, List, replicate}

pub record TcpMetrics : Type 0 where
  pub closed_total : ℕ
  pub short_lived_total : ℕ
  pub connect_attempt_total : ℕ
  pub connect_failed_total : ℕ
  pub retrans_total : ℕ
  pub retrans_burst_total : ℕ
  pub rtt_sample_total : ℕ
  pub cwnd_sample_total : ℕ

pub record DnsMetrics : Type 0 where
  pub query_total : ℕ
  pub response_total : ℕ
  pub rcode_error_total : ℕ
  pub slow_total : ℕ
  pub rcode_total : List ℕ  -- 16 of them

pub record UdpMetrics : Type 0 where
  pub packet_total : ℕ
  pub long_flow_total : ℕ

pub record TcpStateMetrics : Type 0 where
  pub established : ℕ
  pub time_wait : ℕ

pub record Histograms : Type 0 where
  pub tcp_srtt_us : List ℕ
  pub tcp_cwnd : List ℕ
  pub dns_latency_us : List ℕ
  pub runqlat_us : List ℕ
  pub udp_duration_us : List ℕ

pub record Snapshot : Type 0 where
  pub tcp : TcpMetrics
  pub dns : DnsMetrics
  pub udp : UdpMetrics
  pub tcp_state : TcpStateMetrics
  pub hist : Histograms

pub record GcStats : Type 0 where
  pub dns_pending_deleted : ℕ
  pub udp_flows_deleted : ℕ

-- The zero values that Go's declarations start from.
abbrev pub zero_tcp : TcpMetrics
zero_tcp = record {
  closed_total = 0;
  short_lived_total = 0;
  connect_attempt_total = 0;
  connect_failed_total = 0;
  retrans_total = 0;
  retrans_burst_total = 0;
  rtt_sample_total = 0;
  cwnd_sample_total = 0;
}

abbrev pub zero_dns : DnsMetrics
zero_dns = record {
  query_total = 0;
  response_total = 0;
  rcode_error_total = 0;
  slow_total = 0;
  rcode_total = replicate 16 0;
}

abbrev pub zero_udp : UdpMetrics
zero_udp = record { packet_total = 0; long_flow_total = 0 }
