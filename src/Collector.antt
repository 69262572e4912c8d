-- ===== src/Collector.antt =====
-- internal/metrics/collector.go: the descriptors, and what one scrape sends.
pub mod Samples
use Prim.Native.String.{String}
use networkdoctor_prestudy.Base.{
  ℕ, zero, suc, ◌+◌, Option, none, some, List, [], ◌∷◌, ◌++◌, map, get_or, range_from,
}
use networkdoctor_prestudy.Platform.{Float64}
use networkdoctor_prestudy.Histogram.{HistogramSample, emit_log2_histogram}
use networkdoctor_prestudy.Model.{Snapshot}

-- The descriptor fields of networkDoctorCollector.
pub data Desc : Type 0 where
  tcp_active tcp_time_wait tcp_closed tcp_connect_failed tcp_short_lived tcp_connect_attempts : Desc
  tcp_retrans tcp_retrans_burst tcp_rtt_samples tcp_cwnd_samples : Desc
  dns_queries dns_responses dns_rcode_errors dns_slow dns_rcode : Desc
  udp_packets udp_long_flows : Desc
  tcp_srtt_hist tcp_cwnd_hist dns_latency_hist runqlat_hist udp_duration_hist : Desc

-- The metric names that newNetworkDoctorCollector gives them.
unfoldable pub fq_name : Desc → String
fq_name tcp_active = "ebpf_tcp_connections_active"
fq_name tcp_time_wait = "ebpf_tcp_connections_time_wait"
fq_name tcp_closed = "ebpf_tcp_connections_closed_total"
fq_name tcp_connect_failed = "ebpf_tcp_connect_failed_total"
fq_name tcp_short_lived = "ebpf_tcp_connections_short_lived_total"
fq_name tcp_connect_attempts = "ebpf_tcp_connect_attempts_total"
fq_name tcp_retrans = "ebpf_tcp_retransmits_total"
fq_name tcp_retrans_burst = "ebpf_tcp_retransmit_bursts_total"
fq_name tcp_rtt_samples = "ebpf_tcp_rtt_samples_total"
fq_name tcp_cwnd_samples = "ebpf_tcp_cwnd_samples_total"
fq_name dns_queries = "ebpf_dns_queries_total"
fq_name dns_responses = "ebpf_dns_responses_total"
fq_name dns_rcode_errors = "ebpf_dns_rcode_errors_total"
fq_name dns_slow = "ebpf_dns_slow_total"
fq_name dns_rcode = "ebpf_dns_rcode_total"
fq_name udp_packets = "ebpf_udp_packets_total"
fq_name udp_long_flows = "ebpf_udp_long_flows_total"
fq_name tcp_srtt_hist = "ebpf_tcp_srtt_microseconds"
fq_name tcp_cwnd_hist = "ebpf_tcp_cwnd"
fq_name dns_latency_hist = "ebpf_dns_query_latency"
fq_name runqlat_hist = "ebpf_runqlat"
fq_name udp_duration_hist = "ebpf_udp_session_duration"

-- The variable label names of a descriptor.
unfoldable pub label_names : Desc → List String
label_names dns_rcode = "rcode" ∷ []
label_names _ = []

-- What Describe sends, in order.
unfoldable pub describe : List Desc
describe =
    tcp_active ∷ tcp_time_wait ∷ tcp_closed ∷ tcp_connect_failed ∷ tcp_short_lived
    ∷ tcp_connect_attempts ∷ tcp_retrans ∷ tcp_retrans_burst ∷ tcp_rtt_samples ∷ tcp_cwnd_samples
    ∷ dns_queries ∷ dns_responses ∷ dns_rcode_errors ∷ dns_slow ∷ dns_rcode ∷ udp_packets
    ∷ udp_long_flows ∷ tcp_srtt_hist ∷ tcp_cwnd_hist ∷ dns_latency_hist ∷ runqlat_hist
    ∷ udp_duration_hist ∷ []

pub data ValueType : Type 0 where
  gauge counter : ValueType

module _ (f : Float64) where
  open f use {F, of_u64, of_i64}

  -- MustNewConstMetric, with the number that fmt.Sprint renders for a label, and
  -- MustNewConstHistogram.
  pub data Metric : Type 0 where
    const_metric : Desc → ValueType → F → List ℕ → Metric
    const_histogram : Desc → HistogramSample f → Metric

  abbrev total : Desc → ℕ → Metric
  total d v = const_metric d counter (of_u64 v) []

  unfoldable pub collect_rcode_counters : Desc → List ℕ → List Metric
  collect_rcode_counters d totals =
      map (λ rcode. const_metric d counter (of_u64 (get_or totals rcode 0)) (rcode ∷ []))
        (range_from 0 16)

  -- What Collect sends for a snapshot, in order.
  unfoldable pub collect : Snapshot → List Metric
  unfolding collect_rcode_counters
  collect snap =
      const_metric tcp_active gauge (of_i64 snap.tcp_state.established) []
      ∷ const_metric tcp_time_wait gauge (of_i64 snap.tcp_state.time_wait) []
      ∷ total tcp_closed snap.tcp.closed_total
      ∷ total tcp_connect_failed snap.tcp.connect_failed_total
      ∷ total tcp_short_lived snap.tcp.short_lived_total
      ∷ total tcp_connect_attempts snap.tcp.connect_attempt_total
      ∷ total tcp_retrans snap.tcp.retrans_total
      ∷ total tcp_retrans_burst snap.tcp.retrans_burst_total
      ∷ total tcp_rtt_samples snap.tcp.rtt_sample_total
      ∷ total tcp_cwnd_samples snap.tcp.cwnd_sample_total
      ∷ total dns_queries snap.dns.query_total
      ∷ total dns_responses snap.dns.response_total
      ∷ total dns_rcode_errors snap.dns.rcode_error_total
      ∷ total dns_slow snap.dns.slow_total
      ∷ total udp_packets snap.udp.packet_total
      ∷ total udp_long_flows snap.udp.long_flow_total
      ∷ (collect_rcode_counters dns_rcode snap.dns.rcode_total
          ++ (const_histogram tcp_srtt_hist (emit_log2_histogram f snap.hist.tcp_srtt_us)
              ∷ const_histogram tcp_cwnd_hist (emit_log2_histogram f snap.hist.tcp_cwnd)
              ∷ const_histogram dns_latency_hist (emit_log2_histogram f snap.hist.dns_latency_us)
              ∷ const_histogram runqlat_hist (emit_log2_histogram f snap.hist.runqlat_us)
              ∷ const_histogram udp_duration_hist (emit_log2_histogram f snap.hist.udp_duration_us)
              ∷ []))
