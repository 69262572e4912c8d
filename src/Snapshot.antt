-- ===== src/Snapshot.antt =====
-- internal/bpf/reader.go: what a scrape reads from the per-CPU maps. `num_cpu` is runtime.NumCPU();
-- a failed read is logged there and yields zero values.
pub mod Sums
pub mod Fields
pub mod Counters
pub mod Counts
pub mod Totals
use networkdoctor_prestudy.Base.{
  ℕ, zero, suc, ◌+◌, ◌^◌, Option, none, some, List, [], ◌∷◌, map, foldl, u64, range_from, replicate,
}
use networkdoctor_prestudy.Platform.{BpfMaps}
use networkdoctor_prestudy.Histogram.{hist_buckets}
use networkdoctor_prestudy.Kernel.{Objects, TcpCounters, DnsCounters, UdpCounters}
use networkdoctor_prestudy.Model.{
  Snapshot, TcpMetrics, DnsMetrics, UdpMetrics, TcpStateMetrics, Histograms, zero_tcp, zero_dns,
  zero_udp,
}

abbrev pub tcp_established : ℕ
tcp_established = 1

abbrev pub tcp_time_wait : ℕ
tcp_time_wait = 6

unfoldable pub add_tcp : TcpMetrics → TcpCounters → TcpMetrics
add_tcp total v = record {
  closed_total = u64 (total.closed_total + v.closed_total);
  short_lived_total = u64 (total.short_lived_total + v.short_lived_total);
  connect_attempt_total = u64 (total.connect_attempt_total + v.connect_attempt_total);
  connect_failed_total = u64 (total.connect_failed_total + v.connect_failed_total);
  retrans_total = u64 (total.retrans_total + v.retrans_total);
  retrans_burst_total = u64 (total.retrans_burst_total + v.retrans_burst_total);
  rtt_sample_total = u64 (total.rtt_sample_total + v.rtt_sample_total);
  cwnd_sample_total = u64 (total.cwnd_sample_total + v.cwnd_sample_total);
}

unfoldable pub add_dns : DnsMetrics → DnsCounters → DnsMetrics
add_dns total v = record total {
  query_total = u64 (total.query_total + v.query_total);
  response_total = u64 (total.response_total + v.response_total);
  rcode_error_total = u64 (total.rcode_error_total + v.rcode_error_total);
  slow_total = u64 (total.slow_total + v.slow_total);
}

unfoldable pub add_udp : UdpMetrics → UdpCounters → UdpMetrics
add_udp total v = record {
  packet_total = u64 (total.packet_total + v.packet_total);
  long_flow_total = u64 (total.long_flow_total + v.long_flow_total);
}

-- `for _, v := range values { total += v }`, the same on uint64 and on int64 bit patterns.
pub add_all : ℕ → List ℕ → ℕ
add_all total [] = total
add_all total (v ∷ values) = add_all (u64 (total + v)) values

module _ (m : BpfMaps) (num_cpu : ℕ) where
  open m use {PerCpu, read}

  unfoldable pub lookup_per_cpu : {V : Type 0} → PerCpu V → ℕ → Option (List V)
  lookup_per_cpu a key = elim (read a key (some num_cpu)) [
    | some values ↦ some values
    | none ↦ read a key none
  ]

  unfoldable pub sum_u64_per_cpu : PerCpu ℕ → ℕ → ℕ
  unfolding lookup_per_cpu add_all
  sum_u64_per_cpu a key = elim (lookup_per_cpu a key) [ none ↦ 0 | some values ↦ add_all 0 values ]

  unfoldable pub sum_tcp_state : PerCpu ℕ → ℕ → ℕ
  unfolding lookup_per_cpu add_all
  sum_tcp_state a state = elim (lookup_per_cpu a state) [
    | none ↦ 0
    | some values ↦ add_all 0 values
  ]

  unfoldable pub sum_tcp_state_metrics : PerCpu ℕ → TcpStateMetrics
  unfolding sum_tcp_state
  sum_tcp_state_metrics a = record {
    established = sum_tcp_state a tcp_established;
    time_wait = sum_tcp_state a tcp_time_wait;
  }

  unfoldable pub sum_tcp_counters : PerCpu TcpCounters → TcpMetrics
  unfolding lookup_per_cpu add_tcp
  sum_tcp_counters a = elim (lookup_per_cpu a 0) [
    | none ↦ zero_tcp
    | some values ↦ foldl add_tcp zero_tcp values
  ]

  unfoldable pub sum_dns_counters : PerCpu DnsCounters → DnsMetrics
  unfolding lookup_per_cpu add_dns
  sum_dns_counters a = elim (lookup_per_cpu a 0) [
    | none ↦ zero_dns
    | some values ↦ foldl add_dns zero_dns values
  ]

  unfoldable pub sum_udp_counters : PerCpu UdpCounters → UdpMetrics
  unfolding lookup_per_cpu add_udp
  sum_udp_counters a = elim (lookup_per_cpu a 0) [
    | none ↦ zero_udp
    | some values ↦ foldl add_udp zero_udp values
  ]

  unfoldable pub sum_histogram : PerCpu ℕ → List ℕ
  unfolding sum_u64_per_cpu
  sum_histogram a = map (sum_u64_per_cpu a) (range_from 0 hist_buckets)

  -- (*Runtime).Snapshot.
  unfoldable pub snapshot : Objects m → Snapshot
  unfolding sum_dns_counters sum_u64_per_cpu sum_tcp_counters sum_udp_counters sum_tcp_state_metrics
      sum_histogram
  snapshot o = record {
    tcp = sum_tcp_counters o.nd_tcp_counters;
    dns = record (sum_dns_counters o.nd_dns_counters) {
      rcode_total = map (sum_u64_per_cpu o.nd_dns_rcode_total) (range_from 0 16);
    };
    udp = sum_udp_counters o.nd_udp_counters;
    tcp_state = sum_tcp_state_metrics o.nd_tcp_state_delta;
    hist = record {
      tcp_srtt_us = sum_histogram o.nd_tcp_srtt_us_hist;
      tcp_cwnd = sum_histogram o.nd_tcp_cwnd_hist;
      dns_latency_us = sum_histogram o.nd_dns_latency_us_hist;
      runqlat_us = sum_histogram o.nd_runqlat_us_hist;
      udp_duration_us = sum_histogram o.nd_udp_duration_us_hist;
    };
  }
