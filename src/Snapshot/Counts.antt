-- ===== src/Snapshot/Counts.antt =====
-- The fields of the counters by number, and what one CPU's struct and one increment do to each.
use networkdoctor_prestudy.Base.{ℕ, zero, suc, ◌+◌, ◌<◌, ◌≡◌, refl, arith, List, u64, ◌==◌}
use networkdoctor_prestudy.Kernel.{TcpCounters, DnsCounters, UdpCounters}
use networkdoctor_prestudy.Kernel.Helpers.{bump_tcp, bump_dns, bump_udp}
use networkdoctor_prestudy.Model.{TcpMetrics, DnsMetrics, UdpMetrics, zero_tcp, zero_dns, zero_udp}
use networkdoctor_prestudy.Snapshot.{add_tcp, add_dns, add_udp}
use networkdoctor_prestudy.Snapshot.Fields.{one_more}

-- The fields by the numbers that the hooks give them, in the kernel's struct and in the scrape.
abbrev pub tcp_count : ℕ → TcpCounters → ℕ
tcp_count zero c = c.closed_total
tcp_count (suc zero) c = c.short_lived_total
tcp_count (suc (suc zero)) c = c.connect_attempt_total
tcp_count (suc (suc (suc zero))) c = c.connect_failed_total
tcp_count (suc (suc (suc (suc zero)))) c = c.retrans_total
tcp_count (suc (suc (suc (suc (suc zero))))) c = c.retrans_burst_total
tcp_count (suc (suc (suc (suc (suc (suc zero)))))) c = c.rtt_sample_total
tcp_count (suc (suc (suc (suc (suc (suc (suc j))))))) c = c.cwnd_sample_total

abbrev pub tcp_total : ℕ → TcpMetrics → ℕ
tcp_total zero t = t.closed_total
tcp_total (suc zero) t = t.short_lived_total
tcp_total (suc (suc zero)) t = t.connect_attempt_total
tcp_total (suc (suc (suc zero))) t = t.connect_failed_total
tcp_total (suc (suc (suc (suc zero)))) t = t.retrans_total
tcp_total (suc (suc (suc (suc (suc zero))))) t = t.retrans_burst_total
tcp_total (suc (suc (suc (suc (suc (suc zero)))))) t = t.rtt_sample_total
tcp_total (suc (suc (suc (suc (suc (suc (suc j))))))) t = t.cwnd_sample_total

abbrev pub dns_count : ℕ → DnsCounters → ℕ
dns_count zero c = c.query_total
dns_count (suc zero) c = c.response_total
dns_count (suc (suc zero)) c = c.rcode_error_total
dns_count (suc (suc (suc j))) c = c.slow_total

abbrev pub dns_total : ℕ → DnsMetrics → ℕ
dns_total zero t = t.query_total
dns_total (suc zero) t = t.response_total
dns_total (suc (suc zero)) t = t.rcode_error_total
dns_total (suc (suc (suc j))) t = t.slow_total

pub tcp_adds :
    (j : ℕ) (t : TcpMetrics) (v : TcpCounters)
    → tcp_total j (add_tcp t v) ≡ u64 (tcp_total j t + tcp_count j v)
unfolding add_tcp
tcp_adds zero t v = refl
tcp_adds (suc zero) t v = refl
tcp_adds (suc (suc zero)) t v = refl
tcp_adds (suc (suc (suc zero))) t v = refl
tcp_adds (suc (suc (suc (suc zero)))) t v = refl
tcp_adds (suc (suc (suc (suc (suc zero))))) t v = refl
tcp_adds (suc (suc (suc (suc (suc (suc zero)))))) t v = refl
tcp_adds (suc (suc (suc (suc (suc (suc (suc j))))))) t v = refl

pub dns_adds :
    (j : ℕ) (t : DnsMetrics) (v : DnsCounters)
    → dns_total j (add_dns t v) ≡ u64 (dns_total j t + dns_count j v)
unfolding add_dns
dns_adds zero t v = refl
dns_adds (suc zero) t v = refl
dns_adds (suc (suc zero)) t v = refl
dns_adds (suc (suc (suc j))) t v = refl

pub tcp_bump :
    (j k : ℕ) (v : TcpCounters)
    → j < 8
    → tcp_count j (bump_tcp k v) ≡ one_more (k == j) (tcp_count j v)
unfolding bump_tcp
tcp_bump zero k v h = ground arith
tcp_bump (suc zero) k v h = ground arith
tcp_bump (suc (suc zero)) k v h = ground arith
tcp_bump (suc (suc (suc zero))) k v h = ground arith
tcp_bump (suc (suc (suc (suc zero)))) k v h = ground arith
tcp_bump (suc (suc (suc (suc (suc zero))))) k v h = ground arith
tcp_bump (suc (suc (suc (suc (suc (suc zero)))))) k v h = ground arith
tcp_bump (suc (suc (suc (suc (suc (suc (suc j))))))) k v h = ground arith

pub dns_bump :
    (j k : ℕ) (v : DnsCounters)
    → j < 4
    → dns_count j (bump_dns k v) ≡ one_more (k == j) (dns_count j v)
unfolding bump_dns
dns_bump zero k v h = ground arith
dns_bump (suc zero) k v h = ground arith
dns_bump (suc (suc zero)) k v h = ground arith
dns_bump (suc (suc (suc j))) k v h = ground arith

pub tcp_zero : (j : ℕ) → tcp_total j zero_tcp ≡ 0
tcp_zero j = ground arith

pub dns_zero : (j : ℕ) → dns_total j zero_dns ≡ 0
dns_zero j = ground arith

pub dns_total-rcodes :
    (j : ℕ) (t : DnsMetrics) (r : List ℕ)
    → dns_total j (record t { rcode_total = r }) ≡ dns_total j t
dns_total-rcodes zero t r = refl
dns_total-rcodes (suc zero) t r = refl
dns_total-rcodes (suc (suc zero)) t r = refl
dns_total-rcodes (suc (suc (suc j))) t r = refl

abbrev pub udp_count : ℕ → UdpCounters → ℕ
udp_count zero c = c.packet_total
udp_count (suc j) c = c.long_flow_total

abbrev pub udp_total : ℕ → UdpMetrics → ℕ
udp_total zero t = t.packet_total
udp_total (suc j) t = t.long_flow_total

pub udp_adds :
    (j : ℕ) (t : UdpMetrics) (v : UdpCounters)
    → udp_total j (add_udp t v) ≡ u64 (udp_total j t + udp_count j v)
unfolding add_udp
udp_adds zero t v = refl
udp_adds (suc j) t v = refl

pub udp_bump :
    (j k : ℕ) (v : UdpCounters)
    → j < 2
    → udp_count j (bump_udp k v) ≡ one_more (k == j) (udp_count j v)
unfolding bump_udp
udp_bump zero k v h = ground arith
udp_bump (suc j) k v h = ground arith

pub udp_zero : (j : ℕ) → udp_total j zero_udp ≡ 0
udp_zero j = ground arith
