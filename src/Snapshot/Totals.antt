-- ===== src/Snapshot/Totals.antt =====
-- The TCP, DNS and UDP counters: each increment by a hook shows in the next scrape, in its field alone.
use networkdoctor_prestudy.Base.{ℕ, ◌<◌, ◌≡◌, sym, ap, ◌∙◌, some, List, get_elem?-lt, length, ◌==◌}
use networkdoctor_prestudy.Platform.{BpfMaps, MapLaws}
use networkdoctor_prestudy.Kernel.{Objects, TcpCounters, DnsCounters, UdpCounters}
use networkdoctor_prestudy.Kernel.Helpers.{Hook, bump_tcp, bump_dns, bump_udp}
use networkdoctor_prestudy.Kernel.Update.{
  nd_inc_tcp_counter, nd_inc_dns_counter, nd_inc_udp_counter,
}
use networkdoctor_prestudy.Model.{zero_tcp, zero_dns, zero_udp}
use networkdoctor_prestudy.Snapshot.{
  add_tcp, add_dns, add_udp, snapshot, lookup_per_cpu, sum_tcp_counters, sum_dns_counters,
  sum_udp_counters,
}
use networkdoctor_prestudy.Snapshot.Fields.{one_more, fold-one_more}
use networkdoctor_prestudy.Snapshot.Sums.{lookup_per_cpu-modify}
use networkdoctor_prestudy.Snapshot.Counts.{
  tcp_count, tcp_total, dns_count, dns_total, tcp_adds, dns_adds, tcp_bump, dns_bump, tcp_zero,
  dns_zero, dns_total-rcodes, udp_count, udp_total, udp_adds, udp_bump, udp_zero,
}

module _ (m : BpfMaps) (laws : MapLaws m) (num_cpu : ℕ) where
  pub tcp-inc :
      (h : Hook) (k i : ℕ) (o : Objects m) (ts : List TcpCounters)
      → i < 8
      → lookup_per_cpu m num_cpu o.nd_tcp_counters 0 ≡ some ts
      → h.cpu < length ts
      → tcp_total i (sum_tcp_counters m num_cpu (nd_inc_tcp_counter m h k o).nd_tcp_counters)
        ≡ one_more (k == i) (tcp_total i (sum_tcp_counters m num_cpu o.nd_tcp_counters))
  unfolding sum_tcp_counters nd_inc_tcp_counter
  tcp-inc h k i o ts hi et ht =
      let (old, g) = get_elem?-lt ts h.cpu ht in
      rw
        (
          sum_tcp_counters,
          et,
          lookup_per_cpu-modify m laws num_cpu o.nd_tcp_counters h.cpu 0 (bump_tcp k) ts old et g,
        )
        (fold-one_more add_tcp (tcp_total i) (tcp_count i) (tcp_adds i) zero_tcp ts h.cpu old
          (bump_tcp k old) (k == i) (tcp_zero i) g (tcp_bump i k old hi))

  pub dns-inc :
      (h : Hook) (k j : ℕ) (o : Objects m) (ds : List DnsCounters)
      → j < 4
      → lookup_per_cpu m num_cpu o.nd_dns_counters 0 ≡ some ds
      → h.cpu < length ds
      → dns_total j (sum_dns_counters m num_cpu (nd_inc_dns_counter m h k o).nd_dns_counters)
        ≡ one_more (k == j) (dns_total j (sum_dns_counters m num_cpu o.nd_dns_counters))
  unfolding sum_dns_counters nd_inc_dns_counter
  dns-inc h k j o ds hj ed hd =
      let (old, g) = get_elem?-lt ds h.cpu hd in
      rw
        (
          sum_dns_counters,
          ed,
          lookup_per_cpu-modify m laws num_cpu o.nd_dns_counters h.cpu 0 (bump_dns k) ds old ed g,
        )
        (fold-one_more add_dns (dns_total j) (dns_count j) (dns_adds j) zero_dns ds h.cpu old
          (bump_dns k old) (k == j) (dns_zero j) g (dns_bump j k old hj))

  udp-inc :
      (h : Hook) (k j : ℕ) (o : Objects m) (us : List UdpCounters)
      → j < 2
      → lookup_per_cpu m num_cpu o.nd_udp_counters 0 ≡ some us
      → h.cpu < length us
      → udp_total j (sum_udp_counters m num_cpu (nd_inc_udp_counter m h k o).nd_udp_counters)
        ≡ one_more (k == j) (udp_total j (sum_udp_counters m num_cpu o.nd_udp_counters))
  unfolding sum_udp_counters nd_inc_udp_counter
  udp-inc h k j o us hj eu hu =
      let (old, g) = get_elem?-lt us h.cpu hu in
      rw
        (
          sum_udp_counters,
          eu,
          lookup_per_cpu-modify m laws num_cpu o.nd_udp_counters h.cpu 0 (bump_udp k) us old eu g,
        )
        (fold-one_more add_udp (udp_total j) (udp_count j) (udp_adds j) zero_udp us h.cpu old
          (bump_udp k old) (k == j) (udp_zero j) g (udp_bump j k old hj))

  -- When a hook counts in field k of the TCP, the DNS or the UDP counters, on a CPU whose slot user
  -- space sees, the next scrape's field of the same counters is one more, modulo 2 ^ 64, if it is the
  -- k-th, and the same as before if not, for each of the eight TCP, four DNS and two UDP fields.
  pub inc-scraped :
      (h : Hook) (k i j l : ℕ) (o : Objects m) (ts : List TcpCounters) (ds : List DnsCounters)
      (us : List UdpCounters)
      → i < 8
      → j < 4
      → l < 2
      → lookup_per_cpu m num_cpu o.nd_tcp_counters 0 ≡ some ts
      → lookup_per_cpu m num_cpu o.nd_dns_counters 0 ≡ some ds
      → lookup_per_cpu m num_cpu o.nd_udp_counters 0 ≡ some us
      → h.cpu < length ts
      → h.cpu < length ds
      → h.cpu < length us
      → (tcp_total i (snapshot m num_cpu (nd_inc_tcp_counter m h k o)).tcp
          ≡ one_more (k == i) (tcp_total i (snapshot m num_cpu o).tcp))
        × (dns_total j (snapshot m num_cpu (nd_inc_dns_counter m h k o)).dns
            ≡ one_more (k == j) (dns_total j (snapshot m num_cpu o).dns))
        × (udp_total l (snapshot m num_cpu (nd_inc_udp_counter m h k o)).udp
            ≡ one_more (k == l) (udp_total l (snapshot m num_cpu o).udp))
  unfolding snapshot
  inc-scraped h k i j l o ts ds us hi hj hl et ed eu ht hd hu =
      let o' = nd_inc_dns_counter m h k o in
      let rcodes = λ (s : Objects m). (snapshot m num_cpu s).dns.rcode_total in
      (
        tcp-inc h k i o ts hi et ht,
        dns_total-rcodes j (sum_dns_counters m num_cpu o'.nd_dns_counters) (rcodes o')
            ∙ dns-inc h k j o ds hj ed hd
            ∙ ap (one_more (k == j)) (
                sym (dns_total-rcodes j (sum_dns_counters m num_cpu o.nd_dns_counters) (rcodes o))),
        udp-inc h k l o us hl eu hu,
      )
