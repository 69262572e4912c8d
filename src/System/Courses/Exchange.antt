-- ===== src/System/Courses/Exchange.antt =====
-- A DNS exchange with anything else between the query and its response.
use networkdoctor_prestudy.Base.{
  ℕ, ◌≡◌, ◌≢◌, refl, sym, ap, ◌∙◌, arith, true, false, Option, none, some, List, All,
}
use mathlib.Core.Option
use mathlib.Core.Option.{some-injective}
use networkdoctor_prestudy.Platform.{BpfMaps, MapLaws, NeverFull, lookup-delete_gone}
use networkdoctor_prestudy.Kernel.{Objects, DnsKey, DnsKey-discrete, DnsPending}
use networkdoctor_prestudy.Kernel.Helpers.{Hook}
use networkdoctor_prestudy.Kernel.Packet.{DnsHeader}
use networkdoctor_prestudy.Kernel.Packet.Datagram.{Datagram, header_of}
use networkdoctor_prestudy.Kernel.Udp.{
  nd_dir_ingress, nd_dir_egress, dns_port, is_response, micros_since, query_key, nd_tc_ingress,
  nd_tc_egress,
}
use networkdoctor_prestudy.Kernel.Udp.Dns.{sampled}
use networkdoctor_prestudy.Kernel.Udp.Exchange.{
  Carries, received, GoesBack, answered_key, query_sent, response_came,
}
use networkdoctor_prestudy.Gc.Expiry.{is_fresh, retain}
use networkdoctor_prestudy.System.{Reach}
use networkdoctor_prestudy.System.Table.{replays-keep, set_at-other}
use networkdoctor_prestudy.System.DnsTable.{Table, Op, ask, answer, expire, apply, replay, table}
use networkdoctor_prestudy.System.Courses.{dns_ops, Iterates}
use networkdoctor_prestudy.System.Courses.Dns.{Reach-dns_table}

-- An operation that leaves a query of some start open.
abbrev pub Spares : DnsKey → ℕ → Op → Type 0
Spares key start (ask k now) = k ≢ key
Spares key start (answer k) = k ≢ key
Spares key start (expire now timeout) = is_fresh now timeout start ≡ true

apply-Spares :
    (key : DnsKey) (start : ℕ) (op : Op) (t : Table)
    → Spares key start op
    → t key ≡ some start
    → apply op t key ≡ some start
apply-Spares key start (ask k now) t ne e = set_at-other DnsKey-discrete t k key (some now) ne ∙ e
apply-Spares key start (answer k) t ne e = set_at-other DnsKey-discrete t k key none ne ∙ e
apply-Spares key start (expire now timeout) t young e = rw (e, retain, young) refl

replay-Spares :
    (key : DnsKey) (start : ℕ) (ops : List Op) (t : Table)
    → All (Spares key start) ops
    → t key ≡ some start
    → replay ops t key ≡ some start
replay-Spares key start =
    replays-keep apply (Spares key start) (λ t. t key ≡ some start) (apply-Spares key start)

pending_of :
    (x : Option DnsPending) (start : ℕ)
    → Option.map (λ (v : DnsPending). v.start_ns) x ≡ some start
    → x ≡ some (record { start_ns = start })
pending_of none start e = ground (arith, e)
pending_of (some v) start e = ap (λ (s : ℕ). some (record { start_ns = s })) (some-injective _ _ e)

module _ (m : BpfMaps) (laws : MapLaws m)
    (full : NeverFull m DnsKey DnsKey-discrete DnsPending) where
  -- From the bytes on: a DNS query in a datagram to port 53 leaves an interface; then comes any course
  -- of hooks and collections in which no message asks or answers under the key of the query and no
  -- collection finds it older than its timeout; then a response with its id in a datagram that goes
  -- back the way of the first comes in. If the map of pending queries is never full and the iterators
  -- yield its bindings, the hook for the response comes to its end, adds to the latency histogram one
  -- sample, in the bucket of the whole microseconds between the two, unless that is 0 or the clock ran
  -- back, and leaves no query under the key.
  pub exchange_in_course :
      (h h' : Hook) (g g' : Datagram) (dns dns' : DnsHeader) (rest rest' : List ℕ)
      (len len' ifindex : ℕ) (o : Objects m) {o1 o2 : Objects m} (r : Reach m o1 o2)
      → Carries g dns rest
      → Carries g' dns' rest'
      → GoesBack g g'
      → is_response dns.flags ≡ false
      → g.dport ≡ dns_port
      → is_response dns'.flags ≡ true
      → dns'.txid ≡ dns.txid
      → nd_tc_egress m h (received g len ifindex) o ≡ some o1
      → Iterates r
      → All
          (Spares (query_key (received g len ifindex) (header_of g) dns.txid) (h.ktime 0))
          (dns_ops r)
      → (o3 : Objects m) × (nd_tc_ingress m h' (received g' len' ifindex) o2 ≡ some o3)
        × (o3.nd_dns_latency_us_hist
            ≡ sampled m h' (micros_since (h'.ktime 0) (h.ktime 0)) o2.nd_dns_latency_us_hist)
        × (m.lookup o3.nd_dns_pending (query_key (received g len ifindex) (header_of g) dns.txid)
            ≡ none)
  unfolding nd_tc_egress nd_tc_ingress
  exchange_in_course h h' g g' dns dns' rest rest' len len' ifindex o {o1} {o2} r c c' b q port is_r
        id left i spares =
      let k = query_key (received g len ifindex) (header_of g) dns.txid in
      let k' = answered_key m h' g' dns' rest' c' len' ifindex nd_dir_ingress in
      let same_key : k' ≡ k = ground (arith, b.saddr, b.daddr, b.sport, b.dport, id) in
      let (x, sent, pending, hist) =
        query_sent m h g dns rest c len ifindex nd_dir_egress o q port in
      let x_is : x ≡ o1 = some-injective _ _ (sym sent ∙ left) in
      let asked : table m o1 k ≡ some (h.ktime 0) =
        ap (λ (y : Objects m). table m y k) (sym x_is)
        ∙ ap (λ s. Option.map (λ (v : DnsPending). v.start_ns) (m.lookup s k)) pending
        ∙ ap (Option.map (λ (v : DnsPending). v.start_ns))
            (full.update_self o.nd_dns_pending k _) in
      let still : table m o2 k ≡ some (h.ktime 0) =
        Reach-dns_table m laws full r i k
        ∙ replay-Spares k (h.ktime 0) (dns_ops r) (table m o1) spares asked in
      let found = pending_of (m.lookup o2.nd_dns_pending k) (h.ktime 0) still in
      let (o3, came, gone, latency) =
        response_came m h' g' dns' rest' c' len' ifindex nd_dir_ingress o2
          (record { start_ns = h.ktime 0 }) is_r (b.sport ∙ port)
          (ap (m.lookup o2.nd_dns_pending) same_key ∙ found) in
      (
        o3,
        came,
        latency,
        ap (λ s. m.lookup s k) gone
            ∙ ap (m.lookup (m.delete o2.nd_dns_pending k').0) (sym same_key)
            ∙ lookup-delete_gone m DnsKey DnsKey-discrete DnsPending laws full.never_fails
                o2.nd_dns_pending k',
      )
