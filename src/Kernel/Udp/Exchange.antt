-- ===== src/Kernel/Udp/Exchange.antt =====
-- A DNS exchange from the bytes on: the query leaves by nd_tc_egress and its response comes in by
-- nd_tc_ingress.
use networkdoctor_prestudy.Base.{
  ℕ, ◌^◌, ◌<◌, ◌≤◌, ◌≡◌, refl, sym, ap, ◌∙◌, arith, true, false, not, ◌&&◌, none, some, List, ◌==◌,
  eq→==, length,
}
use networkdoctor_prestudy.Platform.{BpfMaps, MapLaws, NeverFails, NeverRefuses, lookup-delete_gone}
use networkdoctor_prestudy.Kernel.{Objects, FlowKey, DnsKey, DnsKey-discrete, DnsPending}
use networkdoctor_prestudy.Kernel.Helpers.{Hook}
use networkdoctor_prestudy.Kernel.Update.{
  nd_inc_udp_counter, nd_inc_dns_counter, nd_submit_event_no_pid,
}
use networkdoctor_prestudy.Kernel.Packet.{DnsHeader}
use networkdoctor_prestudy.Kernel.Packet.Datagram.{
  Datagram, IsDatagram, print_datagram, header_of, dns_bytes,
}
use networkdoctor_prestudy.Kernel.Packet.Frames.{parse_frame-print, parse_dns-print}
use networkdoctor_prestudy.Kernel.Udp.{
  SkBuff, nd_dir_ingress, nd_dir_egress, dns_port, udp_flow_key, is_response, dns_rcode,
  micros_since, query_key, response_key, continue_flow, account_udp, dns_query, account_dns,
  inspect_dns, nd_parse_ipv4_udp, nd_tc_ingress, nd_tc_egress,
}
use networkdoctor_prestudy.Kernel.Udp.Dns.{
  sampled, account_dns-query, account_dns-response, dns_response_lem,
}

-- A datagram that carries a DNS message.
pub record Carries (g : Datagram) (dns : DnsHeader) (rest : List ℕ) : Type 0 where
  pub datagram : IsDatagram g
  pub payload : g.payload ≡ dns_bytes dns.txid dns.flags rest
  pub long : 8 ≤ length rest
  pub txid : dns.txid < 2 ^ 16
  pub flags : dns.flags < 2 ^ 16

-- What the kernel hands to a TC hook for a datagram on an interface, with `len` as the skb counts it.
abbrev pub received : Datagram → ℕ → ℕ → SkBuff
received g len ifindex = record { packet = print_datagram g; len = len; ifindex = ifindex }

-- The second datagram goes back the way of the first.
pub record GoesBack (g g' : Datagram) : Type 0 where
  pub saddr : g'.saddr ≡ g.daddr
  pub daddr : g'.daddr ≡ g.saddr
  pub sport : g'.sport ≡ g.dport
  pub dport : g'.dport ≡ g.sport

module _ (m : BpfMaps) where
  pub account_udp-frame :
      (h : Hook) (skb : SkBuff) (flow : FlowKey) (o : Objects m)
      → let o' = account_udp m h skb flow o in
        (o'.nd_dns_pending ≡ o.nd_dns_pending)
        × (o'.nd_dns_latency_us_hist ≡ o.nd_dns_latency_us_hist)
  unfolding account_udp continue_flow nd_inc_udp_counter nd_submit_event_no_pid
  account_udp-frame h skb flow o = (ground arith, ground arith)

  dns_query-pending :
      (h : Hook) (key : DnsKey) (o : Objects m)
      → let o' = dns_query m h key o in
        (o'.nd_dns_pending ≡ m.update o.nd_dns_pending key (record { start_ns = h.ktime 0 }))
        × (o'.nd_dns_latency_us_hist ≡ o.nd_dns_latency_us_hist)
  unfolding dns_query nd_inc_dns_counter
  dns_query-pending h key o = (refl, refl)

  module _ (h : Hook) (g : Datagram) (dns : DnsHeader) (rest : List ℕ) (c : Carries g dns rest)
      (len ifindex direction : ℕ) where
    abbrev pub skb : SkBuff
    skb = received g len ifindex

    abbrev pub flow : FlowKey
    flow = udp_flow_key skb direction (header_of g)

    -- On port 53 the hook accounts the datagram to its flow and then the message in it.
    pub carried :
        (o : Objects m)
        → not (g.sport == dns_port) && not (g.dport == dns_port) ≡ false
        → nd_parse_ipv4_udp m h skb direction o
          ≡ some (account_dns m h skb flow (header_of g) dns (account_udp m h skb flow o))
    unfolding nd_parse_ipv4_udp inspect_dns
    carried o port =
        rw
          (
            nd_parse_ipv4_udp,
            parse_frame-print g c.datagram,
            inspect_dns,
            port,
            parse_dns-print g c.datagram dns.txid dns.flags rest c.payload c.long c.txid c.flags,
          )
          refl

    abbrev pub key : DnsKey
    key = query_key skb (header_of g) dns.txid

    -- The hook comes to its end with the query under its key.
    pub query_sent :
        (o : Objects m)
        → is_response dns.flags ≡ false
        → g.dport ≡ dns_port
        → (o' : Objects m) × (nd_parse_ipv4_udp m h skb direction o ≡ some o')
          × (o'.nd_dns_pending ≡ m.update o.nd_dns_pending key (record { start_ns = h.ktime 0 }))
          × (o'.nd_dns_latency_us_hist ≡ o.nd_dns_latency_us_hist)
    query_sent o q port =
        let counted = account_udp m h skb flow o in
        let (same, hist) = account_udp-frame h skb flow o in
        let asked = account_dns-query m h skb flow (header_of g) dns counted q port in
        let (pending, hist') = dns_query-pending h key counted in
        (
          account_dns m h skb flow (header_of g) dns counted,
          carried o (ground (arith, eq→== g.dport dns_port port)),
          ap (λ x. x.nd_dns_pending) asked
              ∙ pending
              ∙ ap (λ s. m.update s key (record { start_ns = h.ktime 0 })) same,
          ap (λ x. x.nd_dns_latency_us_hist) asked ∙ hist' ∙ hist,
        )

    abbrev pub answered_key : DnsKey
    answered_key = response_key skb (header_of g) dns.txid

    -- The hook comes to its end with the latency recorded and the query deleted.
    pub response_came :
        (o : Objects m) (pending : DnsPending)
        → is_response dns.flags ≡ true
        → g.sport ≡ dns_port
        → m.lookup o.nd_dns_pending answered_key ≡ some pending
        → (o' : Objects m) × (nd_parse_ipv4_udp m h skb direction o ≡ some o')
          × (o'.nd_dns_pending ≡ (m.delete o.nd_dns_pending answered_key).0)
          × (o'.nd_dns_latency_us_hist
              ≡ sampled m h (micros_since (h.ktime 0) pending.start_ns) o.nd_dns_latency_us_hist)
    response_came o pending r port e =
        let counted = account_udp m h skb flow o in
        let (same, hist) = account_udp-frame h skb flow o in
        let answer = account_dns-response m h skb flow (header_of g) dns counted r port in
        let (gone, latency) =
          dns_response_lem m h flow answered_key (dns_rcode dns.flags) pending counted
            (ap (λ s. m.lookup s answered_key) same ∙ e) in
        (
          account_dns m h skb flow (header_of g) dns counted,
          carried o (ground (arith, eq→== g.sport dns_port port)),
          ap (λ x. x.nd_dns_pending) answer ∙ gone ∙ ap (λ s. (m.delete s answered_key).0) same,
          ap (λ x. x.nd_dns_latency_us_hist) answer
              ∙ latency
              ∙ ap (sampled m h (micros_since (h.ktime 0) pending.start_ns)) hist,
        )

  -- From the bytes on: a DNS query in a datagram to port 53 leaves an interface and, next, a response
  -- with its id in a datagram that goes back the way of the first comes in there. If the map of
  -- pending queries refuses no update and fails no delete, both hooks come to their end, the latency
  -- histogram has then got one sample in the bucket of the whole microseconds between the two,
  -- unless that is 0 or the clock ran back, and no query is left under its key.
  pub exchange :
      MapLaws m
      → NeverRefuses m DnsKey DnsKey-discrete DnsPending
      → NeverFails m DnsKey DnsKey-discrete DnsPending
      → (h h' : Hook) (g g' : Datagram) (dns dns' : DnsHeader) (rest rest' : List ℕ)
        (len len' ifindex : ℕ) (o : Objects m)
      → Carries g dns rest
      → Carries g' dns' rest'
      → GoesBack g g'
      → is_response dns.flags ≡ false
      → g.dport ≡ dns_port
      → is_response dns'.flags ≡ true
      → dns'.txid ≡ dns.txid
      → (o1 o2 : Objects m) × (nd_tc_egress m h (received g len ifindex) o ≡ some o1)
        × (nd_tc_ingress m h' (received g' len' ifindex) o1 ≡ some o2)
        × (o2.nd_dns_latency_us_hist
            ≡ sampled m h' (micros_since (h'.ktime 0) (h.ktime 0)) o.nd_dns_latency_us_hist)
        × (m.lookup o2.nd_dns_pending (query_key (received g len ifindex) (header_of g) dns.txid)
            ≡ none)
  unfolding nd_tc_egress nd_tc_ingress
  exchange laws taken ok h h' g g' dns dns' rest rest' len len' ifindex o c c' b q port r id =
      let k = key h g dns rest c len ifindex nd_dir_egress in
      let k' = answered_key h' g' dns' rest' c' len' ifindex nd_dir_ingress in
      let same_key : k' ≡ k = ground (arith, b.saddr, b.daddr, b.sport, b.dport, id) in
      let (o1, sent, pending1, hist1) =
        query_sent h g dns rest c len ifindex nd_dir_egress o q port in
      let found : m.lookup o1.nd_dns_pending k ≡ some (record { start_ns = h.ktime 0 }) =
        ap (λ s. m.lookup s k) pending1
        ∙ taken o.nd_dns_pending k (record { start_ns = h.ktime 0 }) in
      let (o2, came, pending2, hist2) =
        response_came h' g' dns' rest' c' len' ifindex nd_dir_ingress o1
          (record { start_ns = h.ktime 0 }) r (b.sport ∙ port)
          (ap (m.lookup o1.nd_dns_pending) same_key ∙ found) in
      (
        o1,
        o2,
        sent,
        came,
        hist2 ∙ ap (sampled m h' (micros_since (h'.ktime 0) (h.ktime 0))) hist1,
        ap (λ s. m.lookup s k) pending2
            ∙ ap (m.lookup (m.delete o1.nd_dns_pending k').0) (sym same_key)
            ∙ lookup-delete_gone m DnsKey DnsKey-discrete DnsPending laws ok o1.nd_dns_pending k',
      )
