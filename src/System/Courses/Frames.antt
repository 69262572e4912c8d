-- ===== src/System/Courses/Frames.antt =====
-- What a packet and a collection leave alone.
use networkdoctor_prestudy.Base.{
  ℕ, ◌≡◌, refl, ap, ◌∙◌, arith, Bool, true, false, not, ◌&&◌, ◌==◌, Option, some, List,
  if◌then◌else◌, ℕ_discrete, Option-cases, inl, inr,
}
use networkdoctor_prestudy.Platform.{BpfMaps}
use networkdoctor_prestudy.Kernel.{
  Objects, FlowKey, DnsKey, DnsPending, UdpFlow, UdpCounters, TcpConnLife, TcpCounters,
  FlowKey-discrete,
}
use networkdoctor_prestudy.Kernel.Helpers.{Hook}
use networkdoctor_prestudy.Kernel.Packet.{UdpHeader, DnsHeader}
use networkdoctor_prestudy.Kernel.Udp.{
  SkBuff, dns_port, is_response, udp_flow_key, response_key, account_dns, account_udp,
}
use networkdoctor_prestudy.Gc.{Timespec, gc, monotonic_now_ns}
use networkdoctor_prestudy.System.Packets.{
  counted, Handled, passed, no_message, message, tc-Handled,
}
use networkdoctor_prestudy.Kernel.Update.{
  nd_inc_dns_counter, nd_submit_event_no_pid, nd_inc_udp_counter,
}
use networkdoctor_prestudy.Kernel.Udp.{
  dns_query, dns_response, count_rcode, settle, dns_rcode, continue_flow, nd_parse_ipv4_udp,
}

module _ (m : BpfMaps) where
  -- The tasks that wait, the connections that are open, and the counters of TCP.
  abbrev pub Locals : Type 0
  Locals = m.Hash ℕ ℕ_discrete ℕ × m.Hash ℕ ℕ_discrete TcpConnLife × m.PerCpu TcpCounters

  abbrev pub locals : Objects m → Locals
  locals o = (o.nd_runq_start, o.nd_tcp_conn_life, o.nd_tcp_counters)

  -- The flows, the UDP counters and those.
  abbrev pub udp_locals :
      Objects m → m.Hash FlowKey FlowKey-discrete UdpFlow × m.PerCpu UdpCounters × Locals
  udp_locals o = (o.nd_udp_flows, o.nd_udp_counters, locals o)

  -- The DNS accounting leaves them alone.
  abbrev pub SameUdp : Objects m → Objects m → Type 0
  SameUdp o x = udp_locals x ≡ udp_locals o

  count_rcode-SameUdp :
      (h : Hook) (flow : FlowKey) (rcode : ℕ) (o : Objects m)
      → SameUdp o (count_rcode m h flow rcode o)
  unfolding count_rcode nd_inc_dns_counter nd_submit_event_no_pid
  count_rcode-SameUdp h flow rcode o = ground arith

  settle-SameUdp :
      (h : Hook) (flow : FlowKey) (key : DnsKey) (rcode : ℕ) (pending : DnsPending) (o : Objects m)
      → SameUdp o (settle m h flow key rcode pending o)
  unfolding settle nd_inc_dns_counter nd_submit_event_no_pid
  settle-SameUdp h flow key rcode pending o = ground arith

  dns_response-SameUdp :
      (h : Hook) (flow : FlowKey) (key : DnsKey) (rcode : ℕ) (o : Objects m)
      → SameUdp o (dns_response m h flow key rcode o)
  unfolding dns_response nd_inc_dns_counter
  dns_response-SameUdp h flow key rcode o =
      let o1 = count_rcode m h flow rcode (nd_inc_dns_counter m h 1 o) in
      let same = count_rcode-SameUdp h flow rcode (nd_inc_dns_counter m h 1 o) in
      elim (Option-cases (m.lookup o1.nd_dns_pending key)) [
        | inl e ↦ rw (dns_response, e) same
        | inr (pending, e) ↦
            rw (dns_response, e) (settle-SameUdp h flow key rcode pending o1 ∙ same)
      ]

  if-SameUdp :
      (t : Bool) (x y o : Objects m) → SameUdp o x → SameUdp o y → SameUdp o (if t then x else y)
  if-SameUdp true x y o p q = p
  if-SameUdp false x y o p q = q

  pub account_dns-SameUdp :
      (h : Hook) (skb : SkBuff) (flow : FlowKey) (udp : UdpHeader) (dns : DnsHeader) (o : Objects m)
      → SameUdp o (account_dns m h skb flow udp dns o)
  unfolding account_dns dns_query nd_inc_dns_counter
  account_dns-SameUdp h skb flow udp dns o =
      if-SameUdp (not (is_response dns.flags) && (udp.dport == dns_port)) _ _ o refl (
        if-SameUdp (is_response dns.flags && (udp.sport == dns_port)) _ o o
          (dns_response-SameUdp h flow (response_key skb udp dns.txid) (dns_rcode dns.flags) o)
          refl)

  -- A packet leaves those of TCP and of the scheduler alone, and so does a collection.
  account_udp-locals :
      (h : Hook) (skb : SkBuff) (flow : FlowKey) (o : Objects m)
      → locals (account_udp m h skb flow o) ≡ locals o
  unfolding account_udp continue_flow nd_inc_udp_counter nd_submit_event_no_pid
  account_udp-locals h skb flow o = ground arith

  Handled-locals :
      (h : Hook) (skb : SkBuff) (direction : ℕ) (o : Objects m) {o' : Objects m}
      → Handled m h skb direction o o'
      → locals o' ≡ locals o
  Handled-locals h skb direction o (passed e) = refl
  Handled-locals h skb direction o (no_message udp e n) =
      account_udp-locals h skb (udp_flow_key skb direction udp) o
  Handled-locals h skb direction o (message udp dns e n) =
      ap (λ s. s.2)
        (account_dns-SameUdp h skb (udp_flow_key skb direction udp) udp dns
          (counted m h skb direction o udp))
      ∙ account_udp-locals h skb (udp_flow_key skb direction udp) o

  pub tc-locals :
      (h : Hook) (skb : SkBuff) (direction : ℕ) (o o' : Objects m)
      → nd_parse_ipv4_udp m h skb direction o ≡ some o'
      → locals o' ≡ locals o
  tc-locals h skb direction o o' e =
      Handled-locals h skb direction o (tc-Handled m h skb direction o o' e)

  pub gc-locals :
      (clock : Option Timespec) (pending : List (DnsKey × DnsPending))
      (flows : List (FlowKey × UdpFlow)) (dns_timeout udp_idle : ℕ) (o : Objects m)
      → locals (gc m clock pending flows dns_timeout udp_idle o).0 ≡ locals o
  unfolding gc
  gc-locals clock pending flows dns_timeout udp_idle o =
      elim (Option-cases (monotonic_now_ns clock)) [
        | inl e ↦ rw (gc, e) refl
        | inr (now, e) ↦ rw (gc, e) refl
      ]
