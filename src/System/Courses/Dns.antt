-- ===== src/System/Courses/Dns.antt =====
-- The pending queries after any course of hooks and collections.
use networkdoctor_prestudy.Base.{
  ℕ, ◌≡◌, refl, sym, ap, ◌∙◌, arith, false, not, ◌&&◌, ◌==◌, Option, some, List, [], Bool-cases,
  Option-cases, inl, inr,
}
use mathlib.Core.Option
use mathlib.Core.Path.{fun_ext}
use networkdoctor_prestudy.Platform.{BpfMaps, MapLaws, NeverFull}
use networkdoctor_prestudy.Kernel.{Objects, FlowKey, DnsKey, DnsKey-discrete, DnsPending, UdpFlow}
use networkdoctor_prestudy.Kernel.Helpers.{Hook}
use networkdoctor_prestudy.Kernel.Packet.{UdpHeader, DnsHeader}
use networkdoctor_prestudy.Kernel.Sched.{nd_sched_wakeup, nd_sched_wakeup_new}
use networkdoctor_prestudy.Kernel.Udp.{SkBuff, dns_port, is_response, udp_flow_key, account_dns}
use networkdoctor_prestudy.Kernel.Udp.Exchange.{account_udp-frame}
use networkdoctor_prestudy.Gc.{Timespec, gc, monotonic_now_ns}
use networkdoctor_prestudy.Gc.Expiry.{Lists}
use networkdoctor_prestudy.System.{
  Step, inet_sock_set_state, tcp_rcv_established, tcp_retransmit_skb, tc, sched_wakeup,
  sched_wakeup_new, sched_switch, collection, Reach, fresh, later,
}
use networkdoctor_prestudy.System.Net.{
  net, SameNet, set_state-SameNet, rcv_established-SameNet, retransmit-SameNet, switch-SameNet,
  wakeup-SameNet,
}
use networkdoctor_prestudy.System.Table.{replays-append}
use networkdoctor_prestudy.System.Packets.{
  datagram_of, counted, Handled, passed, no_message, message, tc-Handled,
}
use networkdoctor_prestudy.System.DnsTable
use networkdoctor_prestudy.System.DnsTable.{
  Table, Op, ask, answer, expire, replay, table, query, response, DnsStep-apply,
}
use networkdoctor_prestudy.System.Courses.{
  message_ops, packet_dns_ops, dns_expiry, step_dns_ops, dns_ops, StepIterates, Iterates,
}

account_dns-neither :
    (m : BpfMaps) (h : Hook) (skb : SkBuff) (flow : FlowKey) (udp : UdpHeader) (dns : DnsHeader)
    (o : Objects m)
    → not (is_response dns.flags) && (udp.dport == dns_port) ≡ false
    → is_response dns.flags && (udp.sport == dns_port) ≡ false
    → account_dns m h skb flow udp dns o ≡ o
unfolding account_dns
account_dns-neither m h skb flow udp dns o n r = rw (account_dns, n, r) refl

module _ (m : BpfMaps) (laws : MapLaws m)
    (full : NeverFull m DnsKey DnsKey-discrete DnsPending) where
  -- The table after a state, as the operations make it of the table before.
  abbrev Follows : List Op → Objects m → Objects m → Type 0
  Follows ops o o' = (k : DnsKey) → table m o' k ≡ replay ops (table m o) k

  same-Follows : (o o' : Objects m) → SameNet m o o' → Follows [] o o'
  same-Follows o o' e k = ap (λ n. Option.map (λ (v : DnsPending). v.start_ns) (m.lookup n.0 k)) e

  pending-Follows :
      (ops : List Op) (o x o' : Objects m)
      → x.nd_dns_pending ≡ o.nd_dns_pending
      → Follows ops x o'
      → Follows ops o o'
  pending-Follows ops o x o' e f k =
      f k
      ∙ ap (λ s. replay ops (λ j. Option.map (λ (v : DnsPending). v.start_ns) (m.lookup s j)) k) e

  account_dns-Follows :
      (h : Hook) (skb : SkBuff) (flow : FlowKey) (udp : UdpHeader) (dns : DnsHeader) (o : Objects m)
      → Follows (message_ops h skb udp (some dns)) o (account_dns m h skb flow udp dns o)
  account_dns-Follows h skb flow udp dns o k =
      elim (Bool-cases (not (is_response dns.flags) && (udp.dport == dns_port))) [
        | inl q ↦ rw q (
            DnsStep-apply m laws full
              (query h skb flow udp dns (ground (arith, q)) (ground (arith, q))) k)
        | inr n ↦ elim (Bool-cases (is_response dns.flags && (udp.sport == dns_port))) [
          | inl r ↦
              rw (n, r)
                (DnsStep-apply m laws full
                  (response h skb flow udp dns (ground (arith, r)) (ground (arith, r))) k)
          | inr none_of ↦
              rw (n, none_of)
                (same-Follows o (account_dns m h skb flow udp dns o)
                  (ap (net m) (account_dns-neither m h skb flow udp dns o n none_of)) k)
        ]
      ]

  Handled-Follows :
      (h : Hook) (skb : SkBuff) (direction : ℕ) (o : Objects m) {o' : Objects m}
      → Handled m h skb direction o o'
      → Follows (packet_dns_ops h skb (datagram_of skb)) o o'
  Handled-Follows h skb direction o (passed e) k = rw e refl
  Handled-Follows h skb direction o (no_message udp e n) k =
      rw (e, n)
        (ap (λ s. Option.map (λ (v : DnsPending). v.start_ns) (m.lookup s k))
          (account_udp-frame m h skb (udp_flow_key skb direction udp) o).0)
  Handled-Follows h skb direction o (message udp dns e n) k =
      rw (e, n)
        (pending-Follows (message_ops h skb udp (some dns)) o (counted m h skb direction o udp)
          (account_dns m h skb (udp_flow_key skb direction udp) udp dns
            (counted m h skb direction o udp))
          (account_udp-frame m h skb (udp_flow_key skb direction udp) o).0
          (account_dns-Follows h skb (udp_flow_key skb direction udp) udp dns
            (counted m h skb direction o udp))
          k)

  -- A collection, if it finds a clock.
  gc-Follows :
      (clock : Option Timespec) (pending : List (DnsKey × DnsPending))
      (flows : List (FlowKey × UdpFlow)) (dns_timeout udp_idle : ℕ) (o : Objects m)
      → Lists m o.nd_dns_pending pending
      → Follows
          (dns_expiry (monotonic_now_ns clock) dns_timeout)
          o
          (gc m clock pending flows dns_timeout udp_idle o).0
  unfolding gc
  gc-Follows clock pending flows dns_timeout udp_idle o ls k =
      elim (Option-cases (monotonic_now_ns clock)) [
        | inl e ↦ rw (gc, e) refl
        | inr (now, e) ↦
            rw (gc, e)
              (DnsStep-apply m laws full {o = o} (DnsTable.collection pending now dns_timeout ls) k)
      ]

  Step-Follows :
      {o o' : Objects m} (st : Step m o o') → StepIterates st → Follows (step_dns_ops st) o o'
  unfolding nd_sched_wakeup nd_sched_wakeup_new
  Step-Follows {o} {o'} (inet_sock_set_state h sk a b _ _ _ _) i =
      same-Follows o o' (set_state-SameNet m h sk a b o)
  Step-Follows {o} {o'} (tcp_rcv_established h sk _ _) i =
      same-Follows o o' (rcv_established-SameNet m h sk o)
  Step-Follows {o} {o'} (tcp_retransmit_skb h sk _ _) i =
      same-Follows o o' (retransmit-SameNet m h sk o)
  Step-Follows {o} {o'} (tc h skb direction _ _ e) i =
      Handled-Follows h skb direction o (tc-Handled m h skb direction o o' e)
  Step-Follows {o} {o'} (sched_wakeup h p _ _) i = same-Follows o o' (wakeup-SameNet m h p o)
  Step-Follows {o} {o'} (sched_wakeup_new h p _ _) i = same-Follows o o' (wakeup-SameNet m h p o)
  Step-Follows {o} {o'} (sched_switch h p _ _) i = same-Follows o o' (switch-SameNet m h p o)
  Step-Follows {o} {o'} (collection clock pending flows dns_timeout udp_idle) i =
      gc-Follows clock pending flows dns_timeout udp_idle o i.0

  -- If the map of the pending queries is never full, any course of hooks on any packets, sockets and
  -- tasks and of collections, in any order, takes the map from table to table, under every key, as the
  -- queries and the responses in the packets and the collections do, whose iterators yield the
  -- bindings of the map.
  pub Reach-dns_table :
      {o o' : Objects m} (r : Reach m o o')
      → Iterates r
      → (k : DnsKey) → table m o' k ≡ replay (dns_ops r) (table m o) k
  Reach-dns_table fresh i k = refl
  Reach-dns_table {o} (later r st) i k =
      Step-Follows st i.1 k
      ∙ ap (λ t. replay (step_dns_ops st) t k) (fun_ext (Reach-dns_table r i.0))
      ∙ ap (λ (t : Table). t k)
          (sym (replays-append DnsTable.apply (dns_ops r) (step_dns_ops st) (table m o)))
