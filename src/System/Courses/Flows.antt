-- ===== src/System/Courses/Flows.antt =====
-- The UDP flows after any course of hooks and collections.
use networkdoctor_prestudy.Base.{
  ℕ, ◌≡◌, refl, sym, ap, ◌∙◌, Option, List, [], Option-cases, inl, inr,
}
use mathlib.Core.Option
use mathlib.Core.Path.{fun_ext}
use networkdoctor_prestudy.Platform.{BpfMaps, MapLaws, NeverFull}
use networkdoctor_prestudy.Kernel.{Objects, FlowKey, DnsKey, DnsPending, UdpFlow, FlowKey-discrete}
use networkdoctor_prestudy.Kernel.Helpers.{Hook}
use networkdoctor_prestudy.Kernel.Sched.{nd_sched_wakeup, nd_sched_wakeup_new}
use networkdoctor_prestudy.Kernel.Udp.{SkBuff, udp_flow_key}
use networkdoctor_prestudy.Gc.{Timespec, gc, monotonic_now_ns}
use networkdoctor_prestudy.Gc.Expiry.{Lists}
use networkdoctor_prestudy.System.{
  Step, inet_sock_set_state, tcp_rcv_established, tcp_retransmit_skb, tc, sched_wakeup,
  sched_wakeup_new, sched_switch, collection, Reach, fresh, later,
}
use networkdoctor_prestudy.System.Net.{
  SameNet, set_state-SameNet, rcv_established-SameNet, retransmit-SameNet, switch-SameNet,
  wakeup-SameNet,
}
use networkdoctor_prestudy.System.Table.{replays-append}
use networkdoctor_prestudy.System.Packets.{
  datagram_of, counted, Handled, passed, no_message, message, tc-Handled,
}
use networkdoctor_prestudy.System.Courses.Frames.{account_dns-SameUdp}
use networkdoctor_prestudy.System.FlowTable
use networkdoctor_prestudy.System.FlowTable.{
  FlowTable, Op, see, expire, replay, table, seen_of, account_udp-apply, gc_udp_flows-apply,
}
use networkdoctor_prestudy.System.Courses.{
  packet_flow_ops, flow_expiry, step_flow_ops, flow_ops, StepIterates, Iterates,
}

module _ (m : BpfMaps) (laws : MapLaws m)
    (full : NeverFull m FlowKey FlowKey-discrete UdpFlow) where
  -- The table after a state, as the operations make it of the table before.
  abbrev Follows : List Op → Objects m → Objects m → Type 0
  Follows ops o o' = (k : FlowKey) → table m o' k ≡ replay ops (table m o) k

  same-Follows : (o o' : Objects m) → SameNet m o o' → Follows [] o o'
  same-Follows o o' e k = ap (λ n. Option.map seen_of (m.lookup n.1 k)) e

  Handled-Follows :
      (h : Hook) (skb : SkBuff) (direction : ℕ) (o : Objects m) {o' : Objects m}
      → Handled m h skb direction o o'
      → Follows (packet_flow_ops h skb direction (datagram_of skb)) o o'
  Handled-Follows h skb direction o (passed e) k = rw e refl
  Handled-Follows h skb direction o (no_message udp e n) k =
      rw e (account_udp-apply m laws full h skb (udp_flow_key skb direction udp) o k)
  Handled-Follows h skb direction o (message udp dns e n) k = rw e (
      ap (λ s. Option.map seen_of (m.lookup s.0 k))
        (account_dns-SameUdp m h skb (udp_flow_key skb direction udp) udp dns
          (counted m h skb direction o udp))
      ∙ account_udp-apply m laws full h skb (udp_flow_key skb direction udp) o k)

  -- A collection, if it finds a clock.
  gc-Follows :
      (clock : Option Timespec) (pending : List (DnsKey × DnsPending))
      (flows : List (FlowKey × UdpFlow)) (dns_timeout udp_idle : ℕ) (o : Objects m)
      → Lists m o.nd_udp_flows flows
      → Follows
          (flow_expiry (monotonic_now_ns clock) udp_idle)
          o
          (gc m clock pending flows dns_timeout udp_idle o).0
  unfolding gc
  gc-Follows clock pending flows dns_timeout udp_idle o ls k =
      elim (Option-cases (monotonic_now_ns clock)) [
        | inl e ↦ rw (gc, e) refl
        | inr (now, e) ↦ rw (gc, e) (gc_udp_flows-apply m laws full flows now udp_idle o ls k)
      ]

  Step-Follows :
      {o o' : Objects m} (st : Step m o o') → StepIterates st → Follows (step_flow_ops st) o o'
  unfolding nd_sched_wakeup nd_sched_wakeup_new
  Step-Follows {o} {o'} (inet_sock_set_state h sk a b _ _ _ _) i =
      same-Follows o o' (set_state-SameNet m h sk a b o)
  Step-Follows {o} {o'} (tcp_rcv_established h sk _ _) i =
      same-Follows o o' (rcv_established-SameNet m h sk o)
  Step-Follows {o} {o'} (tcp_retransmit_skb h sk _ _) i =
      same-Follows o o' (retransmit-SameNet m h sk o)
  Step-Follows {o} {o'} (tc h skb direction _ _ e) i =
      Handled-Follows h skb direction o (tc-Handled m h skb direction o o' e)
  Step-Follows {o} {o'} (sched_wakeup h p _ _) i = same-Follows o o' (wakeup-SameNet m h p o)
  Step-Follows {o} {o'} (sched_wakeup_new h p _ _) i = same-Follows o o' (wakeup-SameNet m h p o)
  Step-Follows {o} {o'} (sched_switch h p _ _) i = same-Follows o o' (switch-SameNet m h p o)
  Step-Follows {o} {o'} (collection clock pending flows dns_timeout udp_idle) i =
      gc-Follows clock pending flows dns_timeout udp_idle o i.1

  -- If the map of the flows is never full, any course of hooks on any packets, sockets and tasks and of
  -- collections, in any order, takes the map from table to table, under every flow: each packet whose
  -- header the hook reads is seen of its flow at its time and with its length, DNS or not, and each
  -- collection, whose iterators yield the bindings of the map, gives up the flows idle too long.
  pub Reach-flow_table :
      {o o' : Objects m} (r : Reach m o o')
      → Iterates r
      → (k : FlowKey) → table m o' k ≡ replay (flow_ops r) (table m o) k
  Reach-flow_table fresh i k = refl
  Reach-flow_table {o} (later r st) i k =
      Step-Follows st i.1 k
      ∙ ap (λ t. replay (step_flow_ops st) t k) (fun_ext (Reach-flow_table r i.0))
      ∙ ap (λ (t : FlowTable). t k)
          (sym (replays-append FlowTable.apply (flow_ops r) (step_flow_ops st) (table m o)))
