-- ===== src/System/Courses/Packets.antt =====
-- The count of packets in the scrape, after any course of hooks and collections.
use networkdoctor_prestudy.Base.{
  ℕ, ◌+◌, ◌<◌, ◌≡◌, ap, ◌∙◌, arith, Option, List, [], ◌∷◌, u64, inl, inr, Option-cases,
}
use networkdoctor_prestudy.Platform.{BpfMaps, MapLaws}
use networkdoctor_prestudy.Kernel.{Objects, UdpCounters, FlowKey, DnsKey, DnsPending, UdpFlow}
use networkdoctor_prestudy.Kernel.Helpers.{Hook, bump_udp}
use networkdoctor_prestudy.Kernel.Sched.{nd_sched_wakeup, nd_sched_wakeup_new}
use networkdoctor_prestudy.Kernel.Udp.{SkBuff, udp_flow_key, account_udp}
use networkdoctor_prestudy.Gc.{Timespec, gc, monotonic_now_ns}
use networkdoctor_prestudy.Snapshot.{snapshot}
use networkdoctor_prestudy.Snapshot.Counters.{account-counters, account_udp-packet_total}
use networkdoctor_prestudy.System.{
  Step, inet_sock_set_state, tcp_rcv_established, tcp_retransmit_skb, tc, sched_wakeup,
  sched_wakeup_new, sched_switch, collection, Reach, fresh, later,
}
use networkdoctor_prestudy.System.Net.{
  SameNet, set_state-SameNet, rcv_established-SameNet, retransmit-SameNet, switch-SameNet,
  wakeup-SameNet,
}
use networkdoctor_prestudy.System.Packets.{
  datagram_of, counted, Handled, passed, no_message, message, tc-Handled,
}
use networkdoctor_prestudy.System.FlowTable.{Op, see, expire}
use networkdoctor_prestudy.System.Courses.{packet_flow_ops, flow_expiry, step_flow_ops}
use networkdoctor_prestudy.System.Courses.Counting
use networkdoctor_prestudy.System.Courses.Counting.{modify-Readable}
use networkdoctor_prestudy.System.Courses.Frames.{account_dns-SameUdp}

-- The packets among the operations on the flows.
abbrev pub packets_in : List Op → ℕ
packets_in [] = 0
packets_in (see flow now len ∷ ops) = packets_in ops + 1
packets_in (expire now idle ∷ ops) = packets_in ops

abbrev pub packets_of : {m : BpfMaps} {o o' : Objects m} → Reach m o o' → ℕ
packets_of fresh = 0
packets_of (later r st) = packets_of r + packets_in (step_flow_ops st)

-- The packets come in on CPUs that user space sees.
abbrev pub StepOn : {m : BpfMaps} {o o' : Objects m} → ℕ → Step m o o' → Type 0
StepOn cpus (tc h skb direction _ _ _) = h.cpu < cpus
StepOn cpus _ = Unit

abbrev pub ReachOn : {m : BpfMaps} {o o' : Objects m} → ℕ → Reach m o o' → Type 0
ReachOn cpus fresh = Unit
ReachOn cpus (later r st) = ReachOn cpus r × StepOn cpus st

module _ (m : BpfMaps) (laws : MapLaws m) (num_cpu cpus : ℕ) where
  abbrev pub CountersReadable : m.PerCpu UdpCounters → Type 0
  CountersReadable = Counting.CountersReadable m laws num_cpu cpus

  abbrev pub packet_total : Objects m → ℕ
  packet_total o = (snapshot m num_cpu o).udp.packet_total

  -- What a step does to the count, given how many packets it is.
  abbrev Counts : ℕ → Objects m → Objects m → Type 0
  Counts n o o' =
      CountersReadable o'.nd_udp_counters × (u64 (packet_total o') ≡ u64 (packet_total o + n))

  same-Counts :
      (n : ℕ) (o x y : Objects m)
      → y.nd_udp_counters ≡ x.nd_udp_counters
      → Counts n o x
      → Counts n o y
  unfolding snapshot
  same-Counts n o x y e (r, c) = rw e (r, c)

  stay : (o o' : Objects m) → SameNet m o o' → CountersReadable o.nd_udp_counters → Counts 0 o o'
  stay o o' e r = same-Counts 0 o o o' (ap (λ n. n.2) e) (r, omega arith)

  account_udp-Counts :
      (h : Hook) (skb : SkBuff) (flow : FlowKey) (o : Objects m)
      → CountersReadable o.nd_udp_counters
      → h.cpu < cpus
      → Counts 1 o (account_udp m h skb flow o)
  account_udp-Counts h skb flow o r lt =
      let once = modify-Readable m laws num_cpu cpus o.nd_udp_counters h.cpu (bump_udp 0) r lt in
      let (vs, found, len) = r in
      (
        elim (account-counters m laws num_cpu h skb flow o) [
          | inl e ↦ rw e once
          | inr e ↦ rw e (modify-Readable m laws num_cpu cpus _ h.cpu (bump_udp 1) once lt)
        ],
        ap u64 (account_udp-packet_total m laws num_cpu h skb flow o vs found (omega arith))
            ∙ omega arith,
      )

  Handled-Counts :
      (h : Hook) (skb : SkBuff) (direction : ℕ) (o : Objects m) {o' : Objects m}
      → Handled m h skb direction o o'
      → CountersReadable o.nd_udp_counters
      → h.cpu < cpus
      → Counts (packets_in (packet_flow_ops h skb direction (datagram_of skb))) o o'
  Handled-Counts h skb direction o (passed e) r lt = rw e (r, omega arith)
  Handled-Counts h skb direction o (no_message udp e n) r lt =
      rw e (account_udp-Counts h skb (udp_flow_key skb direction udp) o r lt)
  Handled-Counts h skb direction o {o'} (message udp dns e n) r lt = rw e (
      same-Counts 1 o (counted m h skb direction o udp) o'
        (ap (λ s. s.1)
          (account_dns-SameUdp m h skb (udp_flow_key skb direction udp) udp dns
            (counted m h skb direction o udp)))
        (account_udp-Counts h skb (udp_flow_key skb direction udp) o r lt))

  gc-Counts :
      (clock : Option Timespec) (pending : List (DnsKey × DnsPending))
      (flows : List (FlowKey × UdpFlow)) (dns_timeout udp_idle : ℕ) (o : Objects m)
      → CountersReadable o.nd_udp_counters
      → Counts
          (packets_in (flow_expiry (monotonic_now_ns clock) udp_idle))
          o
          (gc m clock pending flows dns_timeout udp_idle o).0
  unfolding gc snapshot
  gc-Counts clock pending flows dns_timeout udp_idle o r =
      elim (Option-cases (monotonic_now_ns clock)) [
        | inl e ↦ rw (gc, e) (r, omega arith)
        | inr (now, e) ↦ rw (gc, e) (r, omega arith)
      ]

  Step-Counts :
      {o o' : Objects m} (st : Step m o o')
      → StepOn cpus st
      → CountersReadable o.nd_udp_counters
      → Counts (packets_in (step_flow_ops st)) o o'
  unfolding nd_sched_wakeup nd_sched_wakeup_new
  Step-Counts {o} {o'} (inet_sock_set_state h sk a b _ _ _ _) c r =
      stay o o' (set_state-SameNet m h sk a b o) r
  Step-Counts {o} {o'} (tcp_rcv_established h sk _ _) c r =
      stay o o' (rcv_established-SameNet m h sk o) r
  Step-Counts {o} {o'} (tcp_retransmit_skb h sk _ _) c r = stay o o' (retransmit-SameNet m h sk o) r
  Step-Counts {o} {o'} (tc h skb direction _ _ e) c r =
      Handled-Counts h skb direction o (tc-Handled m h skb direction o o' e) r c
  Step-Counts {o} {o'} (sched_wakeup h p _ _) c r = stay o o' (wakeup-SameNet m h p o) r
  Step-Counts {o} {o'} (sched_wakeup_new h p _ _) c r = stay o o' (wakeup-SameNet m h p o) r
  Step-Counts {o} {o'} (sched_switch h p _ _) c r = stay o o' (switch-SameNet m h p o) r
  Step-Counts {o} {o'} (collection clock pending flows dns_timeout udp_idle) c r =
      gc-Counts clock pending flows dns_timeout udp_idle o r

  course-Counts :
      {o o' : Objects m} (r : Reach m o o')
      → ReachOn cpus r
      → CountersReadable o.nd_udp_counters
      → Counts (packets_of r) o o'
  course-Counts fresh c a = (a, omega arith)
  course-Counts (later r st) c a =
      let (a1, e1) = course-Counts r c.0 a in
      let (a2, e2) = Step-Counts st c.1 a1 in (a2, omega (arith, e1, e2))

  -- After any course of hooks, with the packets on CPUs that user space sees, and of collections, the
  -- packet_total of the next scrape has gone up, modulo 2 ^ 64, by the number of the packets in that
  -- course in which the hook reads a UDP header, whatever flows they begin, go on with or make reported.
  pub Reach-packet_total :
      {o o' : Objects m} (r : Reach m o o')
      → ReachOn cpus r
      → CountersReadable o.nd_udp_counters
      → u64 (packet_total o') ≡ u64 (packet_total o + packets_of r)
  Reach-packet_total r c a = (course-Counts r c a).1
