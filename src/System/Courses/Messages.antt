-- ===== src/System/Courses/Messages.antt =====
-- The counts of DNS messages in the scrape, after any course of hooks and collections.
use networkdoctor_prestudy.Base.{
  ℕ, ◌+◌, ◌<◌, ◌≡◌, ◌⊎◌, refl, sym, ap, ◌∙◌, arith, Bool, not, ◌&&◌, ◌==◌, Option, none, some, List,
  u64, if◌then◌else◌, inl, inr, Option-cases, Bool-cases,
}
use networkdoctor_prestudy.Platform.{BpfMaps, MapLaws}
use networkdoctor_prestudy.Kernel.{Objects, DnsCounters, FlowKey, DnsKey, DnsPending, UdpFlow}
use networkdoctor_prestudy.Kernel.Helpers.{Hook, bump_dns}
use networkdoctor_prestudy.Kernel.Update.{
  modify_slot, nd_inc_udp_counter, nd_inc_dns_counter, nd_submit_event_no_pid,
}
use networkdoctor_prestudy.Kernel.Packet.{UdpHeader, DnsHeader}
use networkdoctor_prestudy.Kernel.Sched.{nd_sched_wakeup, nd_sched_wakeup_new}
use networkdoctor_prestudy.Kernel.Udp.{
  SkBuff, dns_port, is_response, dns_rcode, udp_flow_key, response_key, continue_flow, account_udp,
  dns_query, count_rcode, settle, dns_response, account_dns,
}
use networkdoctor_prestudy.Gc.{Timespec, gc, monotonic_now_ns}
use networkdoctor_prestudy.Snapshot.{snapshot, sum_dns_counters}
use networkdoctor_prestudy.Snapshot.Counts.{dns_total, dns_total-rcodes}
use networkdoctor_prestudy.Snapshot.Fields.{one_more}
use networkdoctor_prestudy.Snapshot.Totals.{dns-inc}
use networkdoctor_prestudy.System.{
  Step, inet_sock_set_state, tcp_rcv_established, tcp_retransmit_skb, tc, sched_wakeup,
  sched_wakeup_new, sched_switch, collection, Reach, fresh, later,
}
use networkdoctor_prestudy.System.Net.{
  SameNet, set_state-SameNet, rcv_established-SameNet, retransmit-SameNet, switch-SameNet,
  wakeup-SameNet,
}
use networkdoctor_prestudy.System.Packets.{
  datagram_of, message_of, counted, Handled, passed, no_message, message, tc-Handled,
}
use networkdoctor_prestudy.System.Courses.Packets.{StepOn, ReachOn}
use networkdoctor_prestudy.System.Courses.Counting
use networkdoctor_prestudy.System.Courses.Counting.{
  CountersReadable, modify-Readable, same-Counts, chain, and_same,
}

abbrev pub one_if : Bool → ℕ
one_if t = if t then 1 else 0

-- What a message adds to the queries (0), the responses (1) and the responses with an error (2).
abbrev pub message_count : ℕ → UdpHeader → Option DnsHeader → ℕ
message_count i udp none = 0
message_count i udp (some dns) =
    if not (is_response dns.flags) && (udp.dport == dns_port)
    then one_if (0 == i)
    else (if is_response dns.flags && (udp.sport == dns_port)
        then one_if (1 == i) + one_if (not (dns_rcode dns.flags == 0) && (2 == i))
        else 0)

abbrev pub packet_count : ℕ → SkBuff → Option UdpHeader → ℕ
packet_count i skb none = 0
packet_count i skb (some udp) = message_count i udp (message_of skb udp)

abbrev pub step_count : {m : BpfMaps} {o o' : Objects m} → ℕ → Step m o o' → ℕ
step_count i (tc h skb direction _ _ _) = packet_count i skb (datagram_of skb)
step_count i _ = 0

abbrev pub course_count : {m : BpfMaps} {o o' : Objects m} → ℕ → Reach m o o' → ℕ
course_count i fresh = 0
course_count i (later r st) = course_count i r + step_count i st

module _ (m : BpfMaps) (laws : MapLaws m) (num_cpu cpus i : ℕ) (known : i < 3) where
  abbrev total : m.PerCpu DnsCounters → ℕ
  total a = dns_total i (sum_dns_counters m num_cpu a)

  abbrev Counts : ℕ → m.PerCpu DnsCounters → m.PerCpu DnsCounters → Type 0
  Counts = Counting.Counts m laws num_cpu cpus total

  abbrev inc : Hook → ℕ → m.PerCpu DnsCounters → m.PerCpu DnsCounters
  inc h k a = modify_slot m a h.cpu 0 (bump_dns k)

  inc-Counts :
      (h : Hook) (k : ℕ) (o : Objects m)
      → h.cpu < cpus
      → CountersReadable m laws num_cpu cpus o.nd_dns_counters
      → Counts (one_if (k == i)) o.nd_dns_counters (inc h k o.nd_dns_counters)
  unfolding nd_inc_dns_counter
  inc-Counts h k o lt (vs, found, len) =
      let more : total (inc h k o.nd_dns_counters) ≡ one_more (k == i) (total o.nd_dns_counters) =
        dns-inc m laws num_cpu h k i o vs (omega arith) found (omega arith) in
      (
        modify-Readable m laws num_cpu cpus o.nd_dns_counters h.cpu (bump_dns k) (vs, found, len)
            lt,
        ground (arith, more),
      )

  count_rcode-counters :
      (h : Hook) (flow : FlowKey) (flags : ℕ) (o : Objects m)
      → (count_rcode m h flow (dns_rcode flags) o).nd_dns_counters
        ≡ (if dns_rcode flags == 0 then o.nd_dns_counters else inc h 2 o.nd_dns_counters)
  unfolding count_rcode nd_submit_event_no_pid nd_inc_dns_counter
  count_rcode-counters h flow flags o = ground arith

  settle-counters :
      (h : Hook) (flow : FlowKey) (key : DnsKey) (rcode : ℕ) (pending : DnsPending) (o : Objects m)
      → let a = (settle m h flow key rcode pending o).nd_dns_counters in
        (a ≡ o.nd_dns_counters) ⊎ (a ≡ inc h 3 o.nd_dns_counters)
  unfolding settle nd_submit_event_no_pid nd_inc_dns_counter
  settle-counters h flow key rcode pending o = ground arith

  rcode-Counts :
      (h : Hook) (flow : FlowKey) (flags : ℕ) (o : Objects m)
      → h.cpu < cpus
      → CountersReadable m laws num_cpu cpus o.nd_dns_counters
      → Counts
          (one_if (not (dns_rcode flags == 0) && (2 == i)))
          o.nd_dns_counters
          (count_rcode m h flow (dns_rcode flags) o).nd_dns_counters
  rcode-Counts h flow flags o lt r = elim (Bool-cases (dns_rcode flags == 0)) [
    | inl fine ↦
        rw (count_rcode-counters h flow flags o, fine)
          (same-Counts m laws num_cpu cpus total o.nd_dns_counters o.nd_dns_counters refl r)
    | inr error ↦ rw (count_rcode-counters h flow flags o, error) (inc-Counts h 2 o lt r)
  ]

  -- What settles a query counts in another field.
  settle-Counts :
      (h : Hook) (flow : FlowKey) (key : DnsKey) (rcode : ℕ) (pending : DnsPending) (o : Objects m)
      → h.cpu < cpus
      → CountersReadable m laws num_cpu cpus o.nd_dns_counters
      → Counts 0 o.nd_dns_counters (settle m h flow key rcode pending o).nd_dns_counters
  settle-Counts h flow key rcode pending o lt r =
      elim (settle-counters h flow key rcode pending o) [
        | inl same ↦ same-Counts m laws num_cpu cpus total _ _ same r
        | inr slow ↦
            rw slow
              (let (readable, e) = inc-Counts h 3 o lt r in (readable, ground (arith, e, known)))
      ]

  dns_response-Counts :
      (h : Hook) (flow : FlowKey) (key : DnsKey) (flags : ℕ) (o : Objects m)
      → h.cpu < cpus
      → CountersReadable m laws num_cpu cpus o.nd_dns_counters
      → Counts
          (one_if (1 == i) + one_if (not (dns_rcode flags == 0) && (2 == i)))
          o.nd_dns_counters
          (dns_response m h flow key (dns_rcode flags) o).nd_dns_counters
  unfolding dns_response
  dns_response-Counts h flow key flags o lt r =
      let o1 = nd_inc_dns_counter m h 1 o in
      let o2 = count_rcode m h flow (dns_rcode flags) o1 in
      let n = one_if (1 == i) in
      let k = one_if (not (dns_rcode flags == 0) && (2 == i)) in
      let known_rcode : Counts (n + k) o.nd_dns_counters o2.nd_dns_counters =
        chain m laws num_cpu cpus total n k o.nd_dns_counters o1.nd_dns_counters o2.nd_dns_counters
          (unfold nd_inc_dns_counter in inc-Counts h 1 o lt r) (rcode-Counts h flow flags o1 lt) in
      elim (Option-cases (m.lookup o2.nd_dns_pending key)) [
        | inl e ↦ rw (dns_response, e) known_rcode
        | inr (pending, e) ↦
            rw (dns_response, e)
              (and_same m laws num_cpu cpus total (n + k) o.nd_dns_counters o2.nd_dns_counters _
                known_rcode (settle-Counts h flow key (dns_rcode flags) pending o2 lt))
      ]

  account_dns-Counts :
      (h : Hook) (skb : SkBuff) (flow : FlowKey) (udp : UdpHeader) (dns : DnsHeader) (o : Objects m)
      → h.cpu < cpus
      → CountersReadable m laws num_cpu cpus o.nd_dns_counters
      → Counts
          (message_count i udp (some dns))
          o.nd_dns_counters
          (account_dns m h skb flow udp dns o).nd_dns_counters
  unfolding account_dns dns_query
  account_dns-Counts h skb flow udp dns o lt r =
      elim (Bool-cases (not (is_response dns.flags) && (udp.dport == dns_port))) [
        | inl q ↦ rw (account_dns, q) (unfold nd_inc_dns_counter in inc-Counts h 0 o lt r)
        | inr n ↦ elim (Bool-cases (is_response dns.flags && (udp.sport == dns_port))) [
          | inl e ↦
              rw (account_dns, n, e)
                (dns_response-Counts h flow (response_key skb udp dns.txid) dns.flags o lt r)
          | inr f ↦
              rw (account_dns, n, f)
                (same-Counts m laws num_cpu cpus total o.nd_dns_counters o.nd_dns_counters refl r)
        ]
      ]

  account_udp-counters :
      (h : Hook) (skb : SkBuff) (flow : FlowKey) (o : Objects m)
      → (account_udp m h skb flow o).nd_dns_counters ≡ o.nd_dns_counters
  unfolding account_udp continue_flow nd_inc_udp_counter nd_submit_event_no_pid
  account_udp-counters h skb flow o = ground arith

  Handled-Counts :
      (h : Hook) (skb : SkBuff) (direction : ℕ) (o : Objects m) {o' : Objects m}
      → Handled m h skb direction o o'
      → h.cpu < cpus
      → CountersReadable m laws num_cpu cpus o.nd_dns_counters
      → Counts (packet_count i skb (datagram_of skb)) o.nd_dns_counters o'.nd_dns_counters
  Handled-Counts h skb direction o (passed e) lt r = rw e (r, omega arith)
  Handled-Counts h skb direction o (no_message udp e n) lt r =
      rw (e, n)
        (same-Counts m laws num_cpu cpus total _ _
          (account_udp-counters h skb (udp_flow_key skb direction udp) o) r)
  Handled-Counts h skb direction o (message udp dns e n) lt r =
      let flow = udp_flow_key skb direction udp in
      let x = counted m h skb direction o udp in
      let same = account_udp-counters h skb flow o in
      let (readable, more) =
        same-Counts m laws num_cpu cpus total o.nd_dns_counters x.nd_dns_counters same r in
      rw (e, n)
        (let (after, e2) = account_dns-Counts h skb flow udp dns x lt readable in
          (after, omega (arith, more, e2)))

  gc-counters :
      (clock : Option Timespec) (pending : List (DnsKey × DnsPending))
      (flows : List (FlowKey × UdpFlow)) (dns_timeout udp_idle : ℕ) (o : Objects m)
      → (gc m clock pending flows dns_timeout udp_idle o).0.nd_dns_counters ≡ o.nd_dns_counters
  unfolding gc
  gc-counters clock pending flows dns_timeout udp_idle o =
      elim (Option-cases (monotonic_now_ns clock)) [
        | inl e ↦ rw (gc, e) refl
        | inr (now, e) ↦ rw (gc, e) refl
      ]

  net-Counts :
      (o o' : Objects m)
      → SameNet m o o'
      → CountersReadable m laws num_cpu cpus o.nd_dns_counters
      → Counts 0 o.nd_dns_counters o'.nd_dns_counters
  net-Counts o o' e =
      same-Counts m laws num_cpu cpus total o.nd_dns_counters o'.nd_dns_counters (ap (λ n. n.3) e)

  Step-Counts :
      {o o' : Objects m} (st : Step m o o')
      → StepOn cpus st
      → CountersReadable m laws num_cpu cpus o.nd_dns_counters
      → Counts (step_count i st) o.nd_dns_counters o'.nd_dns_counters
  unfolding nd_sched_wakeup nd_sched_wakeup_new
  Step-Counts {o} {o'} (inet_sock_set_state h sk a b _ _ _ _) c =
      net-Counts o o' (set_state-SameNet m h sk a b o)
  Step-Counts {o} {o'} (tcp_rcv_established h sk _ _) c =
      net-Counts o o' (rcv_established-SameNet m h sk o)
  Step-Counts {o} {o'} (tcp_retransmit_skb h sk _ _) c =
      net-Counts o o' (retransmit-SameNet m h sk o)
  Step-Counts {o} {o'} (tc h skb direction _ _ e) c =
      Handled-Counts h skb direction o (tc-Handled m h skb direction o o' e) c
  Step-Counts {o} {o'} (sched_wakeup h p _ _) c = net-Counts o o' (wakeup-SameNet m h p o)
  Step-Counts {o} {o'} (sched_wakeup_new h p _ _) c = net-Counts o o' (wakeup-SameNet m h p o)
  Step-Counts {o} {o'} (sched_switch h p _ _) c = net-Counts o o' (switch-SameNet m h p o)
  Step-Counts {o} {o'} (collection clock pending flows dns_timeout udp_idle) c =
      same-Counts m laws num_cpu cpus total o.nd_dns_counters o'.nd_dns_counters
        (gc-counters clock pending flows dns_timeout udp_idle o)

  course-Counts :
      {o o' : Objects m} (r : Reach m o o')
      → ReachOn cpus r
      → CountersReadable m laws num_cpu cpus o.nd_dns_counters
      → Counts (course_count i r) o.nd_dns_counters o'.nd_dns_counters
  course-Counts fresh c a = (a, omega arith)
  course-Counts {o} (later {s = x} {t = y} r st) c a =
      chain m laws num_cpu cpus total (course_count i r) (step_count i st) o.nd_dns_counters
        x.nd_dns_counters y.nd_dns_counters (course-Counts r c.0 a) (Step-Counts st c.1)

  -- After any course of hooks, with the packets on CPUs that user space sees, and of collections, the
  -- next scrape's count of DNS queries (0), of responses (1) or of responses with an error (2) has gone
  -- up, modulo 2 ^ 64, by the messages of that kind in the packets of the course, whether or not a
  -- response finds its query.
  pub Reach-dns_total :
      {o o' : Objects m} (r : Reach m o o')
      → ReachOn cpus r
      → CountersReadable m laws num_cpu cpus o.nd_dns_counters
      → u64 (dns_total i (snapshot m num_cpu o').dns)
        ≡ u64 (dns_total i (snapshot m num_cpu o).dns + course_count i r)
  unfolding snapshot
  Reach-dns_total {o} {o'} r c a =
      ap u64 (
        dns_total-rcodes i (sum_dns_counters m num_cpu o'.nd_dns_counters)
          (snapshot m num_cpu o').dns.rcode_total)
      ∙ (course-Counts r c a).1
      ∙ ap (λ n. u64 (n + course_count i r))
          (sym (
            dns_total-rcodes i (sum_dns_counters m num_cpu o.nd_dns_counters)
              (snapshot m num_cpu o).dns.rcode_total))
