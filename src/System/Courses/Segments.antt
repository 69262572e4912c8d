-- ===== src/System/Courses/Segments.antt =====
-- The counts of TCP in the scrape: what the hooks add to them.
pub mod Course
use networkdoctor_prestudy.Base.{
  ℕ, ◌+◌, ◌/◌, ◌<◌, ◌≡◌, ◌⊎◌, refl, sym, ap, subst, ◌∙◌, arith, Bool, true, false, not, ◌&&◌, ◌||◌,
  ◌==◌, Option, none, some, List, u64, get_elem?-lt, if◌then◌else◌, ltb, inl, inr, Option-cases,
  Bool-cases,
}
use networkdoctor_prestudy.Base.Int.{ℤ}
use networkdoctor_prestudy.Platform.{BpfMaps, MapLaws}
use networkdoctor_prestudy.Kernel.{
  Objects, TcpCounters, TcpFlow, Retrans, FlowKey, DnsKey, DnsPending, UdpFlow,
}
use networkdoctor_prestudy.Kernel.Helpers.{
  Hook, Sock, bump_tcp, is_state, tcp_established, tcp_close, tcp_syn_sent, tcp_syn_recv,
  nd_is_syn_state, nd_is_ipv4_sock, nd_flow4_from_sock, nd_get_config, zero_flow, tcp_connect_fail,
}
use networkdoctor_prestudy.Kernel.Update.{
  modify_slot, nd_inc_tcp_counter, nd_submit_event, nd_tcp_state_delta_add,
}
use networkdoctor_prestudy.Kernel.Tcp.{
  ipproto_tcp, nd_dir_unknown, state_u64, count_transition, enter_established, leave_established,
  nd_inet_sock_set_state, flow_value, retrans_value, sample_rtt, sample_cwnd, report_rtt,
  report_cwnd, report_burst, note_retrans, nd_tcp_rcv_established, nd_tcp_retransmit_skb,
}
use networkdoctor_prestudy.Snapshot.{snapshot, sum_tcp_counters}
use networkdoctor_prestudy.Snapshot.Counts.{tcp_total}
use networkdoctor_prestudy.Snapshot.Fields.{one_more}
use networkdoctor_prestudy.Snapshot.Totals.{tcp-inc}
use networkdoctor_prestudy.System.{
  Step, inet_sock_set_state, tcp_rcv_established, tcp_retransmit_skb, tc, sched_wakeup,
  sched_wakeup_new, sched_switch, collection, Reach, fresh, later,
}
use networkdoctor_prestudy.System.Net.{if-same}
use networkdoctor_prestudy.System.Courses.Counting
use networkdoctor_prestudy.System.Courses.Counting.{
  CountersReadable, modify-Readable, same-Counts, chain, and_same,
}
use networkdoctor_prestudy.System.Courses.Messages.{one_if}

-- What a change of state adds to the attempts to connect (2) and to those that failed (3).
abbrev pub state_count : ℕ → Option Sock → ℤ → ℤ → ℕ
state_count i none a b = 0
state_count i (some sk) a b =
    if not (nd_is_ipv4_sock sk)
    then 0
    else one_if ((is_state b tcp_syn_sent || is_state b tcp_syn_recv) && (2 == i))
      + one_if (nd_is_syn_state a && is_state b tcp_close && (3 == i))

-- What a segment adds to the samples of the RTT (6) and of the congestion window (7).
abbrev pub sample_count : ℕ → Option Sock → ℕ
sample_count i none = 0
sample_count i (some sk) =
    if not (nd_is_ipv4_sock sk)
    then 0
    else one_if (ltb 0 (sk.srtt_us / 8) && (6 == i)) + one_if (ltb 0 sk.snd_cwnd && (7 == i))

-- What a retransmission adds to their count (4).
abbrev pub retrans_count : ℕ → Option Sock → ℕ
retrans_count i none = 0
retrans_count i (some sk) = if not (nd_is_ipv4_sock sk) then 0 else one_if (4 == i)

abbrev pub step_count : {m : BpfMaps} {o o' : Objects m} → ℕ → Step m o o' → ℕ
step_count i (inet_sock_set_state h sk a b _ _ _ _) = state_count i sk a b
step_count i (tcp_rcv_established h sk _ _) = sample_count i sk
step_count i (tcp_retransmit_skb h sk _ _) = retrans_count i sk
step_count i _ = 0

abbrev pub course_count : {m : BpfMaps} {o o' : Objects m} → ℕ → Reach m o o' → ℕ
course_count i fresh = 0
course_count i (later r st) = course_count i r + step_count i st

-- The changes of state, the segments and the retransmissions come on CPUs that user space sees.
abbrev pub StepOn : {m : BpfMaps} {o o' : Objects m} → ℕ → Step m o o' → Type 0
StepOn cpus (inet_sock_set_state h _ _ _ _ _ _ _) = h.cpu < cpus
StepOn cpus (tcp_rcv_established h _ _ _) = h.cpu < cpus
StepOn cpus (tcp_retransmit_skb h _ _ _) = h.cpu < cpus
StepOn cpus _ = Unit

abbrev pub ReachOn : {m : BpfMaps} {o o' : Objects m} → ℕ → Reach m o o' → Type 0
ReachOn cpus fresh = Unit
ReachOn cpus (later r st) = ReachOn cpus r × StepOn cpus st

-- The fields that no table decides: all but the closed (0), the short-lived (1) and the bursts (5).
abbrev pub IsPlain : ℕ → Type 0
IsPlain i = (i < 8) × ((0 == i) || (1 == i) || (5 == i) ≡ false)

module _ (m : BpfMaps) (laws : MapLaws m) (num_cpu cpus i : ℕ) (plain : IsPlain i) where
  abbrev total : m.PerCpu TcpCounters → ℕ
  total a = tcp_total i (sum_tcp_counters m num_cpu a)

  abbrev Counts : ℕ → m.PerCpu TcpCounters → m.PerCpu TcpCounters → Type 0
  Counts = Counting.Counts m laws num_cpu cpus total

  abbrev Readable : m.PerCpu TcpCounters → Type 0
  Readable = CountersReadable m laws num_cpu cpus

  abbrev inc : Hook → ℕ → m.PerCpu TcpCounters → m.PerCpu TcpCounters
  inc h k a = modify_slot m a h.cpu 0 (bump_tcp k)

  inc-Counts :
      (h : Hook) (k : ℕ) (o : Objects m)
      → h.cpu < cpus
      → Readable o.nd_tcp_counters
      → Counts (one_if (k == i)) o.nd_tcp_counters (inc h k o.nd_tcp_counters)
  unfolding nd_inc_tcp_counter
  inc-Counts h k o lt (vs, found, len) =
      let more : total (inc h k o.nd_tcp_counters) ≡ one_more (k == i) (total o.nd_tcp_counters) =
        tcp-inc m laws num_cpu h k i o vs plain.0 found (omega arith) in
      (
        modify-Readable m laws num_cpu cpus o.nd_tcp_counters h.cpu (bump_tcp k) (vs, found, len)
            lt,
        ground (arith, more),
      )

  -- An increment of another field.
  other-Counts :
      (h : Hook) (k : ℕ) (o : Objects m)
      → (k == i) ≡ false
      → h.cpu < cpus
      → Readable o.nd_tcp_counters
      → Counts 0 o.nd_tcp_counters (inc h k o.nd_tcp_counters)
  other-Counts h k o ne lt r =
      subst (λ n. Counts n o.nd_tcp_counters (inc h k o.nd_tcp_counters)) (ap one_if ne)
        (inc-Counts h k o lt r)

  transition-counters :
      (h : Hook) (a b : ℤ) (o : Objects m)
      → (count_transition m h a b o).nd_tcp_counters ≡ (
          if is_state b tcp_syn_sent || is_state b tcp_syn_recv
          then inc h 2 o.nd_tcp_counters
          else o.nd_tcp_counters)
  unfolding count_transition nd_inc_tcp_counter nd_tcp_state_delta_add
  transition-counters h a b o = ground arith

  -- An increment under a test.
  if-Counts :
      (t : Bool) (h : Hook) (k : ℕ) (o : Objects m)
      → h.cpu < cpus
      → Readable o.nd_tcp_counters
      → Counts
          (one_if (t && (k == i)))
          o.nd_tcp_counters
          (if t then inc h k o.nd_tcp_counters else o.nd_tcp_counters)
  if-Counts true h k o lt r = inc-Counts h k o lt r
  if-Counts false h k o lt r =
      same-Counts m laws num_cpu cpus total o.nd_tcp_counters o.nd_tcp_counters refl r

  -- What leaves ESTABLISHED counts in the fields of the closed and the short-lived.
  leave_established-counters :
      (h : Hook) (sk : Sock) (have_flow : Bool) (flow : FlowKey) (o : Objects m)
      → let a = (leave_established m h sk have_flow flow o).nd_tcp_counters in
        (a ≡ o.nd_tcp_counters)
        ⊎ ((a ≡ inc h 0 o.nd_tcp_counters) ⊎ (a ≡ inc h 1 (inc h 0 o.nd_tcp_counters)))
  unfolding leave_established nd_inc_tcp_counter nd_submit_event
  leave_established-counters h sk have_flow flow o = ground arith

  leave_established-Counts :
      (h : Hook) (sk : Sock) (have_flow : Bool) (flow : FlowKey) (o : Objects m)
      → h.cpu < cpus
      → Readable o.nd_tcp_counters
      → Counts 0 o.nd_tcp_counters (leave_established m h sk have_flow flow o).nd_tcp_counters
  unfolding nd_inc_tcp_counter
  leave_established-Counts h sk have_flow flow o lt r =
      let first = other-Counts h 0 o (ground (arith, plain)) lt r in
      elim (leave_established-counters h sk have_flow flow o) [
        | inl same ↦ same-Counts m laws num_cpu cpus total _ _ same r
        | inr (inl once) ↦ rw once first
        | inr (inr twice) ↦ rw twice (
            and_same m laws num_cpu cpus total 0 o.nd_tcp_counters (inc h 0 o.nd_tcp_counters) _
              first (other-Counts h 1 (nd_inc_tcp_counter m h 0 o) (ground (arith, plain)) lt))
      ]

  report_rtt-counters :
      (h : Hook) (flow : FlowKey) (v : TcpFlow) (o : Objects m)
      → (report_rtt m h flow v o).1.nd_tcp_counters ≡ o.nd_tcp_counters
  unfolding report_rtt nd_submit_event
  report_rtt-counters h flow v o = ground arith

  report_cwnd-counters :
      (h : Hook) (flow : FlowKey) (v : TcpFlow) (o : Objects m)
      → (report_cwnd m h flow v o).1.nd_tcp_counters ≡ o.nd_tcp_counters
  unfolding report_cwnd nd_submit_event
  report_cwnd-counters h flow v o = ground arith

  rtt-counters :
      (h : Hook) (srtt : ℕ) (o : Objects m)
      → (sample_rtt m h srtt o).nd_tcp_counters
        ≡ (if ltb 0 srtt then inc h 6 o.nd_tcp_counters else o.nd_tcp_counters)
  unfolding sample_rtt nd_inc_tcp_counter
  rtt-counters h srtt o = ground arith

  cwnd-counters :
      (h : Hook) (cwnd : ℕ) (o : Objects m)
      → (sample_cwnd m h cwnd o).nd_tcp_counters
        ≡ (if ltb 0 cwnd then inc h 7 o.nd_tcp_counters else o.nd_tcp_counters)
  unfolding sample_cwnd nd_inc_tcp_counter
  cwnd-counters h cwnd o = ground arith

  to-Counts : (n : ℕ) (a b c : m.PerCpu TcpCounters) → c ≡ b → Counts n a b → Counts n a c
  to-Counts n a b c e p = subst (Counts n a) (sym e) p

  rcv_established-Counts :
      (h : Hook) (sk : Option Sock) (o : Objects m)
      → h.cpu < cpus
      → Readable o.nd_tcp_counters
      → Counts
          (sample_count i sk)
          o.nd_tcp_counters
          (nd_tcp_rcv_established m h sk o).nd_tcp_counters
  unfolding nd_tcp_rcv_established
  rcv_established-Counts h none o lt r =
      same-Counts m laws num_cpu cpus total o.nd_tcp_counters o.nd_tcp_counters refl r
  rcv_established-Counts h (some sk) o lt r =
      let ox = sample_rtt m h (sk.srtt_us / 8) o in
      let o1 = sample_cwnd m h sk.snd_cwnd ox in
      let (have_flow, flow) = nd_flow4_from_sock (some sk) ipproto_tcp nd_dir_unknown zero_flow in
      let newv =
        flow_value m (h.ktime 0) (sk.srtt_us / 8) sk.snd_cwnd
          (m.lookup o1.nd_tcp_flow_latest flow) in
      let (v2, o2) = report_rtt m h flow newv o1 in
      let (v3, o3) = report_cwnd m h flow v2 o2 in
      let noted : Objects m = record o3 {
        nd_tcp_flow_latest = m.update o3.nd_tcp_flow_latest flow v3;
      } in
      let n = one_if (ltb 0 (sk.srtt_us / 8) && (6 == i)) in
      let k = one_if (ltb 0 sk.snd_cwnd && (7 == i)) in
      let sampled : Counts (n + k) o.nd_tcp_counters o1.nd_tcp_counters =
        chain m laws num_cpu cpus total n k o.nd_tcp_counters ox.nd_tcp_counters o1.nd_tcp_counters
          (to-Counts n _ _ _ (rtt-counters h (sk.srtt_us / 8) o)
            (if-Counts (ltb 0 (sk.srtt_us / 8)) h 6 o lt r))
          (λ r'.
            to-Counts k _ _ _ (cwnd-counters h sk.snd_cwnd ox)
              (if-Counts (ltb 0 sk.snd_cwnd) h 7 ox lt r')) in
      elim (Bool-cases (not (nd_is_ipv4_sock sk))) [
        | inl v6 ↦
            rw v6 (same-Counts m laws num_cpu cpus total o.nd_tcp_counters o.nd_tcp_counters refl r)
        | inr v4 ↦ rw v4 (
            to-Counts (n + k) o.nd_tcp_counters o1.nd_tcp_counters _
              (if-same m (λ x. x.nd_tcp_counters) (not have_flow) o1 noted o1.nd_tcp_counters refl
                (report_cwnd-counters h flow v2 o2 ∙ report_rtt-counters h flow newv o1))
              sampled)
      ]
