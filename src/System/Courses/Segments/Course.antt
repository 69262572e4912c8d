-- ===== src/System/Courses/Segments/Course.antt =====
-- The counts of TCP in the scrape, after any course of hooks and collections.
use networkdoctor_prestudy.Base.{
  ℕ, ◌+◌, ◌<◌, ◌≡◌, ◌⊎◌, refl, sym, ap, subst, arith, Bool, true, false, not, ◌&&◌, ◌||◌, ◌==◌,
  Option, none, some, u64, if◌then◌else◌, inl, inr, Bool-cases,
}
use networkdoctor_prestudy.Base.Int.{ℤ, pos, negsuc}
use networkdoctor_prestudy.Platform.{BpfMaps, MapLaws}
use networkdoctor_prestudy.Kernel.{Objects, Retrans, FlowKey}
use networkdoctor_prestudy.Kernel.Helpers.{
  Hook, Sock, is_state, tcp_established, tcp_close, tcp_syn_sent, tcp_syn_recv, nd_is_syn_state,
  nd_is_ipv4_sock, nd_flow4_from_sock, nd_get_config, zero_flow, tcp_connect_fail,
}
use networkdoctor_prestudy.Kernel.Update.{nd_inc_tcp_counter, nd_submit_event}
use networkdoctor_prestudy.Kernel.Tcp.{
  ipproto_tcp, nd_dir_unknown, state_u64, count_transition, enter_established,
  nd_inet_sock_set_state, retrans_value, report_burst, note_retrans, nd_tcp_retransmit_skb,
}
use networkdoctor_prestudy.Snapshot.{snapshot}
use networkdoctor_prestudy.Snapshot.Counts.{tcp_total}
use networkdoctor_prestudy.System.{
  Step, inet_sock_set_state, tcp_rcv_established, tcp_retransmit_skb, tc, sched_wakeup,
  sched_wakeup_new, sched_switch, collection, Reach, fresh, later,
}
use networkdoctor_prestudy.System.Courses.Counting.{CountersReadable, same-Counts, chain, and_same}
use networkdoctor_prestudy.System.Courses.Messages.{one_if}
use networkdoctor_prestudy.System.Courses.Segments.{
  state_count, retrans_count, step_count, course_count, StepOn, ReachOn, IsPlain, total, Counts,
  Readable, inc, inc-Counts, other-Counts, if-Counts, transition-counters, leave_established-Counts,
  rcv_established-Counts, to-Counts,
}
use networkdoctor_prestudy.System.Net.{switch-SameConns, wakeup-SameConns}
use networkdoctor_prestudy.System.Courses.Frames.{tc-locals, gc-locals}
use networkdoctor_prestudy.Kernel.Sched.{nd_sched_wakeup, nd_sched_wakeup_new}

-- States apart.
is_state-apart : (b : ℤ) (k l : ℕ) → (k == l) ≡ false → is_state b k ≡ true → is_state b l ≡ false
is_state-apart (pos n) k l ne e = ground (arith, ne, e)
is_state-apart (negsuc n) k l ne e = refl

syn-apart : (a : ℤ) → is_state a tcp_established ≡ true → nd_is_syn_state a ≡ false
unfolding nd_is_syn_state
syn-apart (pos n) e = ground (arith, e)
syn-apart (negsuc n) e = ground (arith, e)

module _ (m : BpfMaps) (laws : MapLaws m) (num_cpu cpus i : ℕ) (plain : IsPlain i) where
  abbrev Adds : ℕ → Objects m → Objects m → Type 0
  Adds n o o' = Counts m laws num_cpu cpus i plain n o.nd_tcp_counters o'.nd_tcp_counters

  abbrev Seen : Objects m → Type 0
  Seen o = Readable m laws num_cpu cpus i plain o.nd_tcp_counters

  stays : (o o' : Objects m) → o'.nd_tcp_counters ≡ o.nd_tcp_counters → Seen o → Adds 0 o o'
  stays o o' =
      same-Counts m laws num_cpu cpus (total m laws num_cpu cpus i plain) o.nd_tcp_counters
        o'.nd_tcp_counters

  if-Adds :
      (t : Bool) (n k : ℕ) (o x y : Objects m)
      → Adds n o x
      → Adds k o y
      → Adds (if t then n else k) o (if t then x else y)
  if-Adds true n k o x y p q = p
  if-Adds false n k o x y p q = q

  either-Adds :
      (t : Bool) (n : ℕ) (o x y : Objects m)
      → Adds n o x
      → Adds n o y
      → Adds n o (if t then x else y)
  either-Adds true n o x y p q = p
  either-Adds false n o x y p q = q

  as_number : (n k : ℕ) (o x : Objects m) → k ≡ n → Adds n o x → Adds k o x
  as_number n k o x e p = subst (λ j. Adds j o x) (sym e) p

  failed-counters :
      (h : Hook) (have_flow : Bool) (flow : FlowKey) (value aux : ℕ) (o : Objects m)
      → (if have_flow
          then nd_submit_event m h 2 tcp_connect_fail
              (some flow)
              value
              aux
              (nd_inc_tcp_counter m h 3 o)
          else nd_inc_tcp_counter m h 3 o).nd_tcp_counters
        ≡ inc m laws num_cpu cpus i plain h 3 o.nd_tcp_counters
  unfolding nd_submit_event nd_inc_tcp_counter
  failed-counters h have_flow flow value aux o = ground arith

  -- What comes after the counting of a change of state.
  after_transition :
      (h : Hook) (sk : Sock) (a b : ℤ) (o : Objects m)
      → nd_is_ipv4_sock sk ≡ true
      → h.cpu < cpus
      → Seen (count_transition m h a b o)
      → Adds
          (one_if (nd_is_syn_state a && is_state b tcp_close && (3 == i)))
          (count_transition m h a b o)
          (nd_inet_sock_set_state m h (some sk) a b o)
  unfolding nd_inet_sock_set_state enter_established
  after_transition h sk a b o v4 lt r =
      let o1 = count_transition m h a b o in
      let (have_flow, flow) = nd_flow4_from_sock (some sk) ipproto_tcp nd_dir_unknown zero_flow in
      let n = one_if (nd_is_syn_state a && is_state b tcp_close && (3 == i)) in
      let o' = nd_inet_sock_set_state m h (some sk) a b o in
      elim (Bool-cases (is_state b tcp_established)) [
        | inl up ↦
            as_number 0 n o1 o' (ground (arith, is_state-apart b tcp_established tcp_close refl up))
              (rw (v4, up) (stays o1 (enter_established m h sk flow b o1) refl r))
        | inr not_up ↦ elim (Bool-cases (is_state a tcp_established)) [
          | inl down ↦ as_number 0 n o1 o' (ground (arith, syn-apart a down)) (
              rw (v4, not_up, down)
                (leave_established-Counts m laws num_cpu cpus i plain h sk have_flow flow o1 lt r))
          | inr other ↦ elim (Bool-cases (nd_is_syn_state a && is_state b tcp_close)) [
            | inl failed ↦ as_number (one_if (3 == i)) n o1 o' (ground (arith, failed)) (
                rw (v4, not_up, other, failed)
                  (to-Counts m laws num_cpu cpus i plain (one_if (3 == i)) o1.nd_tcp_counters _ _
                    (failed-counters h have_flow flow (state_u64 a) (state_u64 b) o1)
                    (inc-Counts m laws num_cpu cpus i plain h 3 o1 lt r)))
            | inr fine ↦
                as_number 0 n o1 o' (ground (arith, fine))
                  (rw (v4, not_up, other, fine) (stays o1 o1 refl r))
          ]
        ]
      ]

  set_state-Adds :
      (h : Hook) (sk : Option Sock) (a b : ℤ) (o : Objects m)
      → h.cpu < cpus
      → Seen o
      → Adds (state_count i sk a b) o (nd_inet_sock_set_state m h sk a b o)
  unfolding nd_inet_sock_set_state
  set_state-Adds h none a b o lt r = stays o o refl r
  set_state-Adds h (some sk) a b o lt r = elim (Bool-cases (nd_is_ipv4_sock sk)) [
    | inl v4 ↦
        let o1 = count_transition m h a b o in
        let o2 = nd_inet_sock_set_state m h (some sk) a b o in
        let tried = is_state b tcp_syn_sent || is_state b tcp_syn_recv in
        let n = one_if (tried && (2 == i)) in
        let k = one_if (nd_is_syn_state a && is_state b tcp_close && (3 == i)) in
        as_number (n + k) (state_count i (some sk) a b) o o2 (rw v4 refl) (
          chain m laws num_cpu cpus (total m laws num_cpu cpus i plain) n k o.nd_tcp_counters
            o1.nd_tcp_counters o2.nd_tcp_counters
            (to-Counts m laws num_cpu cpus i plain n _ _ _
              (transition-counters m laws num_cpu cpus i plain h a b o)
              (if-Counts m laws num_cpu cpus i plain tried h 2 o lt r))
            (after_transition h sk a b o v4 lt))
    | inr v6 ↦ rw v6 (stays o o refl r)
  ]

  burst-counters :
      (h : Hook) (flow : FlowKey) (v : Retrans) (o : Objects m)
      → let c = (report_burst m h flow v o).1.nd_tcp_counters in
        (c ≡ o.nd_tcp_counters) ⊎ (c ≡ inc m laws num_cpu cpus i plain h 5 o.nd_tcp_counters)
  unfolding report_burst nd_submit_event nd_inc_tcp_counter
  burst-counters h flow v o = ground arith

  burst-Adds :
      (h : Hook) (flow : FlowKey) (v : Retrans) (o : Objects m)
      → h.cpu < cpus
      → Seen o
      → Adds 0 o (report_burst m h flow v o).1
  burst-Adds h flow v o lt r = elim (burst-counters h flow v o) [
    | inl same ↦ stays o (report_burst m h flow v o).1 same r
    | inr more ↦
        rw more (other-Counts m laws num_cpu cpus i plain h 5 o (ground (arith, plain)) lt r)
  ]

  note-counters :
      (h : Hook) (flow : FlowKey) (o : Objects m)
      → (note_retrans m h flow o).nd_tcp_counters ≡ o.nd_tcp_counters
  unfolding note_retrans
  note-counters h flow o = ground arith

  retransmit-Adds :
      (h : Hook) (sk : Option Sock) (o : Objects m)
      → h.cpu < cpus
      → Seen o
      → Adds (retrans_count i sk) o (nd_tcp_retransmit_skb m h sk o)
  unfolding nd_tcp_retransmit_skb
  retransmit-Adds h none o lt r = stays o o refl r
  retransmit-Adds h (some sk) o lt r =
      let o1 = nd_inc_tcp_counter m h 4 o in
      let (have_flow, flow) = nd_flow4_from_sock (some sk) ipproto_tcp nd_dir_unknown zero_flow in
      let newv =
        retrans_value m (h.ktime 0) (nd_get_config o1.nd_config).retrans_burst_window_ns
          (m.lookup o1.nd_tcp_retrans_by_flow flow) in
      let (v2, o2) = report_burst m h flow newv o1 in
      let o3 : Objects m = record o2 {
        nd_tcp_retrans_by_flow = m.update o2.nd_tcp_retrans_by_flow flow v2;
      } in
      let n = one_if (4 == i) in
      let counted : Adds n o o1 =
        unfold nd_inc_tcp_counter in inc-Counts m laws num_cpu cpus i plain h 4 o lt r in
      let noted : Adds n o (note_retrans m h flow o3) =
        to-Counts m laws num_cpu cpus i plain n o.nd_tcp_counters o2.nd_tcp_counters _
          (note-counters h flow o3)
          (and_same m laws num_cpu cpus (total m laws num_cpu cpus i plain) n o.nd_tcp_counters
            o1.nd_tcp_counters o2.nd_tcp_counters counted (burst-Adds h flow newv o1 lt)) in
      if-Adds (not (nd_is_ipv4_sock sk)) 0 n o o _ (stays o o refl r)
        (either-Adds (not have_flow) n o o1 (note_retrans m h flow o3) counted noted)

  Step-Adds :
      {o o' : Objects m} (st : Step m o o') → StepOn cpus st → Seen o → Adds (step_count i st) o o'
  unfolding nd_sched_wakeup nd_sched_wakeup_new
  Step-Adds {o} {o'} (inet_sock_set_state h sk a b _ _ _ _) c = set_state-Adds h sk a b o c
  Step-Adds {o} {o'} (tcp_rcv_established h sk _ _) c =
      rcv_established-Counts m laws num_cpu cpus i plain h sk o c
  Step-Adds {o} {o'} (tcp_retransmit_skb h sk _ _) c = retransmit-Adds h sk o c
  Step-Adds {o} {o'} (tc h skb direction _ _ e) c =
      stays o o' (ap (λ n. n.2) (tc-locals m h skb direction o o' e))
  Step-Adds {o} {o'} (sched_wakeup h p _ _) c =
      stays o o' (ap (λ n. n.2) (wakeup-SameConns m h p o))
  Step-Adds {o} {o'} (sched_wakeup_new h p _ _) c =
      stays o o' (ap (λ n. n.2) (wakeup-SameConns m h p o))
  Step-Adds {o} {o'} (sched_switch h p _ _) c =
      stays o o' (ap (λ n. n.2) (switch-SameConns m h p o))
  Step-Adds {o} {o'} (collection clock pending flows dns_timeout udp_idle) c =
      stays o o' (ap (λ n. n.2) (gc-locals m clock pending flows dns_timeout udp_idle o))

  course-Adds :
      {o o' : Objects m} (r : Reach m o o') → ReachOn cpus r → Seen o → Adds (course_count i r) o o'
  course-Adds {o} fresh c a = stays o o refl a
  course-Adds {o} (later {s = x} {t = y} r st) c a =
      chain m laws num_cpu cpus (total m laws num_cpu cpus i plain) (course_count i r)
        (step_count i st) o.nd_tcp_counters x.nd_tcp_counters y.nd_tcp_counters
        (course-Adds r c.0 a) (Step-Adds st c.1)

  -- After any course of hooks, those on sockets on CPUs that user space sees, and of collections, the
  -- next scrape's count of attempts to connect (2), of failed ones (3), of retransmissions (4), of
  -- RTT samples (6) or of window samples (7) has gone up, modulo 2 ^ 64, by what the IPv4 sockets of
  -- the course add: one attempt for each change to SYN_SENT or SYN_RECV, one failure for each change
  -- from a SYN state to CLOSE, one for each retransmission, and one sample for each segment whose
  -- smoothed RTT, or window, is positive.
  pub Reach-tcp_total :
      {o o' : Objects m} (r : Reach m o o')
      → ReachOn cpus r
      → CountersReadable m laws num_cpu cpus o.nd_tcp_counters
      → u64 (tcp_total i (snapshot m num_cpu o').tcp)
        ≡ u64 (tcp_total i (snapshot m num_cpu o).tcp + course_count i r)
  unfolding snapshot
  Reach-tcp_total r c a = (course-Adds r c a).1
