-- ===== src/Tests/Lives.antt =====
-- A connection and a wait with other sockets, tasks and packets in between.
use networkdoctor_prestudy.Base.{
  u64, ◌+◌, [], ◌∷◌, ℕ, ◌≡◌, refl, arith, true, some, none, All, ℕ_discrete,
}
use networkdoctor_prestudy.Base.Int.{pos}
use networkdoctor_prestudy.Platform.{NeverFull}
use networkdoctor_prestudy.Kernel.{Objects}
use networkdoctor_prestudy.Kernel.Helpers.{Sock, nd_is_ipv4_sock}
use networkdoctor_prestudy.Kernel.Tcp.{count_transition, nd_inet_sock_set_state}
use networkdoctor_prestudy.Kernel.Tcp.Connections.{count_closed, is_short}
use networkdoctor_prestudy.Kernel.Sched.{nd_sched_wakeup, nd_sched_switch}
use networkdoctor_prestudy.Kernel.Sched.Latency.{waited}
use networkdoctor_prestudy.System.{
  Reach, fresh, later, inet_sock_set_state, sched_wakeup, sched_switch,
}
use networkdoctor_prestudy.System.Courses.Tasks.{task_ops, Reach-task_table}
use networkdoctor_prestudy.System.Courses.Connections
use networkdoctor_prestudy.System.Courses.Connections.{conn_ops, Reach-conn_table}
use networkdoctor_prestudy.System.Courses.Waits
use networkdoctor_prestudy.System.Courses.Waits.{wakeup_switch_in_course}
use networkdoctor_prestudy.System.Courses.Lives
use networkdoctor_prestudy.System.Courses.Lives.{connection_closed_in_course}
use networkdoctor_prestudy.Kernel.{TcpCounters}
use networkdoctor_prestudy.Kernel.Helpers.{nd_is_syn_state}
use networkdoctor_prestudy.Kernel.Tcp.{nd_tcp_retransmit_skb}
use networkdoctor_prestudy.System.{tcp_retransmit_skb}
use networkdoctor_prestudy.Snapshot.{snapshot, lookup_per_cpu}
use networkdoctor_prestudy.System.Courses.Counting.{CountersReadable}
use networkdoctor_prestudy.System.Courses.Segments.Course.{Reach-tcp_total}
use networkdoctor_prestudy.Tests.Maps.{maps, maps-laws, put-same, put-other}
use networkdoctor_prestudy.Tests.Hooks.{idle, at, never_fails}
use networkdoctor_prestudy.Tests.System.{sock, sock-InRange, at_1, at_9}

never_full_of : {V : Type 0} → NeverFull maps ℕ ℕ_discrete V
never_full_of = record {
  update_self = λ h k v. put-same ℕ_discrete h k (some v);
  update_ne = λ h k j v ne. put-other ℕ_discrete h k j (some v) ne;
  never_fails = never_fails ℕ_discrete;
}

sock_is_ipv4 : nd_is_ipv4_sock sock ≡ true
unfolding nd_is_ipv4_sock
sock_is_ipv4 = refl

abbrev other_sock : Sock
other_sock = record sock { address = 8192 }

-- From SYN_SENT to ESTABLISHED; another socket does the same and a task wakes; and to CLOSE.
abbrev opened : Objects maps
opened = nd_inet_sock_set_state maps (at 1_000_000) (some sock) (pos 2) (pos 1) idle

abbrev other_opened : Objects maps
other_opened = nd_inet_sock_set_state maps (at 1_000_000) (some other_sock) (pos 2) (pos 1) opened

between : Reach maps opened (nd_sched_wakeup maps (at 1_000_000) (some 77) other_opened)
between =
    later
      (later fresh (
        inet_sock_set_state (at 1_000_000) (some other_sock) (pos 2) (pos 1) at_1
          (record {
            skc_rcv_saddr = omega arith;
            skc_daddr = omega arith;
            skc_num = omega arith;
            srtt_us = omega arith;
            snd_cwnd = omega arith;
          })
          (omega arith) (omega arith)))
      (sched_wakeup (at 1_000_000) (some 77) at_1 (omega arith))

between-Spares : All (Lives.Spares 4096) (conn_ops between)
unfolding between nd_is_ipv4_sock
between-Spares = ((λ e. omega (arith, e)), tt)

connection_closed_in_course_example :
    let o2 = nd_sched_wakeup maps (at 1_000_000) (some 77) other_opened in
    let o3 = nd_inet_sock_set_state maps (at 9_000_000) (some sock) (pos 1) (pos 7) o2 in
    (o3.nd_tcp_counters
      ≡ count_closed maps
          (at 9_000_000)
          (is_short maps 8000 o2)
          (count_transition maps (at 9_000_000) (pos 1) (pos 7) o2).nd_tcp_counters)
    × (o3.nd_tcp_conn_life 4096 ≡ none)
connection_closed_in_course_example =
    connection_closed_in_course maps maps-laws never_full_of (at 1_000_000) (at 9_000_000) sock sock
      (pos 2) (pos 7) idle between sock_is_ipv4 sock_is_ipv4 refl refl between-Spares

Reach-conn_table_example :
    Connections.table maps maps-laws never_full_of
      (nd_sched_wakeup maps (at 1_000_000) (some 77) other_opened)
      8192
    ≡ some 1_000_000
unfolding between nd_is_ipv4_sock ℕ_discrete
Reach-conn_table_example = Reach-conn_table maps maps-laws never_full_of between 8192

Reach-task_table_example :
    (nd_sched_wakeup maps (at 1_000_000) (some 77) other_opened).nd_runq_start 77 ≡ some 1_000_000
unfolding between ℕ_discrete
Reach-task_table_example = Reach-task_table maps maps-laws never_full_of between 77

-- A task wakes, and before it comes to run another task does.
abbrev woken : Objects maps
woken = nd_sched_wakeup maps (at 1_000_000) (some 77) idle

meanwhile : Reach maps woken (nd_sched_switch maps (at 9_000_000) (some 5) woken)
meanwhile = later fresh (sched_switch (at 9_000_000) (some 5) at_9 (omega arith))

meanwhile-Spares : All (Waits.Spares 77) (task_ops meanwhile)
unfolding meanwhile
meanwhile-Spares = ((λ e. omega (arith, e)), tt)

wakeup_switch_in_course_example :
    let o2 = nd_sched_switch maps (at 9_000_000) (some 5) woken in
    let o3 = nd_sched_switch maps (at 9_000_000) (some 77) o2 in
    (o3.nd_runqlat_us_hist ≡ waited maps (at 9_000_000) 1_000_000 o2.nd_runqlat_us_hist)
    × (o3.nd_runq_start 77 ≡ none)
wakeup_switch_in_course_example =
    wakeup_switch_in_course maps maps-laws never_full_of (at 1_000_000) (at 9_000_000) 77 idle
      meanwhile (omega arith) meanwhile-Spares

-- A socket retransmits its SYN and gives up.
abbrev no_tcp : TcpCounters
no_tcp = record {
  closed_total = 0;
  short_lived_total = 0;
  connect_attempt_total = 0;
  connect_failed_total = 0;
  retrans_total = 5;
  retrans_burst_total = 0;
  rtt_sample_total = 0;
  cwnd_sample_total = 0;
}

abbrev counting : Objects maps
counting = record idle { nd_tcp_counters = λ _. no_tcp ∷ no_tcp ∷ [] }

abbrev resent : Objects maps
resent = nd_tcp_retransmit_skb maps (at 1_000_000) (some sock) counting

abbrev given_up : Objects maps
given_up = nd_inet_sock_set_state maps (at 9_000_000) (some sock) (pos 2) (pos 7) resent

attempt : Reach maps counting given_up
attempt = later (later fresh (tcp_retransmit_skb (at 1_000_000) (some sock) at_1 sock-InRange)) (
    inet_sock_set_state (at 9_000_000) (some sock) (pos 2) (pos 7) at_9 sock-InRange (omega arith)
      (omega arith))

counting-readable : CountersReadable maps maps-laws 2 2 counting.nd_tcp_counters
unfolding lookup_per_cpu
counting-readable = (no_tcp ∷ no_tcp ∷ [], refl, refl)

Reach-tcp_total_example :
    u64 (snapshot maps 2 given_up).tcp.connect_failed_total
    ≡ u64 ((snapshot maps 2 counting).tcp.connect_failed_total + 1)
unfolding attempt nd_is_ipv4_sock nd_is_syn_state
Reach-tcp_total_example =
    Reach-tcp_total maps maps-laws 2 2 3 (omega arith, refl) attempt
      ((tt, omega arith), omega arith) counting-readable
