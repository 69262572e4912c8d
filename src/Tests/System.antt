-- ===== src/Tests/System.antt =====
-- A course of hooks and a collection from the start of the agent, and what it submits and counts.
use networkdoctor_prestudy.Base.{◌+◌, ◌≡◌, refl, arith, true, none, some, [], ◌∷◌, ◌++◌, map, u64}
use networkdoctor_prestudy.Base.Int.{pos}
use networkdoctor_prestudy.Kernel.{Objects, TcpCounters, DnsCounters, UdpCounters}
use networkdoctor_prestudy.Kernel.Helpers.{Hook, Sock}
use networkdoctor_prestudy.Kernel.Update.{
  nd_inc_tcp_counter, nd_inc_dns_counter, nd_inc_udp_counter,
}
use networkdoctor_prestudy.Kernel.Tcp.{nd_inet_sock_set_state}
use networkdoctor_prestudy.Kernel.Sched.{nd_sched_wakeup, nd_sched_switch}
use networkdoctor_prestudy.Config.{parse_flags, options, config_entry}
use networkdoctor_prestudy.Event.Lines.{shown}
use networkdoctor_prestudy.Worker.{anomaly, run_event_worker}
use networkdoctor_prestudy.Worker.Loops.{delivery, closing}
use networkdoctor_prestudy.Gc.{gc}
use networkdoctor_prestudy.System.{
  HasClock, SockInRange, Reach, fresh, later, inet_sock_set_state, sched_wakeup, sched_switch,
  collection,
}
use networkdoctor_prestudy.System.Sound.Logged.{Started, submitted, submitted-logged}
use networkdoctor_prestudy.Snapshot.{snapshot, lookup_per_cpu}
use networkdoctor_prestudy.Snapshot.Totals.{inc-scraped}
use networkdoctor_prestudy.System.Gauges.{ReachOn, GaugesReadable, gauge}
use networkdoctor_prestudy.System.Gauges.Course.{Reach-gauge}
use networkdoctor_prestudy.Tests.Maps.{maps, maps-laws}
use networkdoctor_prestudy.Tests.Hooks.{idle, at}
use networkdoctor_prestudy.Tests.Agent.{defaults, any_string}

abbrev pub sock : Sock
sock = record {
  address = 4096;
  skc_family = 2;
  skc_rcv_saddr = 16777226;
  skc_daddr = 33554442;
  skc_num = 4000;
  skc_dport = 20480;
  srtt_us = 800;
  snd_cwnd = 10;
}

pub sock-InRange : SockInRange sock
sock-InRange = record {
  skc_rcv_saddr = omega arith;
  skc_daddr = omega arith;
  skc_num = omega arith;
  srtt_us = omega arith;
  snd_cwnd = omega arith;
}

pub at_1 : HasClock (at 1_000_000)
at_1 site = omega arith

pub at_9 : HasClock (at 9_000_000)
at_9 site = omega arith

abbrev begun : Objects maps
begun = record idle { nd_config = some (config_entry (options defaults)) }

begun-Started : Started maps defaults begun
begun-Started = record { nd_config = refl; nd_tcp_flow_latest = λ k. refl; nd_events = refl }

-- A task that waits for 8 ms, a failed connection in between, and a collection.
abbrev woken : Objects maps
woken = nd_sched_wakeup maps (at 1_000_000) (some 77) begun

abbrev failed : Objects maps
failed = nd_inet_sock_set_state maps (at 1_000_000) (some sock) (pos 2) (pos 7) woken

abbrev switched : Objects maps
switched = nd_sched_switch maps (at 9_000_000) (some 77) failed

abbrev collected : Objects maps
collected = (gc maps none [] [] 5 6 switched).0

course : Reach maps begun collected
course =
    later
      (later
        (later (later fresh (sched_wakeup (at 1_000_000) (some 77) at_1 (omega arith))) (
          inet_sock_set_state (at 1_000_000) (some sock) (pos 2) (pos 7) at_1 sock-InRange
            (omega arith) (omega arith)))
        (sched_switch (at 9_000_000) (some 77) at_9 (omega arith)))
      (collection none [] [] 5 6)

submitted-logged_example :
    run_event_worker any_string (map delivery (submitted collected) ++ (closing ∷ []))
    ≡ (map (λ e. anomaly (shown any_string e)) (submitted collected), true)
submitted-logged_example =
    submitted-logged maps maps-laws any_string defaults (unfold parse_flags in omega arith)
      begun-Started course

abbrev no_tcp : TcpCounters
no_tcp = record {
  closed_total = 0;
  short_lived_total = 0;
  connect_attempt_total = 0;
  connect_failed_total = 0;
  retrans_total = 0;
  retrans_burst_total = 0;
  rtt_sample_total = 0;
  cwnd_sample_total = 0;
}

abbrev no_dns : DnsCounters
no_dns = record { query_total = 3; response_total = 0; rcode_error_total = 0; slow_total = 0 }

abbrev no_udp : UdpCounters
no_udp = record { packet_total = 0; long_flow_total = 0 }

abbrev counting : Objects maps
counting = record idle {
  nd_tcp_counters = λ _. no_tcp ∷ no_tcp ∷ [];
  nd_dns_counters = λ _. no_dns ∷ no_dns ∷ [];
  nd_udp_counters = λ _. no_udp ∷ no_udp ∷ [];
}

-- A failed connection, which the count of retransmissions does not see; a slow response; and a field
-- that UDP has not.
inc-scraped_example :
    ((snapshot maps 2 (nd_inc_tcp_counter maps (at 5) 3 counting)).tcp.retrans_total
      ≡ (snapshot maps 2 counting).tcp.retrans_total)
    × ((snapshot maps 2 (nd_inc_dns_counter maps (at 5) 3 counting)).dns.slow_total
        ≡ u64 ((snapshot maps 2 counting).dns.slow_total + 1))
    × ((snapshot maps 2 (nd_inc_udp_counter maps (at 5) 3 counting)).udp.packet_total
        ≡ (snapshot maps 2 counting).udp.packet_total)
inc-scraped_example =
    inc-scraped maps maps-laws 2 (at 5) 3 4 3 0 counting (no_tcp ∷ no_tcp ∷ [])
      (no_dns ∷ no_dns ∷ []) (no_udp ∷ no_udp ∷ []) (omega arith) (omega arith) (omega arith)
      (unfold lookup_per_cpu in refl) (unfold lookup_per_cpu in refl)
      (unfold lookup_per_cpu in refl) (omega arith) (omega arith) (omega arith)

course_on : ReachOn 2 course
unfolding course
course_on = ((((tt, tt), omega arith), tt), tt)

begun-Readable : GaugesReadable maps maps-laws 2 2 begun
unfolding lookup_per_cpu
begun-Readable = λ key h. (0 ∷ 0 ∷ [], refl, refl)

-- The socket has come to CLOSE.
Reach-gauge_example :
    u64 (gauge maps maps-laws 2 2 collected 7 + 0) ≡ u64 (gauge maps maps-laws 2 2 begun 7 + 1)
unfolding course networkdoctor_prestudy.Kernel.Helpers.nd_is_ipv4_sock
Reach-gauge_example = Reach-gauge maps maps-laws 2 2 course 7 (omega arith) course_on begun-Readable
