-- ===== src/Tests/Tables.antt =====
-- Courses of packets, tasks and collections, and what they leave in the tables.
use networkdoctor_prestudy.Base.{
  ℕ, ◌+◌, ◌<◌, ◌≡◌, refl, ap, arith, Bool, true, none, some, List, [], ltb, ◌&&◌, ◌∷◌, All, u64,
}
use networkdoctor_prestudy.Platform.{NeverFull}
use networkdoctor_prestudy.Kernel.{
  Objects, DnsKey, DnsKey-discrete, FlowKey, FlowKey-discrete, UdpFlow, UdpCounters, DnsCounters,
}
use networkdoctor_prestudy.Kernel.Packet.{DnsHeader}
use networkdoctor_prestudy.Kernel.Packet.Datagram.{Datagram, header_of, dns_bytes, print_datagram}
use networkdoctor_prestudy.Kernel.Packet.Frames.{parse_frame-print, parse_dns-print}
use networkdoctor_prestudy.Kernel.Sched.{nd_sched_wakeup}
use networkdoctor_prestudy.Kernel.Udp.{
  SkBuff, nd_dir_egress, nd_tc_egress, nd_tc_ingress, query_key, udp_flow_key, account_udp,
  account_dns, nd_parse_ipv4_udp,
}
use networkdoctor_prestudy.Kernel.Udp.Dns.{sampled}
use networkdoctor_prestudy.Kernel.Udp.Exchange.{Carries, received, carried}
use networkdoctor_prestudy.Gc.{Timespec, gc}
use networkdoctor_prestudy.Snapshot.{snapshot, lookup_per_cpu}
use networkdoctor_prestudy.Snapshot.Counts.{dns_total}
use networkdoctor_prestudy.System.Courses.Messages
use networkdoctor_prestudy.System.Courses.Counting
use networkdoctor_prestudy.System.{SkbInRange, Reach, fresh, later, tc, sched_wakeup, collection}
use networkdoctor_prestudy.System.DnsTable
use networkdoctor_prestudy.System.FlowTable
use networkdoctor_prestudy.System.Courses.{dns_ops, flow_ops, Iterates}
use networkdoctor_prestudy.System.Courses.Dns.{Reach-dns_table}
use networkdoctor_prestudy.System.Courses.Flows.{Reach-flow_table}
use networkdoctor_prestudy.System.Courses.Exchange.{Spares, exchange_in_course}
use networkdoctor_prestudy.System.Courses.Packets.{
  packets_of, ReachOn, CountersReadable, packet_total, Reach-packet_total,
}
use networkdoctor_prestudy.Tests.Maps.{maps, maps-laws, put-same, put-other}
use networkdoctor_prestudy.Tests.Hooks.{
  idle, at, skb, never_fails, some_flow, old_flow, flow_map, old_query, pending_map, put-Lists,
}
use networkdoctor_prestudy.Tests.Packets.{
  out, out_message, out-Carries, back, back_message, back-Carries, back-GoesBack, counts,
  never_full,
}
use networkdoctor_prestudy.Tests.System.{at_1}

never_full_of_flows : NeverFull maps FlowKey FlowKey-discrete UdpFlow
never_full_of_flows = record {
  update_self = λ h k v. put-same FlowKey-discrete h k (some v);
  update_ne = λ h k j v ne. put-other FlowKey-discrete h k j (some v) ne;
  never_fails = never_fails FlowKey-discrete;
}

abbrev no_packets : UdpCounters
no_packets = record { packet_total = 0; long_flow_total = 0 }

abbrev no_messages : DnsCounters
no_messages = record { query_total = 4; response_total = 0; rcode_error_total = 0; slow_total = 0 }

-- A query and a flow of 1 s are in the maps; a collection at 10 s; and then a query leaves.
abbrev pub old_key : DnsKey
old_key = query_key skb networkdoctor_prestudy.Tests.Hooks.out 7

abbrev pub aged : Objects maps
aged = record idle {
  nd_dns_pending = pending_map;
  nd_udp_flows = flow_map;
  nd_udp_counters = λ _. no_packets ∷ no_packets ∷ [];
  nd_dns_counters = λ _. no_messages ∷ no_messages ∷ [];
}

abbrev pub ten : Timespec
ten = record { sec = 10; nsec = 0 }

abbrev collected : Objects maps
collected =
    (gc maps (some ten) ((old_key, old_query) ∷ []) ((some_flow 2, old_flow) ∷ []) 5_000_000_000
      5_000_000_000 aged).0

abbrev packet : SkBuff
packet = received out 58 2

abbrev flow : FlowKey
flow = udp_flow_key packet nd_dir_egress (header_of out)

abbrev left : Objects maps → Objects maps
left o =
    account_dns maps (at 1_000_000) packet flow (header_of out) out_message
      (account_udp maps (at 1_000_000) packet flow o)

left-is :
    (o : Objects maps)
    → nd_parse_ipv4_udp maps (at 1_000_000) packet nd_dir_egress o ≡ some (left o)
left-is o = carried maps (at 1_000_000) out out_message counts out-Carries 58 2 nd_dir_egress o refl

abbrev are_bytes : List ℕ → Bool
are_bytes [] = true
are_bytes (b ∷ bs) = ltb b 256 && are_bytes bs

All-are_bytes : (bs : List ℕ) → are_bytes bs ≡ true → All (λ b. b < 256) bs
All-are_bytes [] e = tt
All-are_bytes (b ∷ bs) e = (ground (arith, e), All-are_bytes bs (ground (arith, e)))

packet-SkbInRange : SkbInRange packet
unfolding print_datagram
packet-SkbInRange = record {
  packet = All-are_bytes (print_datagram out) refl;
  ifindex = omega arith;
}

course : Reach maps aged (left collected)
course =
    later
      (later fresh (
        collection (some ten) ((old_key, old_query) ∷ []) ((some_flow 2, old_flow) ∷ [])
          5_000_000_000 5_000_000_000))
      (tc (at 1_000_000) packet nd_dir_egress at_1 packet-SkbInRange (left-is collected))

course-Iterates : Iterates course
unfolding course
course-Iterates = (
  (
    tt,
    (
      put-Lists DnsKey-discrete old_key old_query,
      put-Lists FlowKey-discrete (some_flow 2) old_flow,
    ),
  ),
  tt,
)

Reach-dns_table_example :
    DnsTable.table maps (left collected) old_key
    ≡ DnsTable.replay (dns_ops course) (DnsTable.table maps aged) old_key
Reach-dns_table_example = Reach-dns_table maps maps-laws never_full course course-Iterates old_key

Reach-flow_table_example :
    FlowTable.table maps (left collected) flow
    ≡ FlowTable.replay (flow_ops course) (FlowTable.table maps aged) flow
Reach-flow_table_example =
    Reach-flow_table maps maps-laws never_full_of_flows course course-Iterates flow

course_on : ReachOn 2 course
unfolding course
course_on = ((tt, tt), omega arith)

aged-Readable : CountersReadable maps maps-laws 2 2 aged.nd_udp_counters
unfolding lookup_per_cpu
aged-Readable = (no_packets ∷ no_packets ∷ [], refl, refl)

Reach-packet_total_example :
    u64 (packet_total maps maps-laws 2 2 (left collected))
    ≡ u64 (packet_total maps maps-laws 2 2 aged + packets_of course)
Reach-packet_total_example = Reach-packet_total maps maps-laws 2 2 course course_on aged-Readable

aged-readable_messages : Counting.CountersReadable maps maps-laws 2 2 aged.nd_dns_counters
unfolding lookup_per_cpu
aged-readable_messages = (no_messages ∷ no_messages ∷ [], refl, refl)

Reach-dns_total_example :
    u64 (dns_total 0 (snapshot maps 2 (left collected)).dns)
    ≡ u64 (dns_total 0 (snapshot maps 2 aged).dns + Messages.course_count 0 course)
Reach-dns_total_example =
    Messages.Reach-dns_total maps maps-laws 2 2 0 (omega arith) course course_on
      aged-readable_messages

-- After a query leaves, a task wakes and another query leaves, and then the response comes in.
abbrev other : Datagram
other = record out { payload = dns_bytes 8 256 counts }

abbrev other_message : DnsHeader
other_message = record { txid = 8; flags = 256 }

other-Carries : Carries other other_message counts
other-Carries = record {
  datagram = record {
    saddr = omega arith;
    daddr = omega arith;
    options = refl;
    option_words = omega arith;
    sport = omega arith;
    dport = omega arith;
  };
  payload = refl;
  long = omega arith;
  txid = omega arith;
  flags = omega arith;
}

abbrev other_packet : SkBuff
other_packet = received other 58 2

abbrev other_flow : FlowKey
other_flow = udp_flow_key other_packet nd_dir_egress (header_of other)

abbrev other_left : Objects maps → Objects maps
other_left o =
    account_dns maps (at 1_000_000) other_packet other_flow (header_of other) other_message
      (account_udp maps (at 1_000_000) other_packet other_flow o)

abbrev woken : Objects maps
woken = nd_sched_wakeup maps (at 1_000_000) (some 77) (left idle)

between : Reach maps (left idle) (other_left woken)
between = later (later fresh (sched_wakeup (at 1_000_000) (some 77) at_1 (omega arith))) (
    tc (at 1_000_000) other_packet nd_dir_egress at_1
      (record {
        packet = unfold print_datagram in All-are_bytes (print_datagram other) refl;
        ifindex = omega arith;
      })
      (carried maps (at 1_000_000) other other_message counts other-Carries 58 2 nd_dir_egress woken
        refl))

abbrev asked_key : DnsKey
asked_key = query_key packet (header_of out) 7

between-Spares : All (Spares asked_key 1_000_000) (dns_ops between)
unfolding between
between-Spares =
    rw
      (
        parse_frame-print other other-Carries.datagram,
        parse_dns-print other other-Carries.datagram 8 256 counts refl (omega arith) (omega arith)
            (omega arith),
      )
      (((λ e. omega (arith, ap (λ (k : DnsKey). k.txid) e)), tt))

exchange_in_course_example :
    (o3 : Objects maps) × (nd_tc_ingress maps (at 3_000_000) (received back 54 2) (other_left woken)
      ≡ some o3)
    × (o3.nd_dns_latency_us_hist
        ≡ sampled maps (at 3_000_000) 2000 (other_left woken).nd_dns_latency_us_hist)
    × (o3.nd_dns_pending asked_key ≡ none)
exchange_in_course_example =
    exchange_in_course maps maps-laws never_full (at 1_000_000) (at 3_000_000) out back out_message
      back_message counts counts 58 54 2 idle between out-Carries back-Carries back-GoesBack refl
      refl refl refl (unfold nd_tc_egress in left-is idle) (unfold between in ((tt, tt), tt))
      between-Spares
