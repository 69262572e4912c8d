-- ===== src/Tests/Courses.antt =====
-- Courses of hooks: sockets that change state and retransmit, tasks that wake, flows that go on.
use networkdoctor_prestudy.Base.{ℕ, ◌+◌, ◌≡◌, refl, arith, true, none, some, [], ◌∷◌}
use networkdoctor_prestudy.Platform.{NeverRefuses}
use networkdoctor_prestudy.Kernel.{
  Objects, UdpCounters, UdpFlow, FlowKey, FlowKey-discrete, Retrans,
}
use networkdoctor_prestudy.Kernel.Helpers.{Hook, Sock, nd_defaults, nd_is_ipv4_sock}
use networkdoctor_prestudy.Kernel.Tcp.Bursts.{flow_of, retransmit_all, bursts}
use networkdoctor_prestudy.Kernel.Tcp.Bursts.Threshold.{Holds, burst_reported}
use networkdoctor_prestudy.Kernel.Udp.{account_udp}
use networkdoctor_prestudy.Kernel.Udp.Flows.{account_all, reported_once}
use networkdoctor_prestudy.Histogram.{nd_log2_bucket}
use networkdoctor_prestudy.Kernel.Update.{nd_inc_u64_percpu_array}
use networkdoctor_prestudy.Tests.Maps.{maps, maps-laws, put, put-same}
use networkdoctor_prestudy.Tests.Hooks.{idle, at, skb, some_flow, old_flow, flow_map, two_cpus}

abbrev pub sock : Sock
sock = record {
  address = 4096;
  skc_family = 2;
  skc_rcv_saddr = 16777226;
  skc_daddr = 33554442;
  skc_num = 4000;
  skc_dport = 20480;
  srtt_us = 800;
  snd_cwnd = 10;
}

pub sock_is_ipv4 : nd_is_ipv4_sock sock ≡ true
unfolding nd_is_ipv4_sock
sock_is_ipv4 = refl

-- The flow of 1 ns, known to the map, and two packets half a minute later.
abbrev long : Objects maps
long = record idle { nd_udp_flows = flow_map }

long_found : flow_map (some_flow 2) ≡ some old_flow
long_found = put-same FlowKey-discrete (λ _. none) (some_flow 2) (some old_flow)

abbrev late : ℕ
late = 31_000_000_000

reported_once_example :
    ((account_all maps
        (some_flow 2)
        ((at late, skb) ∷ (at (late + 1), skb) ∷ [])
        long).nd_udp_duration_us_hist
      ≡ nd_inc_u64_percpu_array maps two_cpus 1 (nd_log2_bucket 30999999))
    × ((account_all maps (some_flow 2) ((at late, skb) ∷ (at (late + 1), skb) ∷ []) long).nd_events
        ≡ (account_udp maps (at late) skb (some_flow 2) long).nd_events)
unfolding networkdoctor_prestudy.Kernel.Helpers.nd_get_config
reported_once_example =
    reported_once maps maps-laws (at late) skb ((at (late + 1), skb) ∷ []) (some_flow 2) long
      old_flow long_found refl (omega arith) (omega arith, tt)

abbrev first_retrans : Retrans
first_retrans = record {
  first_seen_ns = 6_000_000_000;
  last_seen_ns = 6_000_000_000;
  count = 1;
  last_event_ns = 0;
}

abbrev retransmitted : Objects maps
retransmitted = record idle {
  nd_tcp_retrans_by_flow = put FlowKey-discrete (λ _. none) (flow_of sock) (some first_retrans);
}

never_refuses : {K V : Type 0} (d : Discrete K) → NeverRefuses maps K d V
never_refuses d h k v = put-same d h k (some v)

retransmitted-Holds :
    Holds maps
      (never_refuses FlowKey-discrete)
      sock
      sock_is_ipv4
      nd_defaults
      retransmitted
      first_retrans
unfolding networkdoctor_prestudy.Kernel.Helpers.nd_get_config
retransmitted-Holds = record {
  nd_config = refl;
  found = put-same FlowKey-discrete (λ _. none) (flow_of sock) (some first_retrans);
}

-- The third retransmission in the window, and one a second later.
burst_reported_example :
    bursts
      (retransmit_all maps sock
        (at 6_000_000_100 ∷ at 6_000_000_300 ∷ at 7_000_000_300 ∷ [])
        retransmitted).nd_events
    ≡ 1 + 0
burst_reported_example =
    burst_reported maps (never_refuses FlowKey-discrete) sock sock_is_ipv4 nd_defaults
      (at 6_000_000_100 ∷ []) (at 6_000_000_300) (at 7_000_000_300 ∷ []) retransmitted first_retrans
      retransmitted-Holds ((omega arith, omega arith), tt) (omega arith, omega arith) refl
      (omega arith) refl (omega arith) (omega arith, tt)
