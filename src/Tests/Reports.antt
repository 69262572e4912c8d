-- ===== src/Tests/Reports.antt =====
-- A slow flow that is reported, and what follows within the cooldown.
use networkdoctor_prestudy.Base.{◌+◌, ◌≡◌, refl, arith, true, some, none, List, [], ◌∷◌}
use networkdoctor_prestudy.Platform.{NeverRefuses}
use networkdoctor_prestudy.Kernel.{Objects, FlowKey, FlowKey-discrete, TcpFlow}
use networkdoctor_prestudy.Kernel.Helpers.{Sock, nd_defaults, nd_is_ipv4_sock}
use networkdoctor_prestudy.Kernel.Tcp.Bursts.{flow_of}
use networkdoctor_prestudy.Kernel.Tcp.Reports.{rtt, reports}
use networkdoctor_prestudy.Kernel.Tcp.Reports.Cooldown.{
  Traffic, segment, retransmission, observe_all, reported_apart,
}
use networkdoctor_prestudy.Tests.Maps.{maps, maps-laws, put, put-same}
use networkdoctor_prestudy.Tests.Hooks.{idle, at}

-- A smoothed RTT of 200 ms.
abbrev slow : Sock
slow = record {
  address = 4096;
  skc_family = 2;
  skc_rcv_saddr = 16777226;
  skc_daddr = 33554442;
  skc_num = 4000;
  skc_dport = 20480;
  srtt_us = 1_600_000;
  snd_cwnd = 10;
}

abbrev seen : TcpFlow
seen = record {
  last_seen_ns = 1;
  last_rtt_event_ns = 0;
  last_cwnd_event_ns = 0;
  srtt_us = 100;
  cwnd = 10;
  prev_cwnd = 10;
  retrans_count = 0;
}

abbrev known : Objects maps
known = record idle {
  nd_tcp_flow_latest = put FlowKey-discrete (λ _. none) (flow_of slow) (some seen);
}

never_refuses : NeverRefuses maps FlowKey FlowKey-discrete TcpFlow
never_refuses h k v = put-same FlowKey-discrete h k (some v)

slow_is_ipv4 : nd_is_ipv4_sock slow ≡ true
unfolding nd_is_ipv4_sock
slow_is_ipv4 = refl

abbrev later : List Traffic
later = segment (at 7_000_000_000) slow ∷ retransmission (at 8_000_000_000) slow ∷ []

reported_apart_example :
    reports rtt (observe_all maps (segment (at 6_000_000_000) slow ∷ later) known).nd_events ≡ 1 + 0
unfolding networkdoctor_prestudy.Kernel.Helpers.nd_get_config
reported_apart_example =
    reported_apart maps maps-laws never_refuses rtt (at 6_000_000_000) slow later known seen
      slow_is_ipv4 (put-same FlowKey-discrete (λ _. none) (flow_of slow) (some seen)) refl
      (omega arith) ((slow_is_ipv4, refl), ((slow_is_ipv4, refl), tt))
      (omega arith, (omega arith, tt))
