-- ===== src/Tests/Agent.antt =====
-- The agent's user space on concrete flags, events and answers of the system.
use Prim.Native.String.{String}
use networkdoctor_prestudy.Base.{
  ℕ, ◌-◌, ◌^◌, ◌≤◌, ◌≡◌, refl, arith, true, false, none, some, List, [], ◌∷◌, map, length,
}
use networkdoctor_prestudy.Kernel.{NdEvent}
use networkdoctor_prestudy.Kernel.Helpers.{nd_defaults, or_default}
use networkdoctor_prestudy.Config.{Config, Flags, parse_flags, options, duration_div}
use networkdoctor_prestudy.Config.Effective.{
  effective, effective_lem, Nonneg, negative_disables, parse_flags-effective,
}
use networkdoctor_prestudy.Event.{to_event}
use networkdoctor_prestudy.Event.RoundTrip.{InRange}
use networkdoctor_prestudy.Worker.{anomaly, run_event_worker}
use networkdoctor_prestudy.Worker.Loops.{delivery, closing, run_event_worker-deliveries}
use networkdoctor_prestudy.Runtime.Monad.{
  Err, egress, ingress, Resource, filter, Trace, Env, Call, filter_replace, Direction,
}
use networkdoctor_prestudy.Runtime.{start, close_runtime, StartError, tc_failed, no_filter, Runtime}
use networkdoctor_prestudy.Runtime.Held.{held}
use networkdoctor_prestudy.Runtime.Cleanup.{Started, start-Started, close_runtime_lem, all_links}
use networkdoctor_prestudy.App.{Web, run, main, context_done}
use networkdoctor_prestudy.App.Crash.{survivors, main-crashes}
use networkdoctor_prestudy.App.Shutdown.{run-held}
use networkdoctor_prestudy.Collector.{collect, describe}
use networkdoctor_prestudy.Collector.Samples.{
  collect_lem, all_consistent, all_distinct, all_exported, series,
}
use networkdoctor_prestudy.Model.{Snapshot, zero_tcp, zero_dns, zero_udp}
use networkdoctor_prestudy.Tests.Maps.{floats}

abbrev pub no_flags : Flags
no_flags = record {
  iface = none;
  listen = none;
  metrics_path = none;
  gc_interval = none;
  dns_timeout = none;
  udp_idle_timeout = none;
  slow_tcp_rtt = none;
  short_tcp_conn = none;
  slow_dns = none;
  long_udp_flow = none;
  high_runqlat = none;
  retrans_window = none;
  event_cooldown = none;
  retrans_burst = none;
  cwnd_drop_percent = none;
}

abbrev pub defaults : Config
defaults = parse_flags no_flags

-- DNS answers of 1.5 ms are slow, and run-queue waits are never reported below the default.
abbrev flags : Config
flags = record defaults { slow_dns = 1_500_500; high_runqlat = 999; retrans_window = 0 }

flags-Nonneg : Nonneg flags
unfolding parse_flags
flags-Nonneg = record {
  slow_tcp_rtt = omega arith;
  short_tcp_conn = omega arith;
  slow_dns = omega arith;
  long_udp_flow = omega arith;
  high_runqlat = omega arith;
  retrans_window = omega arith;
  event_cooldown = omega arith;
}

effective_lem_example : effective flags ≡ record nd_defaults { slow_dns_us = 1500 }
unfolding parse_flags
effective_lem_example = effective_lem flags flags-Nonneg

-- Minus one millisecond.
negative_disables_example : 2 ^ 63 ≤ or_default (duration_div (2 ^ 64 - 1_000_000) 1000) 5000
negative_disables_example = negative_disables (2 ^ 64 - 1_000_000) 5000 (omega arith) (omega arith)

-- All thresholds by default but one.
abbrev one_given : Flags
one_given = record no_flags { slow_dns = some 7_000_000; listen = some ":9100" }

one_given-Nonneg : Nonneg (parse_flags one_given)
unfolding parse_flags
one_given-Nonneg = record {
  slow_tcp_rtt = omega arith;
  short_tcp_conn = omega arith;
  slow_dns = omega arith;
  long_udp_flow = omega arith;
  high_runqlat = omega arith;
  retrans_window = omega arith;
  event_cooldown = omega arith;
}

parse_flags-effective_example :
    effective (parse_flags one_given) ≡ record nd_defaults { slow_dns_us = 7_000 }
unfolding networkdoctor_prestudy.Kernel.Helpers.nd_get_config
parse_flags-effective_example = parse_flags-effective one_given one_given-Nonneg

abbrev pub any_string : List ℕ → String
any_string _ = "ip"

abbrev slow_answer : NdEvent
slow_answer = record {
  type = 6;
  pid = 0;
  ts_ns = 3_000_000;
  ifindex = 2;
  src_ip = 33554442;
  dst_ip = 16777226;
  src_port = 53;
  dst_port = 4000;
  value_us = 2000;
  aux = 0;
}

slow_answer-InRange : InRange slow_answer
slow_answer-InRange = record {
  type = omega arith;
  pid = omega arith;
  ts_ns = omega arith;
  ifindex = omega arith;
  src_ip = omega arith;
  dst_ip = omega arith;
  src_port = omega arith;
  dst_port = omega arith;
  value_us = omega arith;
  aux = omega arith;
}

run_event_worker-deliveries_example :
    run_event_worker any_string (delivery slow_answer ∷ closing ∷ [])
    ≡ (anomaly (to_event any_string slow_answer) ∷ [], true)
run_event_worker-deliveries_example =
    run_event_worker-deliveries any_string (slow_answer ∷ []) [] (slow_answer-InRange, tt)

-- Every call succeeds, and every call but the second filter.
abbrev pub all_succeeds : Env
all_succeeds t c = none

abbrev refusal : Err
refusal = record { exist = false; not_exist = false; code = 22 }

abbrev no_egress : Env
no_egress = λ t c. elim c [ filter_replace egress ↦ some refusal | _ ↦ none ]

abbrev start_refusal : StartError
start_refusal = tc_failed (no_filter egress refusal)

start-Started_example : Started no_egress [] (start no_egress (options defaults) [])
start-Started_example = start-Started no_egress (options defaults) []

abbrev running : Runtime
running = record { links = all_links; has_reader = true; close_err = none }

abbrev opened : Trace
opened = (start all_succeeds (options defaults) []).1

close_runtime_lem_example :
    (held (close_runtime all_succeeds running opened).1 ≡ [])
    × ((close_runtime all_succeeds
          (close_runtime all_succeeds running opened).0.0
          (close_runtime all_succeeds running opened).1).1
        ≡ (close_runtime all_succeeds running opened).1)
    × ((close_runtime all_succeeds
          (close_runtime all_succeeds running opened).0.0
          (close_runtime all_succeeds running opened).1).0.1
        ≡ (close_runtime all_succeeds running opened).0.1)
unfolding start networkdoctor_prestudy.Runtime.Monad.call
close_runtime_lem_example = close_runtime_lem all_succeeds running opened [] (refl, refl)

-- A registry and a mux that take everything, and a server that a signal ends.
abbrev pub web : Web
web = record {
  registers = λ _. true;
  accepts_pattern = λ _. true;
  serving = λ _. context_done (λ _. none);
}

run-held_example : held (run all_succeeds web defaults true []).1 ≡ []
unfolding run start networkdoctor_prestudy.Runtime.Monad.call parse_flags
run-held_example = run-held all_succeeds web defaults true []

-- A collection interval of 0 on every call's success.
abbrev no_interval : Flags
no_interval = record no_flags { gc_interval = some 0 }

main-crashes_example :
    ((main all_succeeds web no_interval true []).0 ≡ 2)
    × (survivors (held (main all_succeeds web no_interval true []).1)
        ≡ filter egress ∷ filter ingress ∷ [])
unfolding start networkdoctor_prestudy.Runtime.Monad.call parse_flags
main-crashes_example = main-crashes all_succeeds web no_interval [] running refl refl

abbrev no_traffic : Snapshot
no_traffic = record {
  tcp = zero_tcp;
  dns = zero_dns;
  udp = zero_udp;
  tcp_state = record { established = 2; time_wait = 2 ^ 64 - 1 };
  hist = record {
    tcp_srtt_us = [];
    tcp_cwnd = [];
    dns_latency_us = [];
    runqlat_us = [];
    udp_duration_us = [];
  };
}

collect_lem_example :
    (length (collect floats no_traffic) ≡ 37)
    × (all_consistent floats (collect floats no_traffic) ≡ true)
    × (all_distinct (map (series floats) (collect floats no_traffic)) ≡ true)
    × (all_exported floats describe (collect floats no_traffic) ≡ true)
collect_lem_example = collect_lem floats no_traffic
