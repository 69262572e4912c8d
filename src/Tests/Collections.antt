-- ===== src/Tests/Collections.antt =====
-- A run of RunGCWorker with a query and a flow of 1 s in the maps: a tick without a clock, then one
-- at 10 s, then the context ends.
use networkdoctor_prestudy.Base.{◌≡◌, refl, none, some, List, [], ◌∷◌}
use networkdoctor_prestudy.Kernel.{DnsKey-discrete, FlowKey-discrete}
use networkdoctor_prestudy.Gc.{gc}
use networkdoctor_prestudy.Worker.{Signal, done, tick, run_gc_worker, gc_turns}
use networkdoctor_prestudy.Worker.Collections.{EachLists, IsSwept, run_gc_worker-IsSwept}
use networkdoctor_prestudy.Tests.Maps.{maps, maps-laws}
use networkdoctor_prestudy.Tests.Hooks.{never_fails, some_flow, old_flow, old_query, put-Lists}
use networkdoctor_prestudy.Tests.Tables.{aged, ten, old_key}

abbrev signals : List Signal
signals =
    tick none ((old_key, old_query) ∷ []) ((some_flow 2, old_flow) ∷ [])
    ∷ tick (some ten) ((old_key, old_query) ∷ []) ((some_flow 2, old_flow) ∷ [])
    ∷ done
    ∷ []

signals-EachLists : EachLists maps 5_000_000_000 5_000_000_000 signals aged
unfolding EachLists gc
signals-EachLists = (
  put-Lists DnsKey-discrete old_key old_query,
  put-Lists FlowKey-discrete (some_flow 2) old_flow,
  (
    put-Lists DnsKey-discrete old_key old_query,
    put-Lists FlowKey-discrete (some_flow 2) old_flow,
    tt,
  ),
)

run_gc_worker-IsSwept_example :
    (run_gc_worker maps 5_000_000_000 5_000_000_000 30_000_000_000 signals aged
      ≡ some (gc_turns maps 5_000_000_000 5_000_000_000 signals aged))
    × IsSwept maps 5_000_000_000 5_000_000_000 signals aged
        (gc_turns maps 5_000_000_000 5_000_000_000 signals aged)
run_gc_worker-IsSwept_example =
    run_gc_worker-IsSwept maps maps-laws 5_000_000_000 5_000_000_000 (never_fails DnsKey-discrete)
      (never_fails FlowKey-discrete) 30_000_000_000 signals aged refl refl signals-EachLists
