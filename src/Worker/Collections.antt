-- ===== src/Worker/Collections.antt =====
-- What the collections of RunGCWorker leave of the two maps, and what they log.
use networkdoctor_prestudy.Base.{
  ℕ, ◌+◌, ◌*◌, ◌^◌, ◌%◌, ◌≡◌, refl, ap, ◌∙◌, subst, arith, Bool, true, false, Option, none, some,
  List, [], ◌∷◌, ltb, u64,
}
use networkdoctor_prestudy.Platform.{BpfMaps, MapLaws, NeverFails}
use networkdoctor_prestudy.Kernel.{
  Objects, DnsKey, DnsKey-discrete, DnsPending, FlowKey, FlowKey-discrete, UdpFlow,
}
use networkdoctor_prestudy.Model.{GcStats}
use networkdoctor_prestudy.Gc.{Timespec, monotonic_now_ns, gc}
use networkdoctor_prestudy.Gc.Expiry.{
  retain, is_fresh, count_stale, Lists, gc_dns_pending_lem, gc_udp_flows_lem,
}
use networkdoctor_prestudy.Worker.{Signal, done, tick, GcRun, log_stats, gc_turns, run_gc_worker}

-- The time that a clock shows, in ns.
abbrev pub shown_ns : Timespec → ℕ
shown_ns ts = (ts.sec * 1_000_000_000 + ts.nsec) % 2 ^ 64

-- What is left of a query after the ticks up to the end of the context: a tick whose clock can be
-- read takes it away if it has waited for longer than `timeout`.
abbrev pub waits : ℕ → List Signal → Option DnsPending → Option DnsPending
waits timeout [] v = v
waits timeout (done ∷ signals) v = v
waits timeout (tick none pending flows ∷ signals) v = waits timeout signals v
waits timeout (tick (some ts) pending flows ∷ signals) v =
    waits timeout signals (retain (λ p. is_fresh (shown_ns ts) timeout p.start_ns) v)

-- What is left of a flow: a tick takes it away if it has been idle for longer than `idle`.
abbrev pub lives : ℕ → List Signal → Option UdpFlow → Option UdpFlow
lives idle [] v = v
lives idle (done ∷ signals) v = v
lives idle (tick none pending flows ∷ signals) v = lives idle signals v
lives idle (tick (some ts) pending flows ∷ signals) v =
    lives idle signals (retain (λ f. is_fresh (shown_ns ts) idle f.last_seen_ns) v)

-- The entries that the ticks list when they are to go.
abbrev pub stale_queries : ℕ → List Signal → ℕ
stale_queries timeout [] = 0
stale_queries timeout (done ∷ signals) = 0
stale_queries timeout (tick none pending flows ∷ signals) = stale_queries timeout signals
stale_queries timeout (tick (some ts) pending flows ∷ signals) =
    count_stale (λ (p : DnsPending). is_fresh (shown_ns ts) timeout p.start_ns) pending
    + stale_queries timeout signals

abbrev pub stale_flows : ℕ → List Signal → ℕ
stale_flows idle [] = 0
stale_flows idle (done ∷ signals) = 0
stale_flows idle (tick none pending flows ∷ signals) = stale_flows idle signals
stale_flows idle (tick (some ts) pending flows ∷ signals) =
    count_stale (λ (f : UdpFlow). is_fresh (shown_ns ts) idle f.last_seen_ns) flows
    + stale_flows idle signals

abbrev pub logged_queries : List GcStats → ℕ
logged_queries [] = 0
logged_queries (s ∷ logged) = s.dns_pending_deleted + logged_queries logged

abbrev pub logged_flows : List GcStats → ℕ
logged_flows [] = 0
logged_flows (s ∷ logged) = s.udp_flows_deleted + logged_flows logged

-- The context ends among the signals.
abbrev pub ends : List Signal → Bool
ends [] = false
ends (done ∷ signals) = true
ends (tick clock pending flows ∷ signals) = ends signals

u64-sum :
    (sec nsec : ℕ) → u64 (u64 (sec * 1_000_000_000) + nsec) ≡ (sec * 1_000_000_000 + nsec) % 2 ^ 64
u64-sum sec nsec = omega arith

cong_add : {a b c d : ℕ} → a ≡ c → b ≡ d → a + b ≡ c + d
cong_add e f = omega arith

module _ (m : BpfMaps) where
  log_stats_lem :
      (stats : GcStats) (run : GcRun m)
      → ((log_stats m stats run).objects ≡ run.objects)
        × ((log_stats m stats run).returned ≡ run.returned)
        × (logged_queries (log_stats m stats run).logged
            ≡ stats.dns_pending_deleted + logged_queries run.logged)
        × (logged_flows (log_stats m stats run).logged
            ≡ stats.udp_flows_deleted + logged_flows run.logged)
  log_stats_lem stats run = ground arith

module _ (m : BpfMaps) (dns_timeout udp_idle : ℕ) where
  open m use {lookup}

  -- At each tick the iterators yield the bindings that the maps then have.
  unfoldable pub EachLists : List Signal → Objects m → Type 0
  EachLists [] o = Unit
  EachLists (done ∷ signals) o = Unit
  EachLists (tick clock pending flows ∷ signals) o =
      Lists m o.nd_dns_pending pending
      × Lists m o.nd_udp_flows flows
      × EachLists signals (gc m clock pending flows dns_timeout udp_idle o).0

  -- What one collection at `now` leaves and counts.
  record Collects (now : ℕ) (pending : List (DnsKey × DnsPending))
      (listed : List (FlowKey × UdpFlow)) (o : Objects m) (after : Objects m × GcStats)
      : Type 0 where
    queries :
        (k : DnsKey)
        → lookup after.0.nd_dns_pending k
          ≡ retain (λ p. is_fresh now dns_timeout p.start_ns) (lookup o.nd_dns_pending k)
    flows :
        (k : FlowKey)
        → lookup after.0.nd_udp_flows k
          ≡ retain (λ f. is_fresh now udp_idle f.last_seen_ns) (lookup o.nd_udp_flows k)
    removed_queries :
        after.1.dns_pending_deleted
        ≡ count_stale (λ (p : DnsPending). is_fresh now dns_timeout p.start_ns) pending
    removed_flows :
        after.1.udp_flows_deleted
        ≡ count_stale (λ (f : UdpFlow). is_fresh now udp_idle f.last_seen_ns) listed

  -- The run leaves and logs what the ticks up to the end of the context say.
  pub record IsSwept (signals : List Signal) (o : Objects m) (run : GcRun m) : Type 0 where
    pub queries :
        (k : DnsKey)
        → lookup run.objects.nd_dns_pending k
          ≡ waits dns_timeout signals (lookup o.nd_dns_pending k)
    pub flows :
        (k : FlowKey)
        → lookup run.objects.nd_udp_flows k ≡ lives udp_idle signals (lookup o.nd_udp_flows k)
    pub removed_queries : logged_queries run.logged ≡ stale_queries dns_timeout signals
    pub removed_flows : logged_flows run.logged ≡ stale_flows udp_idle signals
    pub returned : run.returned ≡ ends signals

module _ (m : BpfMaps) (laws : MapLaws m) (dns_timeout udp_idle : ℕ)
    (dns_ok : NeverFails m DnsKey DnsKey-discrete DnsPending)
    (udp_ok : NeverFails m FlowKey FlowKey-discrete UdpFlow) where
  open m use {lookup}

  -- A collection with a clock that can be read.
  gc-Collects :
      (ts : Timespec) (pending : List (DnsKey × DnsPending)) (flows : List (FlowKey × UdpFlow))
      (o : Objects m)
      → Lists m o.nd_dns_pending pending
      → Lists m o.nd_udp_flows flows
      → Collects m dns_timeout udp_idle
          (shown_ns ts)
          pending
          flows
          o
          (gc m (some ts) pending flows dns_timeout udp_idle o)
  unfolding gc monotonic_now_ns
  gc-Collects ts pending flows o dns udp =
      subst
        (λ now.
          Collects m dns_timeout udp_idle now pending flows o
            (gc m (some ts) pending flows dns_timeout udp_idle o))
        (u64-sum ts.sec ts.nsec)
        (record {
          queries = (gc_dns_pending_lem m laws dns_ok pending _ dns_timeout o.nd_dns_pending dns).0;
          flows = (gc_udp_flows_lem m laws udp_ok flows _ udp_idle o.nd_udp_flows udp).0;
          removed_queries =
              (gc_dns_pending_lem m laws dns_ok pending _ dns_timeout o.nd_dns_pending dns).1;
          removed_flows = (gc_udp_flows_lem m laws udp_ok flows _ udp_idle o.nd_udp_flows udp).1;
        })

  -- The run from a tick on, by the run from its collection on.
  tick-IsSwept :
      (ts : Timespec) (pending : List (DnsKey × DnsPending)) (flows : List (FlowKey × UdpFlow))
      (signals : List Signal) (o : Objects m) (after : Objects m × GcStats) (run : GcRun m)
      → Collects m dns_timeout udp_idle (shown_ns ts) pending flows o after
      → IsSwept m dns_timeout udp_idle signals after.0 run
      → IsSwept m dns_timeout udp_idle
          (tick (some ts) pending flows ∷ signals)
          o
          (log_stats m after.1 run)
  tick-IsSwept ts pending flows signals o after run now rest = record {
    queries = λ k.
        ap (λ r. lookup r.nd_dns_pending k) (log_stats_lem m after.1 run).0
        ∙ rest.queries k
        ∙ ap (waits dns_timeout signals) (now.queries k);
    flows = λ k.
        ap (λ r. lookup r.nd_udp_flows k) (log_stats_lem m after.1 run).0
        ∙ rest.flows k
        ∙ ap (lives udp_idle signals) (now.flows k);
    removed_queries =
        (log_stats_lem m after.1 run).2 ∙ cong_add now.removed_queries rest.removed_queries;
    removed_flows = (log_stats_lem m after.1 run).3 ∙ cong_add now.removed_flows rest.removed_flows;
    returned = (log_stats_lem m after.1 run).1 ∙ rest.returned;
  }

  gc_turns-IsSwept :
      (signals : List Signal) (o : Objects m)
      → EachLists m dns_timeout udp_idle signals o
      → IsSwept m dns_timeout udp_idle signals o (gc_turns m dns_timeout udp_idle signals o)
  unfolding gc_turns gc monotonic_now_ns EachLists
  gc_turns-IsSwept [] o h = record {
    queries = λ k. refl;
    flows = λ k. refl;
    removed_queries = refl;
    removed_flows = refl;
    returned = refl;
  }
  gc_turns-IsSwept (done ∷ signals) o h = record {
    queries = λ k. refl;
    flows = λ k. refl;
    removed_queries = refl;
    removed_flows = refl;
    returned = refl;
  }
  gc_turns-IsSwept (tick none pending flows ∷ signals) o h =
      let rest = gc_turns-IsSwept signals o h.2 in
      record {
        queries = rest.queries;
        flows = rest.flows;
        removed_queries = rest.removed_queries;
        removed_flows = rest.removed_flows;
        returned = rest.returned;
      }
  gc_turns-IsSwept (tick (some ts) pending flows ∷ signals) o h =
      tick-IsSwept ts pending flows signals o _ _ (gc-Collects ts pending flows o h.0 h.1)
        (gc_turns-IsSwept signals _ h.2)

  -- Where no delete fails and the iterators yield, at each tick, the bindings that the maps then
  -- have, RunGCWorker with a positive interval leaves in nd_dns_pending and in nd_udp_flows under
  -- each key what no tick up to the end of the context found stale, where a tick whose clock cannot
  -- be read removes nothing; the removals that it logs add up to the stale entries that were listed,
  -- of each map; and it has returned exactly if the context has ended.
  pub run_gc_worker-IsSwept :
      (interval : ℕ) (signals : List Signal) (o : Objects m)
      → ltb 0 interval ≡ true
      → ltb interval (2 ^ 63) ≡ true
      → EachLists m dns_timeout udp_idle signals o
      → (run_gc_worker m dns_timeout udp_idle interval signals o
          ≡ some (gc_turns m dns_timeout udp_idle signals o))
        × IsSwept m dns_timeout udp_idle signals o (gc_turns m dns_timeout udp_idle signals o)
  unfolding run_gc_worker
  run_gc_worker-IsSwept interval signals o positive signed h =
      (ground arith, gc_turns-IsSwept signals o h)
