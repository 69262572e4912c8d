-- ===== src/Worker.antt =====
-- internal/worker: the two background loops. What they wait for is a list of what happens, in order;
-- a loop that is still running at the end of the list says so. Of the log only the lines that carry
-- data are kept.
pub mod Loops
pub mod Collections
use Prim.Native.String.{String}
use networkdoctor_prestudy.Base.{
  ℕ, ◌+◌, ◌^◌, Bool, true, false, ◌||◌, Option, none, some, List, [], ◌∷◌, ltb, leb, ◌==◌,
  if◌then◌else◌,
}
use networkdoctor_prestudy.Platform.{BpfMaps}
use networkdoctor_prestudy.Kernel.{Objects, DnsKey, DnsPending, FlowKey, UdpFlow}
use networkdoctor_prestudy.Model.{GcStats}
use networkdoctor_prestudy.Gc.{Timespec, gc}
use networkdoctor_prestudy.Event.{
  Event, ReadResult, EventError, event_reader_closed, read_failed, decode_failed, EventResult, ok,
  err, read_event,
}

-- One turn of the event loop: what the reader answers, and ctx.Err() != nil as ReadEvent and then the
-- loop itself see it.
pub record Turn : Type 0 where
  pub answer : ReadResult
  pub done_in_read : Bool
  pub done_in_loop : Bool

-- The lines that RunEventWorker logs, and whether it has returned.
pub data LogLine : Type 0 where
  anomaly : Event → LogLine
  failure : EventError → LogLine

abbrev is_reader_closed : EventError → Bool
is_reader_closed event_reader_closed = true
is_reader_closed _ = false

-- The branch on the result of ReadEvent: what is logged, or `none` for return.
unfoldable pub handle : Bool → EventResult → Option LogLine
handle done (ok evt) = some (anomaly evt)
handle done (err e) = if done || is_reader_closed e then none else some (failure e)

abbrev pub log_line : LogLine → List LogLine × Bool → List LogLine × Bool
log_line line (lines, returned) = (line ∷ lines, returned)

module _ (ip_string : List ℕ → String) where
  unfoldable pub run_event_worker : List Turn → List LogLine × Bool
  unfolding handle
  run_event_worker [] = ([], false)
  run_event_worker (turn ∷ turns) =
      let rest = run_event_worker turns in
      elim (handle turn.done_in_loop (read_event ip_string turn.done_in_read turn.answer)) [
        | none ↦ ([], true)
        | some line ↦ log_line line rest
      ]

-- What the select of RunGCWorker receives: the context's end, or a tick, with the clock and what the
-- two iterators yield then.
pub data Signal : Type 0 where
  done : Signal
  tick : Option Timespec → List (DnsKey × DnsPending) → List (FlowKey × UdpFlow) → Signal

-- `stats.DNSPendingDeleted > 0 || stats.UDPFlowsDeleted > 0`.
abbrev pub is_logged : GcStats → Bool
is_logged stats = ltb 0 stats.dns_pending_deleted || ltb 0 stats.udp_flows_deleted

pub record GcRun (m : BpfMaps) : Type 0 where
  pub objects : Objects m
  pub logged : List GcStats
  pub returned : Bool

module _ (m : BpfMaps) where
  abbrev pub log_stats : GcStats → GcRun m → GcRun m
  log_stats stats run = if is_logged stats then record run { logged = stats ∷ run.logged } else run

-- time.NewTicker panics unless the interval, the bit pattern of an int64, is positive.
abbrev pub ticker_panics : ℕ → Bool
ticker_panics interval = interval == 0 || leb (2 ^ 63) interval

module _ (m : BpfMaps) (dns_timeout udp_idle : ℕ) where
  -- The loop of RunGCWorker.
  unfoldable pub gc_turns : List Signal → Objects m → GcRun m
  gc_turns [] o = record { objects = o; logged = []; returned = false }
  gc_turns (done ∷ signals) o = record { objects = o; logged = []; returned = true }
  gc_turns (tick clock pending flows ∷ signals) o =
      let (o', stats) = gc m clock pending flows dns_timeout udp_idle o in
      log_stats m stats (gc_turns signals o')

  -- RunGCWorker; `none` is the panic of time.NewTicker.
  unfoldable pub run_gc_worker : ℕ → List Signal → Objects m → Option (GcRun m)
  unfolding gc_turns
  run_gc_worker interval signals o =
      if ticker_panics interval then none else some (gc_turns signals o)
