-- ===== src/Worker/Loops.antt =====
-- What the event loop logs of the events that it is handed.
use Prim.Native.String.{String}
use networkdoctor_prestudy.Base.{ℕ, ◌≡◌, refl, ap, true, false, List, [], ◌∷◌, ◌++◌, map, All}
use networkdoctor_prestudy.Kernel.{NdEvent}
use networkdoctor_prestudy.Event.{event_bytes, to_event, sample, failed, read_event}
use networkdoctor_prestudy.Event.RoundTrip.{InRange, read_event-event_bytes}
use networkdoctor_prestudy.Worker.{Turn, anomaly, log_line, run_event_worker}

-- A turn in which the reader delivers an event that a hook has submitted.
abbrev pub delivery : NdEvent → Turn
delivery e = record { answer = sample (event_bytes e); done_in_read = false; done_in_loop = false }

-- A turn in which the reader has been closed.
abbrev pub closing : Turn
closing = record { answer = failed true; done_in_read = false; done_in_loop = false }

module _ (ip_string : List ℕ → String) where
  -- The events that the hooks have submitted before the reader is closed, each in the ranges of its C
  -- types, are logged in their order, one line each; then the worker returns, whatever would
  -- come after.
  pub run_event_worker-deliveries :
      (es : List NdEvent) (turns : List Turn)
      → All InRange es
      → run_event_worker ip_string (map delivery es ++ (closing ∷ turns))
        ≡ (map (λ e. anomaly (to_event ip_string e)) es, true)
  unfolding run_event_worker
  run_event_worker-deliveries [] turns h = unfold read_event in refl
  run_event_worker-deliveries (e ∷ es) turns h =
      rw (run_event_worker, read_event-event_bytes ip_string false e h.0)
        (ap (log_line (anomaly (to_event ip_string e))) (run_event_worker-deliveries es turns h.1))
