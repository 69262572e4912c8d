-- ===== src/App.antt =====
-- internal/app/app.go, internal/metrics/server.go and cmd/networkdoctor-agent/main.go: one run of the
-- agent, to the end of its process. Of the two goroutines that run beside it, only how the start of
-- the collector can end the process appears. Logging is left out.
pub mod Shutdown
pub mod Filters
pub mod Crash
use Prim.Native.String.{String}
use networkdoctor_prestudy.Base.{
  ℕ, ◌*◌, Bool, true, false, not, ◌&&◌, Option, none, some, List, if◌then◌else◌,
}
use networkdoctor_prestudy.Config.{Config, Flags, parse_flags, options, second}
use networkdoctor_prestudy.Runtime.Monad.{Env, Err, M, pure, ◌>>=◌, ◌>>◌}
use networkdoctor_prestudy.Runtime.{Runtime, StartError, Result, ok, err, start, close_runtime}
use networkdoctor_prestudy.Worker.{ticker_panics}
use networkdoctor_prestudy.Collector.{Desc, describe}

-- An error of the HTTP server; errors.Is tells http.ErrServerClosed.
pub record ServeError : Type 0 where
  pub server_closed : Bool
  pub cause : Err

-- Which case the select of Serve takes: the context is done, and what Shutdown answers within a
-- timeout, or ListenAndServe has returned.
pub data Serving : Type 0 where
  context_done : (ℕ → Option ServeError) → Serving
  listen_returned : ServeError → Serving

-- The fields of the http.Server that Serve sets, beside the handler.
pub record Server : Type 0 where
  pub addr : String
  pub read_header_timeout : ℕ

-- The Prometheus registry, net/http and the signals: whether the registry takes the collector's
-- descriptors, whether the mux takes a pattern, and what comes of a server.
pub record Web : Type 0 where
  pub registers : List Desc → Bool
  pub accepts_pattern : String → Bool
  pub serving : Server → Serving

-- MustRegister and Handle panic where the registry or the mux refuses.
pub data Served : Type 0 where
  panics : Served
  returns : Option ServeError → Served

-- The select.
unfoldable pub await : Serving → Option ServeError
await (context_done shutdown) = shutdown (5 * second)
await (listen_returned e) = if e.server_closed then none else some e

unfoldable pub serve : Web → String → String → Served
unfolding await
serve web listen metrics_path =
    if not (web.registers describe)
    then panics
    else (if not (web.accepts_pattern metrics_path)
        then panics
        else returns
            (await (web.serving (record { addr = listen; read_header_timeout = 5 * second }))))

pub data RunError : Type 0 where
  start_failed : StartError → RunError
  serve_failed : ServeError → RunError

-- How a run ends: Run returns, or its goroutine panics, or that of the collector does, which ends the
-- process at once, without the deferred calls of the others.
pub data Ended : Type 0 where
  returned : Option RunError → Ended
  panicked : Ended
  crashed : Ended

abbrev pub ended : Served → Ended
ended panics = panicked
ended (returns none) = returned none
ended (returns (some e)) = returned (some (serve_failed e))

module _ (env : Env) (web : Web) where
  -- app.Run on the answer of bpf.Start. `ticks` says whether the collector's goroutine gets to its
  -- ticker before Serve ends. The deferred Close runs after Serve, also if that panics.
  unfoldable pub finish : Config → Bool → Result StartError Runtime → M Ended
  unfolding serve
  finish cfg ticks (err e) = pure (returned (some (start_failed e)))
  finish cfg ticks (ok rt) =
      if ticks && ticker_panics cfg.gc_interval
      then pure crashed
      else (do close_runtime env rt; pure (ended (serve web cfg.listen cfg.metrics_path)))

  unfoldable pub run : Config → Bool → M Ended
  unfolding finish
  run cfg ticks = do started ← start env (options cfg); finish cfg ticks started

  -- main, and the exit status of the process: log.Fatalf exits with 1, a panic with 2.
  unfoldable pub main : Flags → Bool → M ℕ
  unfolding run
  main flags ticks = do
    result ← run (parse_flags flags) ticks
    pure (elim result [ returned none ↦ 0 | returned (some e) ↦ 1 | panicked ↦ 2 | crashed ↦ 2 ])
