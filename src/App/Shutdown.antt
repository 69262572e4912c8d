-- ===== src/App/Shutdown.antt =====
-- What a run of the agent leaves behind.
use mathlib.Core.List.{reverse}
use networkdoctor_prestudy.Base.{
  ◌≡◌, refl, inl, inr, Bool, ◌&&◌, Bool-cases, none, some, List, [], ◌∷◌, ◌++◌,
}
use networkdoctor_prestudy.Config.{Config, options}
use networkdoctor_prestudy.Runtime.Monad.{Env, Trace, Resource, objects, reader}
use networkdoctor_prestudy.Runtime.{Runtime, StartError, Result, ok, err, start}
use networkdoctor_prestudy.Runtime.Held.{held}
use networkdoctor_prestudy.Runtime.Cleanup.{
  all_links, leaked, Started, start-Started, close_runtime_lem,
}
use networkdoctor_prestudy.Worker.{ticker_panics}
use networkdoctor_prestudy.App.{
  Web, serve, start_failed, Ended, returned, crashed, ended, Served, panics, returns, run, finish,
}

-- What the end of a run says is left: what a failed start leaves, all of it after a crash.
abbrev pub left : Ended → List Resource
left (returned (some (start_failed e))) = leaked e
left crashed = reader ∷ (reverse all_links ++ (objects ∷ []))
left _ = []

ended-left : (s : Served) → left (ended s) ≡ []
ended-left panics = refl
ended-left (returns none) = refl
ended-left (returns (some e)) = refl

module _ (env : Env) (web : Web) where
  finish-held :
      (cfg : Config) (ticks : Bool) (r : Result StartError Runtime) (t : Trace)
      (base : List Resource)
      → Started env base (r, t)
      → let (result, t') = finish env web cfg ticks r t in held t' ≡ left result ++ base
  unfolding finish
  finish-held cfg ticks (err e) t base h = h
  finish-held cfg ticks (ok rt) t base h =
      elim (Bool-cases (ticks && ticker_panics cfg.gc_interval)) [
        | inl e ↦ rw (finish, e) h.1
        | inr e ↦
            rw (finish, e, ended-left (serve web cfg.listen cfg.metrics_path))
              (close_runtime_lem env rt t base h).0
      ]

  -- However a run of the agent ends, all that it has acquired is closed again, also if Serve panics,
  -- but for two ends: a failed start leaves at most the ingress filter, and a crash of the
  -- collector's goroutine leaves everything.
  pub run-held :
      (cfg : Config) (ticks : Bool) (t : Trace)
      → let (result, t') = run env web cfg ticks t in held t' ≡ left result ++ held t
  unfolding run
  run-held cfg ticks t =
      finish-held cfg ticks (start env (options cfg) t).0 (start env (options cfg) t).1 (held t)
        (start-Started env (options cfg) t)
