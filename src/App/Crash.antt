-- ===== src/App/Crash.antt =====
-- What a collection interval that is not positive does to a running agent.
use networkdoctor_prestudy.Base.{
  ◌≡◌, refl, ap, subst, Bool, true, false, List, [], ◌∷◌, if◌then◌else◌,
}
use networkdoctor_prestudy.Config.{Flags, parse_flags, options}
use networkdoctor_prestudy.Runtime.Monad.{Env, Trace, Resource, filter, ingress, egress}
use networkdoctor_prestudy.Runtime.{Runtime, ok, start}
use networkdoctor_prestudy.Runtime.Held.{held}
use networkdoctor_prestudy.Runtime.Cleanup.{Started, start-Started}
use networkdoctor_prestudy.Worker.{ticker_panics}
use networkdoctor_prestudy.App.{Web, run, finish, main}

-- The kernel closes the file descriptors of a process that has ended, and with them the maps, the
-- programs and the links; a TC filter belongs to the interface and stays.
abbrev survives : Resource → Bool
survives (filter d) = true
survives _ = false

abbrev pub survivors : List Resource → List Resource
survivors [] = []
survivors (x ∷ xs) = if survives x then x ∷ survivors xs else survivors xs

module _ (env : Env) (web : Web) where
  -- If Start succeeds on the flags, the interval is 0 or negative and the collector's goroutine gets to
  -- its ticker, the process ends with status 2, and both TC filters stay on the interface.
  pub main-crashes :
      (flags : Flags) (t : Trace) (rt : Runtime)
      → (start env (options (parse_flags flags)) t).0 ≡ ok rt
      → ticker_panics (parse_flags flags).gc_interval ≡ true
      → ((main env web flags true t).0 ≡ 2)
        × (survivors (held (main env web flags true t).1)
            ≡ filter egress ∷ filter ingress ∷ survivors (held t))
  unfolding main run finish
  main-crashes flags t rt e panics =
      let started = start env (options (parse_flags flags)) t in
      let s : Started env (held t) (ok rt, started.1) =
        subst (λ r. Started env (held t) (r, started.1)) e
          (start-Started env (options (parse_flags flags)) t) in
      rw (main, run, e, panics) (refl, ap survivors s.1)
