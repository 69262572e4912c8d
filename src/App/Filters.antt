-- ===== src/App/Filters.antt =====
-- What a run of the agent leaves of the filters of the interfaces.
use mathlib.Core.List.{Memᴰ, append-nil}
use networkdoctor_prestudy.Base.{
  ℕ, ◌≡◌, ◌≢◌, ◌⊎◌, ◌∙◌, subst, Bool, ◌&&◌, Bool-cases, Option, none, some, List, [], All, inl, inr,
}
use networkdoctor_prestudy.Config.{Config, options}
use networkdoctor_prestudy.Runtime.Monad.{Direction, Env, Trace, Resource, filter}
use networkdoctor_prestudy.Runtime.Filters.{Netlink, BpfFilter, Place, TrafficControl}
use networkdoctor_prestudy.Runtime.Held.{held}
use networkdoctor_prestudy.Runtime.Placed.{
  Deletes, filters_after, place, filters_after-other, filters_after-Trail,
}
use networkdoctor_prestudy.Runtime.{Runtime, Result, ok, err, StartError, start}
use networkdoctor_prestudy.Runtime.Cleanup.{Started, start-Started}
use networkdoctor_prestudy.Runtime.Cleared.{close_runtime-clears}
use networkdoctor_prestudy.Worker.{ticker_panics}
use networkdoctor_prestudy.App.{
  Web, serve, Served, panics, returns, Ended, returned, crashed, ended, start_failed, run, finish,
}
use networkdoctor_prestudy.App.Shutdown.{left, run-held}

-- What a run leaves at the place of a filter: nothing, or what was there, if Start fails or the process
-- crashes; nothing, if the server has served.
abbrev pub Cleared : Ended → Option BpfFilter → Option BpfFilter → Type 0
Cleared (returned (some (start_failed e))) before after = (after ≡ none) ⊎ (after ≡ before)
Cleared crashed before after = (after ≡ none) ⊎ (after ≡ before)
Cleared _ before after = after ≡ none

ended-Cleared :
    (s : Served) (before after : Option BpfFilter) → after ≡ none → Cleared (ended s) before after
ended-Cleared panics before after e = e
ended-Cleared (returns none) before after e = e
ended-Cleared (returns (some x)) before after e = e

module _ (kernel : TrafficControl) (nl : Netlink) (index : ℕ) (fds : Direction → ℕ)
    (distinct : nl.handle_min_ingress ≢ nl.handle_min_egress) (env : Env) (web : Web) where
  open kernel use {Filters, at_place}

  abbrev pub after : Trace → Filters → Filters
  after = filters_after kernel nl index fds

  abbrev pub own : Direction → Place
  own = place kernel nl index fds

  finish-Cleared :
      (cfg : Config) (ticks : Bool) (r : Result StartError Runtime) (t : Trace)
      (base : List Resource) (fs : Filters) (d : Direction)
      → Started env base (r, t)
      → let (result, t') = finish env web cfg ticks r t in
        All Deletes t'
        → (at_place (after t' fs) (own d) ≡ none)
          ⊎ (at_place (after t' fs) (own d) ≡ at_place fs (own d))
        → Cleared result (at_place fs (own d)) (at_place (after t' fs) (own d))
  unfolding finish
  finish-Cleared cfg ticks (err e) t base fs d h = λ done either. either
  finish-Cleared cfg ticks (ok rt) t base fs d h =
      elim (Bool-cases (ticks && ticker_panics cfg.gc_interval)) [
        | inl e ↦ rw (finish, e) (λ done either. either)
        | inr e ↦
            rw (finish, e)
              (λ done either.
                ended-Cleared (serve web cfg.listen cfg.metrics_path) _ _
                  (close_runtime-clears kernel nl index fds distinct env rt t base fs d h done))
      ]

-- A run of the agent, however it ends, in which no deletion of a filter fails: if the parents of the two
-- filters differ, then at the place of each filter that the end does not say is left there is nothing
-- if the server has served, also if it panics, and nothing or what stood there before the run if Start
-- fails or the process crashes; and every other filter of any interface is as it was.
pub run-filters_after :
    (kernel : TrafficControl) (nl : Netlink) (index : ℕ) (fds : Direction → ℕ)
    → nl.handle_min_ingress ≢ nl.handle_min_egress
    → (env : Env) (web : Web) (cfg : Config) (ticks : Bool) (fs : kernel.Filters) (d : Direction)
      (q : Place)
    → All Deletes (run env web cfg ticks []).1
    → ¬ Memᴰ (filter d) (left (run env web cfg ticks []).0)
    → ((e : Direction) → place kernel nl index fds e ≢ q)
    → let (result, t) = run env web cfg ticks [] in
      let after = filters_after kernel nl index fds t fs in
      let own = place kernel nl index fds d in
      Cleared result (kernel.at_place fs own) (kernel.at_place after own)
      × (kernel.at_place after q ≡ kernel.at_place fs q)
unfolding run
run-filters_after kernel nl index fds distinct env web cfg ticks fs d q done unleft other =
    let t : Trace = (run env web cfg ticks []).1 in
    let all_held : held t ≡ left (run env web cfg ticks []).0 =
      run-held env web cfg ticks [] ∙ append-nil _ in
    let (started, t1) = start env (options cfg) [] in
    (
      finish-Cleared kernel nl index fds distinct env web cfg ticks started t1 [] fs d
          (start-Started env (options cfg) []) done
          (elim (filters_after-Trail kernel nl index fds distinct d t fs done) [
            | inl m ↦ absurd (unleft (subst (λ xs. Memᴰ (filter d) xs) all_held m))
            | inr rest ↦ rest
          ]),
      filters_after-other kernel nl index fds t fs q other,
    )
