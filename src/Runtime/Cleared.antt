-- ===== src/Runtime/Cleared.antt =====
-- What Close leaves of the two filters.
use networkdoctor_prestudy.Base.{
  ℕ, ◌≡◌, ◌≢◌, sym, ◌∙◌, subst, true, Option, none, some, List, ◌∷◌, All,
}
use networkdoctor_prestudy.Runtime.Monad.{
  Direction, ingress, egress, Env, Err, Trace, Resource, filter, close, call,
}
use networkdoctor_prestudy.Runtime.Filters.{Netlink, Place, TrafficControl, filter_of, places_apart}
use networkdoctor_prestudy.Runtime.Placed.{Deletes, filters_after, place}
use networkdoctor_prestudy.Runtime.{
  Runtime, ok, close_runtime, close_once, close_all, close_each, close_resource,
}
use networkdoctor_prestudy.Runtime.Cleanup.{all_links, Started}

module _ (kernel : TrafficControl) (nl : Netlink) (index : ℕ) (fds : Direction → ℕ)
    (distinct : nl.handle_min_ingress ≢ nl.handle_min_egress) (env : Env) where
  open kernel use {Filters, at_place, deleted, deleted_ne}

  abbrev pub after : Trace → Filters → Filters
  after = filters_after kernel nl index fds

  abbrev pub own : Direction → Place
  own = place kernel nl index fds

  -- The two deletions of Close, the later one first.
  both_deleted :
      (r r' : Option Err) (t : Trace) (fs : Filters) (d : Direction)
      → Deletes (close (filter ingress), r)
      → Deletes (close (filter egress), r')
      → at_place (after ((close (filter ingress), r) ∷ (close (filter egress), r') ∷ t) fs) (own d)
        ≡ none
  both_deleted (some e) r' t fs d done done' = elim done [ ]
  both_deleted none (some e) t fs d done done' = elim done' [ ]
  both_deleted none none t fs ingress done done' = deleted _ (filter_of nl index fds ingress)
  both_deleted none none t fs egress done done' =
      deleted_ne _ (filter_of nl index fds ingress) (own egress)
        (λ e. places_apart kernel nl index fds distinct (sym e))
      ∙ deleted _ (filter_of nl index fds egress)

  abbrev started_runtime : Runtime
  started_runtime = record { links = all_links; has_reader = true; close_err = none }

  started-clears :
      (t : Trace) (fs : Filters) (d : Direction)
      → All Deletes (close_runtime env started_runtime t).1
      → at_place (after (close_runtime env started_runtime t).1 fs) (own d) ≡ none
  unfolding close_runtime close_once close_all close_each close_resource call
  started-clears t fs d done = both_deleted _ _ t fs d done.1.1.1.1.1.1.1.0 done.1.1.1.1.1.1.1.1.0

  -- If no deletion of a filter fails, the first Close of a started runtime leaves nothing at the places
  -- of the two filters.
  pub close_runtime-clears :
      (rt : Runtime) (t : Trace) (base : List Resource) (fs : Filters) (d : Direction)
      → Started env base (ok rt, t)
      → All Deletes (close_runtime env rt t).1
      → at_place (after (close_runtime env rt t).1 fs) (own d) ≡ none
  close_runtime-clears rt t base fs d (e, h) =
      subst
        (λ x.
          All Deletes (close_runtime env x t).1
          → at_place (after (close_runtime env x t).1 fs) (own d) ≡ none)
        (sym e) (started-clears t fs d)
