-- ===== src/Runtime/Attached.antt =====
-- Where the filters stand after Start.
use Prim.Native.String.{String}
use networkdoctor_prestudy.Base.{ℕ, ◌≡◌, ◌≢◌, some}
use networkdoctor_prestudy.Runtime.Monad.{Direction, Env, Trace}
use networkdoctor_prestudy.Runtime.Filters.{Netlink, TrafficControl, filter_of}
use networkdoctor_prestudy.Runtime.Placed.{filters_after, place}
use networkdoctor_prestudy.Runtime.{Runtime, Result, ok, err}

module _ (kernel : TrafficControl) (nl : Netlink) (index : ℕ) (fds : Direction → ℕ)
    (distinct : nl.handle_min_ingress ≢ nl.handle_min_egress) (env : Env)
    (fs : kernel.Filters) where
  open kernel use {Filters, at_place, replaced, replaced_ne}

  -- Both filters stand at their places.
  abbrev Both : Trace → Type 0
  Both t =
      (d : Direction)
      → at_place (filters_after kernel nl index fds t fs) (place kernel nl index fds d)
        ≡ some (filter_of nl index fds d)

  -- They do, if a call has succeeded.
  abbrev OnSuccess : {E A : Type 0} → Result E A × Trace → Type 0
  OnSuccess (ok a, t) = Both t
  OnSuccess (err e, t) = Unit
