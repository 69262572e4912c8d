-- ===== src/Tests/Filters.antt =====
-- The two filters on an interface that holds one already.
use networkdoctor_prestudy.Base.{
  ℕ, ◌*◌, ◌+◌, ◌≡◌, ◌≢◌, refl, ap, arith, Bool, true, false, Option, none, some, [], ◌∷◌, All,
}
use networkdoctor_prestudy.Runtime.Monad.{Direction, ingress, egress, filter, close, Trace}
use networkdoctor_prestudy.Runtime.{start, close_runtime}
use networkdoctor_prestudy.Runtime.Placed.{Deletes, filters_after, place}
use networkdoctor_prestudy.Config.{parse_flags}
use networkdoctor_prestudy.App.{run}
use networkdoctor_prestudy.App.Filters.{run-filters_after}
use networkdoctor_prestudy.Tests.Agent.{all_succeeds, web, defaults}
use networkdoctor_prestudy.Runtime.Filters.{
  Netlink, Place, Place-discrete, BpfFilter, TrafficControl, filter_of,
}
use networkdoctor_prestudy.Tests.Maps.{put, put-same, put-other}

abbrev netlink : Netlink
netlink = record {
  make_handle = λ major minor. major * 65536 + minor;
  handle_clsact = 1;
  handle_min_ingress = 2;
  handle_min_egress = 3;
  eth_p_all = 4;
}

abbrev kernel : TrafficControl
kernel = record {
  Filters = Place → Option BpfFilter;
  at_place = λ fs p. fs p;
  replace_filter = λ f fs. put Place-discrete fs f.place (some f);
  delete_filter = λ f fs. put Place-discrete fs f.place none;
  replaced = λ fs f. put-same Place-discrete fs f.place (some f);
  replaced_ne = λ fs f q ne. put-other Place-discrete fs f.place q (some f) ne;
  deleted = λ fs f. put-same Place-discrete fs f.place none;
  deleted_ne = λ fs f q ne. put-other Place-discrete fs f.place q none ne;
}

abbrev fds : Direction → ℕ
fds ingress = 7
fds egress = 8

abbrev in_filter : BpfFilter
in_filter = filter_of netlink 2 fds ingress

-- The same place on another interface.
abbrev elsewhere : Place
elsewhere = record in_filter.place { link_index = 9 }

abbrev other_filter : BpfFilter
other_filter = record in_filter { place = elsewhere; fd = 30 }

abbrev filters : Place → Option BpfFilter
filters = put Place-discrete (λ _. none) elsewhere (some other_filter)

parents_differ : netlink.handle_min_ingress ≢ netlink.handle_min_egress
parents_differ e = omega (arith, e)

elsewhere_apart : (d : Direction) → place kernel netlink 2 fds d ≢ elsewhere
unfolding filter_of
elsewhere_apart ingress e = omega (arith, ap (λ (p : Place). p.link_index) e)
elsewhere_apart egress e = omega (arith, ap (λ (p : Place). p.link_index) e)

-- A run that a signal ends, in which every call succeeds.
abbrev succeeded : Trace → Bool
succeeded [] = true
succeeded ((c, none) ∷ t) = succeeded t
succeeded ((c, some e) ∷ t) = false

All-Deletes : (t : Trace) → succeeded t ≡ true → All Deletes t
All-Deletes [] ok = tt
All-Deletes ((close (filter d), none) ∷ t) ok = (tt, All-Deletes t ok)
All-Deletes ((c, none) ∷ t) ok = (tt, All-Deletes t ok)
All-Deletes ((c, some e) ∷ t) ok = ground (arith, ok)

run-filters_after_example :
    let after =
      filters_after kernel netlink 2 fds (run all_succeeds web defaults true []).1 filters in
    let own = place kernel netlink 2 fds egress in
    (after own ≡ none) × (after elsewhere ≡ filters elsewhere)
unfolding run start close_runtime networkdoctor_prestudy.Runtime.Monad.call parse_flags
run-filters_after_example =
    run-filters_after kernel netlink 2 fds parents_differ all_succeeds web defaults true filters
      egress elsewhere
      (unfold run start close_runtime networkdoctor_prestudy.Runtime.Monad.call parse_flags in
        All-Deletes (run all_succeeds web defaults true []).1 refl)
      (unfold run start close_runtime networkdoctor_prestudy.Runtime.Monad.call parse_flags in
        λ m. elim m [ ])
      elsewhere_apart
