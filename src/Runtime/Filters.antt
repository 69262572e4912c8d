-- ===== src/Runtime/Filters.antt =====
-- internal/bpf/tc.go: the qdisc and the two filters that attachTC asks netlink for, and what replacing
-- and deleting them does to the filters of an interface.
use Prim.Native.String.{String}
use networkdoctor_prestudy.Base.{ℕ, ◌≡◌, ◌≢◌, sym, ap, Bool, true, Option, none, some, ℕ_discrete}
use networkdoctor_prestudy.Runtime.Monad.{Direction, ingress, egress}

-- The constants and MakeHandle of the netlink package, and unix.ETH_P_ALL.
pub record Netlink : Type 0 where
  pub make_handle : ℕ → ℕ → ℕ
  pub handle_clsact : ℕ
  pub handle_min_ingress : ℕ
  pub handle_min_egress : ℕ
  pub eth_p_all : ℕ

pub record Qdisc : Type 0 where
  pub link_index : ℕ
  pub handle : ℕ
  pub parent : ℕ

-- A filter's place on the interfaces: the fields by which the kernel tells filters apart.
pub record Place : Type 0 where
  pub link_index : ℕ
  pub parent : ℕ
  pub handle : ℕ
  pub protocol : ℕ
  pub priority : ℕ

pub record BpfFilter : Type 0 where
  pub place : Place
  pub fd : ℕ
  pub name : String
  pub direct_action : Bool

pub Place-discrete : Discrete Place
Place-discrete = hlevel ℕ_discrete

module _ (nl : Netlink) where
  -- The qdisc that attachTC adds.
  abbrev pub clsact : ℕ → Qdisc
  clsact index = record {
    link_index = index;
    handle = nl.make_handle 0xffff 0;
    parent = nl.handle_clsact;
  }

  unfoldable pub tc_filter : ℕ → ℕ → ℕ → String → ℕ → BpfFilter
  tc_filter link_index parent priority name fd = record {
    place = record {
      link_index = link_index;
      parent = parent;
      handle = nl.make_handle 0 priority;
      protocol = nl.eth_p_all;
      priority = priority;
    };
    fd = fd;
    name = name;
    direct_action = true;
  }

  -- The two filters of attachTC, on the file descriptors of the two programs.
  unfoldable pub filter_of : ℕ → (Direction → ℕ) → Direction → BpfFilter
  unfolding tc_filter
  filter_of index fds ingress =
      tc_filter index nl.handle_min_ingress 1 "nd_tc_ingress" (fds ingress)
  filter_of index fds egress = tc_filter index nl.handle_min_egress 1 "nd_tc_egress" (fds egress)

-- What the traffic control of the kernel does, as far as the program relies on it: replacing a filter
-- sets the filter at its place, deleting one clears its place, and neither touches another place.
pub record TrafficControl : Type 1 where
  pub Filters : Type 0
  pub at_place : Filters → Place → Option BpfFilter
  pub replace_filter : BpfFilter → Filters → Filters
  pub delete_filter : BpfFilter → Filters → Filters
  pub replaced : (fs : Filters) (f : BpfFilter) → at_place (replace_filter f fs) f.place ≡ some f
  pub replaced_ne :
      (fs : Filters) (f : BpfFilter) (q : Place)
      → f.place ≢ q
      → at_place (replace_filter f fs) q ≡ at_place fs q
  pub deleted : (fs : Filters) (f : BpfFilter) → at_place (delete_filter f fs) f.place ≡ none
  pub deleted_ne :
      (fs : Filters) (f : BpfFilter) (q : Place)
      → f.place ≢ q
      → at_place (delete_filter f fs) q ≡ at_place fs q

module _ (kernel : TrafficControl) (nl : Netlink) (index : ℕ) (fds : Direction → ℕ) where
  open kernel use {
    Filters, at_place, replace_filter, delete_filter, replaced, replaced_ne, deleted, deleted_ne,
  }

  abbrev pub place_of : Direction → Place
  place_of d = (filter_of nl index fds d).place

  pub places_apart :
      nl.handle_min_ingress ≢ nl.handle_min_egress → place_of egress ≢ place_of ingress
  unfolding filter_of
  places_apart ne e = ne (sym (ap (λ (p : Place). p.parent) e))
