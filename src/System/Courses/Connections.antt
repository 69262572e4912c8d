-- ===== src/System/Courses/Connections.antt =====
-- The connections that are open, after any course of hooks and collections: nd_tcp_conn_life as a
-- table from the addresses of the sockets to the times at which they came to ESTABLISHED.
use networkdoctor_prestudy.Base.{
  ℕ, ◌≡◌, refl, sym, ap, ◌∙◌, arith, true, false, not, Bool, ◌&&◌, Option, none, some, List, [],
  ◌∷◌, ◌++◌, if◌then◌else◌, ℕ_discrete, Option-cases, inl, inr,
}
use networkdoctor_prestudy.Base.Int.{ℤ}
use mathlib.Core.Option
use mathlib.Core.Path.{fun_ext}
use networkdoctor_prestudy.Platform.{BpfMaps, MapLaws, NeverFull, lookup-delete_gone}
use networkdoctor_prestudy.Kernel.{Objects, FlowKey, TcpConnLife}
use networkdoctor_prestudy.Kernel.Helpers.{
  Hook, Sock, is_state, tcp_established, tcp_close, nd_is_syn_state, nd_is_ipv4_sock,
  nd_flow4_from_sock, zero_flow, tcp_connect_fail,
}
use networkdoctor_prestudy.Kernel.Update.{nd_inc_tcp_counter, nd_submit_event}
use networkdoctor_prestudy.Kernel.Tcp.{
  ipproto_tcp, nd_dir_unknown, state_u64, count_transition, enter_established, leave_established,
  nd_inet_sock_set_state,
}
use networkdoctor_prestudy.Kernel.Tcp.Connections.{leave_established-found, count_transition-frame}
use networkdoctor_prestudy.Kernel.Sched.{nd_sched_wakeup, nd_sched_wakeup_new}
use networkdoctor_prestudy.System.{
  Step, inet_sock_set_state, tcp_rcv_established, tcp_retransmit_skb, tc, sched_wakeup,
  sched_wakeup_new, sched_switch, collection, Reach, fresh, later,
}
use networkdoctor_prestudy.System.Net.{
  rcv_established-SameKept, retransmit-SameKept, switch-SameConns, wakeup-SameConns,
}
use networkdoctor_prestudy.System.Table.{replays, replays-append, set_at, set_at-eq}
use networkdoctor_prestudy.System.Courses.Frames.{tc-locals, gc-locals}

abbrev pub Table : Type 0
Table = ℕ → Option ℕ

-- A socket is established at a time, or no longer.
pub data Op : Type 0 where
  establish : ℕ → ℕ → Op
  leave : ℕ → Op

abbrev pub apply : Op → Table → Table
apply (establish address now) t = set_at ℕ_discrete t address (some now)
apply (leave address) t = set_at ℕ_discrete t address none

abbrev pub replay : List Op → Table → Table
replay = replays apply

-- What a change of state does: only IPv4 sockets are followed.
abbrev pub state_ops : Hook → Option Sock → ℤ → ℤ → List Op
state_ops h none a b = []
state_ops h (some sk) a b =
    if not (nd_is_ipv4_sock sk)
    then []
    else (if is_state b tcp_established
        then establish sk.address (h.ktime 0) ∷ []
        else (if is_state a tcp_established then leave sk.address ∷ [] else []))

module _ {m : BpfMaps} where
  abbrev pub step_conn_ops : {o o' : Objects m} → Step m o o' → List Op
  step_conn_ops (inet_sock_set_state h sk a b _ _ _ _) = state_ops h sk a b
  step_conn_ops _ = []

  abbrev pub conn_ops : {o o' : Objects m} → Reach m o o' → List Op
  conn_ops fresh = []
  conn_ops (later r st) = conn_ops r ++ step_conn_ops st

abbrev pub start_of : TcpConnLife → ℕ
start_of life = life.start_ns

module _ (m : BpfMaps) (laws : MapLaws m) (full : NeverFull m ℕ ℕ_discrete TcpConnLife) where
  open m use {lookup, update, delete}

  abbrev pub table : Objects m → Table
  table o address = Option.map start_of (lookup o.nd_tcp_conn_life address)

  -- The table after a state, as the operations make it of the table before.
  abbrev Follows : List Op → Objects m → Objects m → Type 0
  Follows ops o o' = (address : ℕ) → table o' address ≡ replay ops (table o) address

  same-Follows : (o o' : Objects m) → o'.nd_tcp_conn_life ≡ o.nd_tcp_conn_life → Follows [] o o'
  same-Follows o o' e address = ap (λ s. Option.map start_of (lookup s address)) e

  if-Follows :
      (t : Bool) (xs ys : List Op) (o x y : Objects m)
      → Follows xs o x
      → Follows ys o y
      → Follows (if t then xs else ys) o (if t then x else y)
  if-Follows true xs ys o x y f g = f
  if-Follows false xs ys o x y f g = g

  either-Follows :
      (t : Bool) (o x y : Objects m)
      → Follows [] o x
      → Follows [] o y
      → Follows [] o (if t then x else y)
  either-Follows true o x y f g = f
  either-Follows false o x y f g = g

  -- What comes after the counting of the change.
  counted-Follows :
      (ops : List Op) (h : Hook) (a b : ℤ) (o o' : Objects m)
      → Follows ops (count_transition m h a b o) o'
      → Follows ops o o'
  counted-Follows ops h a b o o' f address =
      f address
      ∙ ap (λ s. replay ops (λ j. Option.map start_of (lookup s j)) address)
          (count_transition-frame m h a b o).0

  enter-Follows :
      (h : Hook) (sk : Sock) (flow : FlowKey) (b : ℤ) (o : Objects m)
      → Follows (establish sk.address (h.ktime 0) ∷ []) o (enter_established m h sk flow b o)
  unfolding enter_established
  enter-Follows h sk flow b o =
      set_at-eq ℕ_discrete (table o) sk.address (some (h.ktime 0))
        (table (enter_established m h sk flow b o))
        (ap (Option.map start_of) (full.update_self o.nd_tcp_conn_life sk.address _))
        (λ j ne. ap (Option.map start_of) (full.update_ne o.nd_tcp_conn_life sk.address j _ ne))

  leave-Follows :
      (h : Hook) (sk : Sock) (have_flow : Bool) (flow : FlowKey) (o : Objects m)
      → Follows (leave sk.address ∷ []) o (leave_established m h sk have_flow flow o)
  unfolding leave_established
  leave-Follows h sk have_flow flow o = elim (Option-cases (lookup o.nd_tcp_conn_life sk.address)) [
    | inl e ↦
        rw (leave_established, e)
          (set_at-eq ℕ_discrete (table o) sk.address none (table o) (ap (Option.map start_of) e)
            (λ j ne. refl))
    | inr (life, e) ↦
        let gone = (leave_established-found m h sk have_flow flow o life e).0 in
        set_at-eq ℕ_discrete (table o) sk.address none
          (table (leave_established m h sk have_flow flow o))
          (ap (λ s. Option.map start_of (lookup s sk.address)) gone
            ∙ ap (Option.map start_of) (
                lookup-delete_gone m ℕ ℕ_discrete TcpConnLife laws full.never_fails
                  o.nd_tcp_conn_life sk.address))
          (λ j ne.
            ap (λ s. Option.map start_of (lookup s j)) gone
            ∙ ap (Option.map start_of) (laws.lookup-delete_ne o.nd_tcp_conn_life sk.address j ne))
  ]

  failed-life :
      (h : Hook) (have_flow : Bool) (flow : FlowKey) (value aux : ℕ) (o : Objects m)
      → (if have_flow
          then nd_submit_event m h 2 tcp_connect_fail
              (some flow)
              value
              aux
              (nd_inc_tcp_counter m h 3 o)
          else nd_inc_tcp_counter m h 3 o).nd_tcp_conn_life
        ≡ o.nd_tcp_conn_life
  unfolding nd_submit_event nd_inc_tcp_counter
  failed-life h have_flow flow value aux o = ground arith

  set_state-Follows :
      (h : Hook) (sk : Option Sock) (a b : ℤ) (o : Objects m)
      → Follows (state_ops h sk a b) o (nd_inet_sock_set_state m h sk a b o)
  unfolding nd_inet_sock_set_state
  set_state-Follows h none a b o k = refl
  set_state-Follows h (some sk) a b o k =
      let o1 = count_transition m h a b o in
      let (have_flow, flow) = nd_flow4_from_sock (some sk) ipproto_tcp nd_dir_unknown zero_flow in
      let up = enter_established m h sk flow b o1 in
      let down = leave_established m h sk have_flow flow o1 in
      let failed : Objects m =
        if have_flow
        then nd_submit_event m h 2 tcp_connect_fail (some flow) (state_u64 a) (state_u64 b)
            (nd_inc_tcp_counter m h 3 o1)
        else nd_inc_tcp_counter m h 3 o1 in
      let other : Objects m = if nd_is_syn_state a && is_state b tcp_close then failed else o1 in
      let not_up : Objects m = if is_state a tcp_established then down else other in
      let downs = if is_state a tcp_established then leave sk.address ∷ [] else [] in
      let ups = establish sk.address (h.ktime 0) ∷ [] in
      let after : Follows [] o o1 = same-Follows o o1 (count_transition-frame m h a b o).0 in
      let other-Follows : Follows [] o other =
        either-Follows (nd_is_syn_state a && is_state b tcp_close) o failed o1
          (counted-Follows [] h a b o failed
            (same-Follows o1 failed (failed-life h have_flow flow (state_u64 a) (state_u64 b) o1)))
          after in
      let not_up-Follows : Follows downs o not_up =
        if-Follows (is_state a tcp_established) (leave sk.address ∷ []) [] o down other
          (counted-Follows (leave sk.address ∷ []) h a b o down
            (leave-Follows h sk have_flow flow o1))
          other-Follows in
      if-Follows (not (nd_is_ipv4_sock sk)) [] (if is_state b tcp_established then ups else downs) o
        o (if is_state b tcp_established then up else not_up) (λ j. refl)
        (if-Follows (is_state b tcp_established) ups downs o up not_up
          (counted-Follows ups h a b o up (enter-Follows h sk flow b o1)) not_up-Follows)
        k

  Step-Follows : {o o' : Objects m} (st : Step m o o') → Follows (step_conn_ops st) o o'
  unfolding nd_sched_wakeup nd_sched_wakeup_new
  Step-Follows {o} {o'} (inet_sock_set_state h sk a b _ _ _ _) = set_state-Follows h sk a b o
  Step-Follows {o} {o'} (tcp_rcv_established h sk _ _) =
      same-Follows o o' (ap (λ n. n.2) (rcv_established-SameKept m h sk o))
  Step-Follows {o} {o'} (tcp_retransmit_skb h sk _ _) =
      same-Follows o o' (ap (λ n. n.2) (retransmit-SameKept m h sk o))
  Step-Follows {o} {o'} (tc h skb direction _ _ e) =
      same-Follows o o' (ap (λ n. n.1) (tc-locals m h skb direction o o' e))
  Step-Follows {o} {o'} (sched_wakeup h p _ _) =
      same-Follows o o' (ap (λ n. n.1) (wakeup-SameConns m h p o))
  Step-Follows {o} {o'} (sched_wakeup_new h p _ _) =
      same-Follows o o' (ap (λ n. n.1) (wakeup-SameConns m h p o))
  Step-Follows {o} {o'} (sched_switch h p _ _) =
      same-Follows o o' (ap (λ n. n.1) (switch-SameConns m h p o))
  Step-Follows {o} {o'} (collection clock pending flows dns_timeout udp_idle) =
      same-Follows o o' (ap (λ n. n.1) (gc-locals m clock pending flows dns_timeout udp_idle o))

  -- If the map of the connections is never full, any course of hooks on any packets, sockets and tasks
  -- and of collections, in any order, takes the map from table to table, under every address, as its
  -- changes of state do: an IPv4 socket that comes to ESTABLISHED, from any state, gets the time of it
  -- as its start, and one that leaves ESTABLISHED for another state has no start.
  pub Reach-conn_table :
      {o o' : Objects m} (r : Reach m o o') (address : ℕ)
      → table o' address ≡ replay (conn_ops r) (table o) address
  Reach-conn_table fresh address = refl
  Reach-conn_table {o} (later r st) address =
      Step-Follows st address
      ∙ ap (λ t. replay (step_conn_ops st) t address) (fun_ext (Reach-conn_table r))
      ∙ ap (λ (t : Table). t address)
          (sym (replays-append apply (conn_ops r) (step_conn_ops st) (table o)))
