-- ===== src/System/Courses/Lives.antt =====
-- The life of a connection, with anything else between its beginning and its end.
use networkdoctor_prestudy.Base.{
  ℕ, ◌≡◌, ◌≢◌, refl, sym, ap, ◌∙◌, arith, true, false, Option, some, none, All, ℕ_discrete, ap₂,
  ◌&&◌, ltb,
}
use networkdoctor_prestudy.Base.Int.{ℤ, pos}
use mathlib.Core.Option
use mathlib.Core.Option.{some-injective}
use networkdoctor_prestudy.Platform.{BpfMaps, MapLaws, NeverFull, lookup-delete_gone}
use networkdoctor_prestudy.Kernel.{Objects, TcpConnLife, NdConfig}
use networkdoctor_prestudy.Kernel.Helpers.{
  Hook, Sock, is_state, tcp_established, nd_get_config, nd_is_ipv4_sock,
}
use networkdoctor_prestudy.Kernel.Tcp.{count_transition, nd_inet_sock_set_state}
use networkdoctor_prestudy.Kernel.Tcp.Connections.{
  count_closed, is_short, leave_established-found, count_transition-frame, opened_life, closed_by,
}
use networkdoctor_prestudy.Kernel.Udp.{micros_since}
use networkdoctor_prestudy.System.{Reach}
use networkdoctor_prestudy.System.Table.{replays-keep, set_at-other}
use networkdoctor_prestudy.System.Courses.Connections.{
  Op, establish, leave, Table, apply, table, start_of, conn_ops, Reach-conn_table,
}

-- An operation on another socket.
abbrev pub Spares : ℕ → Op → Type 0
Spares address (establish a now) = a ≢ address
Spares address (leave a) = a ≢ address

apply-Spares :
    (address v : ℕ) (op : Op) (t : Table)
    → Spares address op
    → t address ≡ some v
    → apply op t address ≡ some v
apply-Spares address v (establish a now) t ne e =
    set_at-other ℕ_discrete t a address (some now) ne ∙ e
apply-Spares address v (leave a) t ne e = set_at-other ℕ_discrete t a address none ne ∙ e

life_of :
    (x : Option TcpConnLife) (start : ℕ)
    → Option.map start_of x ≡ some start
    → (life : TcpConnLife) × (x ≡ some life) × (life.start_ns ≡ start)
life_of none start e = ground (arith, e)
life_of (some life) start e = (life, refl, some-injective _ _ e)

module _ (m : BpfMaps) (laws : MapLaws m) (full : NeverFull m ℕ ℕ_discrete TcpConnLife) where
  -- An IPv4 socket comes to ESTABLISHED; then any course of hooks and collections in which no socket at
  -- its address comes to ESTABLISHED or leaves it; then the socket leaves ESTABLISHED. If the map of
  -- the connections is never full, then besides what the change of state itself counts the connection
  -- is counted as closed, and as short-lived exactly if the whole microseconds between the two, 0 if the
  -- clock ran back, are positive and below the threshold at its end; and its record is gone.
  pub connection_closed_in_course :
      (h h' : Hook) (sk sk' : Sock) (a b : ℤ) (o : Objects m) {o2 : Objects m}
      (r : Reach m (nd_inet_sock_set_state m h (some sk) a (pos 1) o) o2)
      → nd_is_ipv4_sock sk ≡ true
      → nd_is_ipv4_sock sk' ≡ true
      → sk'.address ≡ sk.address
      → is_state b tcp_established ≡ false
      → All (Spares sk.address) (conn_ops r)
      → let o3 = nd_inet_sock_set_state m h' (some sk') (pos 1) b o2 in
        (o3.nd_tcp_counters
          ≡ count_closed m h'
              (is_short m (micros_since (h'.ktime 0) (h.ktime 0)) o2)
              (count_transition m h' (pos 1) b o2).nd_tcp_counters)
        × (m.lookup o3.nd_tcp_conn_life sk.address ≡ none)
  connection_closed_in_course h h' sk sk' a b o {o2} r v4 v4' same_address left spares =
      let o1 = nd_inet_sock_set_state m h (some sk) a (pos 1) o in
      let opened : table m laws full o1 sk.address ≡ some (h.ktime 0) =
        let (life, found, start) = opened_life m h sk a o full.update_self v4 in
        ap (Option.map start_of) found ∙ ap some start in
      let (life, found, start) = life_of (m.lookup o2.nd_tcp_conn_life sk.address) (h.ktime 0) (
        Reach-conn_table m laws full r sk.address
        ∙ replays-keep apply (Spares sk.address) (λ t. t sk.address ≡ some (h.ktime 0))
            (apply-Spares sk.address (h.ktime 0)) (conn_ops r) (table m laws full o1) spares
            opened) in
      let counted = count_transition m h' (pos 1) b o2 in
      let (same_life, same_config) = count_transition-frame m h' (pos 1) b o2 in
      let (gone, counters) = leave_established-found m h' sk' _ _ counted life (
        ap (λ s. m.lookup s sk'.address) same_life
        ∙ ap (m.lookup o2.nd_tcp_conn_life) same_address
        ∙ found) in
      let leaving = closed_by m h' sk' b o2 v4' left in
      (
        ap (λ x. x.nd_tcp_counters) leaving
            ∙ counters
            ∙ ap₂
                (λ (s : ℕ) (c : Option NdConfig).
                  count_closed m h'
                    (ltb 0 (micros_since (h'.ktime 0) s)
                      && ltb (micros_since (h'.ktime 0) s) (nd_get_config c).short_tcp_conn_us)
                    counted.nd_tcp_counters)
                start same_config,
        ap (λ x. m.lookup x.nd_tcp_conn_life sk.address) leaving
            ∙ ap (λ s. m.lookup s sk.address) gone
            ∙ ap (m.lookup (m.delete counted.nd_tcp_conn_life sk'.address).0) (sym same_address)
            ∙ lookup-delete_gone m ℕ ℕ_discrete TcpConnLife laws full.never_fails
                counted.nd_tcp_conn_life sk'.address,
      )
