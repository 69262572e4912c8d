-- ===== src/System/Sound/State.antt =====
-- nd_inet_sock_set_state keeps the state sound.
use networkdoctor_prestudy.Base.{
  ℕ, ◌-◌, ◌^◌, ◌<◌, arith, Bool, not, ◌&&◌, ◌||◌, Option, none, some, if◌then◌else◌, ltb, inl, inr,
  Option-cases,
}
use networkdoctor_prestudy.Base.Int.{ℤ, pos, negsuc}
use networkdoctor_prestudy.Platform.{BpfMaps}
use networkdoctor_prestudy.Kernel.{Objects, FlowKey}
use networkdoctor_prestudy.Kernel.Helpers.{
  Hook, Sock, tcp_connect_fail, short_tcp_conn, is_state, tcp_established, tcp_close, tcp_syn_sent,
  tcp_syn_recv, zero_flow, nd_is_syn_state, nd_is_ipv4_sock, nd_flow4_from_sock, nd_get_config,
}
use networkdoctor_prestudy.Kernel.Update.{
  nd_inc_tcp_counter, nd_tcp_state_delta_add, nd_submit_event,
}
use networkdoctor_prestudy.Kernel.Tcp.{
  ipproto_tcp, nd_dir_unknown, state_u64, count_transition, enter_established, leave_established,
  nd_inet_sock_set_state,
}
use networkdoctor_prestudy.Kernel.Udp.{micros_since}
use networkdoctor_prestudy.System.{HasClock, SockInRange, SockArgument}
use networkdoctor_prestudy.System.Sound.{
  Sound, FlowInRange, if-Sound, inc_tcp-Sound, submit_event-Sound, micros_since-lt,
}

-- The key of a socket's flow, and whether there is one.
abbrev pub key_of : Sock → Bool × FlowKey
key_of sk = nd_flow4_from_sock (some sk) ipproto_tcp nd_dir_unknown zero_flow

pub key_of-InRange : (sk : Sock) → SockInRange sk → FlowInRange (key_of sk).1
unfolding nd_flow4_from_sock
key_of-InRange sk r = ground arith

module _ (m : BpfMaps) (h : Hook) (clock : HasClock h) where
  state_delta-Sound :
      (state : ℤ) (delta : ℕ) (o : Objects m)
      → Sound m o
      → Sound m (nd_tcp_state_delta_add m h state delta o)
  unfolding nd_tcp_state_delta_add
  state_delta-Sound (negsuc n) delta o s = s
  state_delta-Sound (pos n) delta o s =
      if-Sound m (ltb n 16) _ o (record { window = s.window; flows = s.flows; events = s.events }) s

  count_transition-Sound :
      (a b : ℤ) (o : Objects m) → Sound m o → Sound m (count_transition m h a b o)
  unfolding count_transition
  count_transition-Sound a b o s =
      let o' = nd_tcp_state_delta_add m h b 1 (nd_tcp_state_delta_add m h a (2 ^ 64 - 1) o) in
      let s' = state_delta-Sound b 1 _ (state_delta-Sound a (2 ^ 64 - 1) o s) in
      if-Sound m (is_state b tcp_syn_sent || is_state b tcp_syn_recv) _ o'
        (inc_tcp-Sound m h 2 o' s') s'

  leave_established-Sound :
      (sk : Sock) (have_flow : Bool) (flow : FlowKey) (o : Objects m)
      → FlowInRange flow
      → Sound m o
      → Sound m (leave_established m h sk have_flow flow o)
  unfolding leave_established
  leave_established-Sound sk have_flow flow o f s =
      elim (Option-cases (m.lookup o.nd_tcp_conn_life sk.address)) [
        | inl e ↦ rw (leave_established, e) s
        | inr (life, e) ↦
            let dur_us = micros_since (h.ktime 0) life.start_ns in
            let closed = nd_inc_tcp_counter m h 0 o in
            let short = nd_inc_tcp_counter m h 1 closed in
            let reported = nd_submit_event m h 1 short_tcp_conn (some flow) dur_us 0 short in
            let closed_s = inc_tcp-Sound m h 0 o s in
            let short_s = inc_tcp-Sound m h 1 closed closed_s in
            let reported_s =
              submit_event-Sound m h clock 1 short_tcp_conn (some flow) dur_us 0 short f
                (micros_since-lt (h.ktime 0) life.start_ns (clock 0)) (omega arith) short_s in
            let t = ltb 0 dur_us && ltb dur_us (nd_get_config o.nd_config).short_tcp_conn_us in
            let all =
              if-Sound m t (if have_flow then reported else short) closed
                (if-Sound m have_flow reported short reported_s short_s) closed_s in
            rw (leave_established, e)
              (record { window = all.window; flows = all.flows; events = all.events })
      ]

  pub set_state-Sound :
      (sk : Option Sock) (a b : ℤ) (o : Objects m)
      → SockArgument sk
      → state_u64 a < 2 ^ 64
      → state_u64 b < 2 ^ 64
      → Sound m o
      → Sound m (nd_inet_sock_set_state m h sk a b o)
  unfolding nd_inet_sock_set_state enter_established
  set_state-Sound none a b o r ra rb s = s
  set_state-Sound (some sk) a b o r ra rb s =
      let o' = count_transition m h a b o in
      let s' = count_transition-Sound a b o s in
      let (have_flow, flow) = key_of sk in
      let failed = nd_inc_tcp_counter m h 3 o' in
      let failed_s = inc_tcp-Sound m h 3 o' s' in
      let reported =
        nd_submit_event m h 2 tcp_connect_fail (some flow) (state_u64 a) (state_u64 b) failed in
      let reported_s =
        submit_event-Sound m h clock 2 tcp_connect_fail (some flow) (state_u64 a) (state_u64 b)
          failed (key_of-InRange sk r) ra rb failed_s in
      if-Sound m (not (nd_is_ipv4_sock sk)) o _ s (
        if-Sound m (is_state b tcp_established) (enter_established m h sk flow b o') _
          (record { window = s'.window; flows = s'.flows; events = s'.events })
          (if-Sound m (is_state a tcp_established) (leave_established m h sk have_flow flow o') _
            (leave_established-Sound sk have_flow flow o' (key_of-InRange sk r) s')
            (if-Sound m (nd_is_syn_state a && is_state b tcp_close)
              (if have_flow then reported else failed) o'
              (if-Sound m have_flow reported failed reported_s failed_s) s')))
