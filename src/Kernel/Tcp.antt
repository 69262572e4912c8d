-- ===== src/Kernel/Tcp.antt =====
-- bpf/networkdoctor.bpf.c: the TCP hooks. A NULL socket is `none`; the socket does not change while
-- a hook reads it.
pub mod Lifecycle
pub mod Bursts
pub mod Connections
pub mod Reports
use networkdoctor_prestudy.Base.{
  ℕ, ◌+◌, ◌-◌, ◌*◌, ◌/◌, ◌^◌, Bool, not, ◌&&◌, ◌||◌, Option, none, some, u64, u32, u8, ltb, leb,
  if◌then◌else◌,
}
use networkdoctor_prestudy.Base.Int.{ℤ, pos, negsuc}
use networkdoctor_prestudy.Platform.{BpfMaps}
use networkdoctor_prestudy.Histogram.{nd_log2_bucket}
use networkdoctor_prestudy.Kernel.{Objects, FlowKey, TcpFlow, Retrans}
use networkdoctor_prestudy.Kernel.Helpers.{
  Hook, Sock, nd_get_config, nd_is_ipv4_sock, nd_flow4_from_sock, nd_is_syn_state, zero_flow,
  is_state, tcp_established, tcp_syn_sent, tcp_syn_recv, tcp_close, slow_tcp_rtt, tcp_cwnd_drop,
  tcp_retrans_burst, short_tcp_conn, tcp_connect_fail,
}
use networkdoctor_prestudy.Kernel.Update.{
  nd_inc_u64_percpu_array, nd_inc_tcp_counter, nd_tcp_state_delta_add, nd_submit_event,
}

abbrev pub ipproto_tcp : ℕ
ipproto_tcp = 6

abbrev pub nd_dir_unknown : ℕ
nd_dir_unknown = 0

-- `(__u64)state` and `(__u8)state`, by sign extension.
abbrev pub state_u64 : ℤ → ℕ
state_u64 (pos n) = n
state_u64 (negsuc n) = 2 ^ 64 - (n + 1)

-- Whether the clock is past the cooldown of the last event; the sum wraps.
abbrev pub past_cooldown : ℕ → ℕ → ℕ → Bool
past_cooldown now last cooldown = ltb (u64 (last + cooldown)) now

module _ (m : BpfMaps) where
  open m use {lookup, update, write, delete}

  -- The branch for a socket that leaves ESTABLISHED.
  unfoldable pub leave_established : Hook → Sock → Bool → FlowKey → Objects m → Objects m
  leave_established h sk have_flow flow o = elim (lookup o.nd_tcp_conn_life sk.address) [
    | none ↦ o
    | some life ↦
        let now = h.ktime 0 in
        let dur_us = if ltb life.start_ns now then (now - life.start_ns) / 1000 else 0 in
        let closed = nd_inc_tcp_counter m h 0 o in
        let o' =
          if ltb 0 dur_us && ltb dur_us (nd_get_config o.nd_config).short_tcp_conn_us
          then (let short = nd_inc_tcp_counter m h 1 closed in
              if have_flow
              then nd_submit_event m h 1 short_tcp_conn (some flow) dur_us 0 short
              else short)
          else closed in
        record o' { nd_tcp_conn_life = (delete o'.nd_tcp_conn_life sk.address).0 }
  ]

  -- The record that a socket entering ESTABLISHED leaves.
  unfoldable pub enter_established : Hook → Sock → FlowKey → ℤ → Objects m → Objects m
  enter_established h sk flow newstate o = record o {
    nd_tcp_conn_life = update o.nd_tcp_conn_life sk.address (record {
      start_ns = h.ktime 0;
      last_ns = h.ktime 0;
      src_ip = flow.src_ip;
      dst_ip = flow.dst_ip;
      src_port = flow.src_port;
      dst_port = flow.dst_port;
      initial_state = u8 (state_u64 newstate);
      last_state = u8 (state_u64 newstate);
      pad = 0;
    });
  }

  -- The part of the hook before its branches.
  unfoldable pub count_transition : Hook → ℤ → ℤ → Objects m → Objects m
  count_transition h oldstate newstate o =
      let o' =
        nd_tcp_state_delta_add m h newstate 1
          (nd_tcp_state_delta_add m h oldstate (2 ^ 64 - 1) o) in
      if is_state newstate tcp_syn_sent || is_state newstate tcp_syn_recv
      then nd_inc_tcp_counter m h 2 o'
      else o'

  unfoldable pub nd_inet_sock_set_state : Hook → Option Sock → ℤ → ℤ → Objects m → Objects m
  unfolding leave_established enter_established count_transition
  nd_inet_sock_set_state h none oldstate newstate o = o
  nd_inet_sock_set_state h (some sk) oldstate newstate o =
      if not (nd_is_ipv4_sock sk)
      then o
      else (let o' = count_transition h oldstate newstate o in
          let (have_flow, flow) =
            nd_flow4_from_sock (some sk) ipproto_tcp nd_dir_unknown zero_flow in
          if is_state newstate tcp_established
          then enter_established h sk flow newstate o'
          else (if is_state oldstate tcp_established
              then leave_established h sk have_flow flow o'
              else (if nd_is_syn_state oldstate && is_state newstate tcp_close
                  then (let failed = nd_inc_tcp_counter m h 3 o' in
                      if have_flow
                      then nd_submit_event m h 2 tcp_connect_fail (some flow) (state_u64 oldstate)
                          (state_u64 newstate) failed
                      else failed)
                  else o')))

  -- One sample into a histogram and its counter, if there is one.
  unfoldable pub sample_rtt : Hook → ℕ → Objects m → Objects m
  sample_rtt h srtt_us o =
      if ltb 0 srtt_us
      then nd_inc_tcp_counter m h 6 (record o {
        nd_tcp_srtt_us_hist =
            nd_inc_u64_percpu_array m o.nd_tcp_srtt_us_hist h.cpu (nd_log2_bucket srtt_us);
      })
      else o

  unfoldable pub sample_cwnd : Hook → ℕ → Objects m → Objects m
  sample_cwnd h cwnd o =
      if ltb 0 cwnd
      then nd_inc_tcp_counter m h 7 (record o {
        nd_tcp_cwnd_hist = nd_inc_u64_percpu_array m o.nd_tcp_cwnd_hist h.cpu (nd_log2_bucket cwnd);
      })
      else o

  -- `newv` once the old value of the flow is carried over.
  unfoldable pub flow_value : ℕ → ℕ → ℕ → Option TcpFlow → TcpFlow
  flow_value now srtt_us cwnd none = record {
    last_seen_ns = now;
    last_rtt_event_ns = 0;
    last_cwnd_event_ns = 0;
    srtt_us = srtt_us;
    cwnd = cwnd;
    prev_cwnd = 0;
    retrans_count = 0;
  }
  flow_value now srtt_us cwnd (some oldv) = record {
    last_seen_ns = now;
    last_rtt_event_ns = oldv.last_rtt_event_ns;
    last_cwnd_event_ns = oldv.last_cwnd_event_ns;
    srtt_us = srtt_us;
    cwnd = cwnd;
    prev_cwnd = oldv.cwnd;
    retrans_count = oldv.retrans_count;
  }

  unfoldable pub report_rtt : Hook → FlowKey → TcpFlow → Objects m → TcpFlow × Objects m
  report_rtt h flow v o =
      let cfg = nd_get_config o.nd_config in
      if leb cfg.slow_tcp_rtt_us v.srtt_us
        && past_cooldown (h.ktime 0) v.last_rtt_event_ns cfg.event_cooldown_ns
      then (
        record v { last_rtt_event_ns = h.ktime 0 },
        nd_submit_event m h 1 slow_tcp_rtt (some flow) v.srtt_us v.cwnd o,
      )
      else (v, o)

  unfoldable pub report_cwnd : Hook → FlowKey → TcpFlow → Objects m → TcpFlow × Objects m
  report_cwnd h flow v o =
      let cfg = nd_get_config o.nd_config in
      if ltb 0 v.prev_cwnd
        && ltb 0 v.cwnd
        && leb (u64 (v.cwnd * 100)) (u64 (v.prev_cwnd * cfg.cwnd_drop_percent))
        && past_cooldown (h.ktime 0) v.last_cwnd_event_ns cfg.event_cooldown_ns
      then (
        record v { last_cwnd_event_ns = h.ktime 0 },
        nd_submit_event m h 2 tcp_cwnd_drop (some flow) v.cwnd v.prev_cwnd o,
      )
      else (v, o)

  unfoldable pub nd_tcp_rcv_established : Hook → Option Sock → Objects m → Objects m
  unfolding sample_rtt sample_cwnd flow_value report_rtt report_cwnd
  nd_tcp_rcv_established h none o = o
  nd_tcp_rcv_established h (some sk) o =
      if not (nd_is_ipv4_sock sk)
      then o
      else (let srtt_us = sk.srtt_us / 8 in
          let o1 = sample_cwnd h sk.snd_cwnd (sample_rtt h srtt_us o) in
          let (have_flow, flow) =
            nd_flow4_from_sock (some sk) ipproto_tcp nd_dir_unknown zero_flow in
          if not have_flow
          then o1
          else (let newv =
                flow_value (h.ktime 0) srtt_us sk.snd_cwnd (lookup o1.nd_tcp_flow_latest flow) in
              let (v2, o2) = report_rtt h flow newv o1 in
              let (v3, o3) = report_cwnd h flow v2 o2 in
              record o3 { nd_tcp_flow_latest = update o3.nd_tcp_flow_latest flow v3 }))

  -- `newv` of the retransmission hook once the old value is carried over.
  unfoldable pub retrans_value : ℕ → ℕ → Option Retrans → Retrans
  retrans_value now window none = record {
    first_seen_ns = now;
    last_seen_ns = now;
    count = 1;
    last_event_ns = 0;
  }
  retrans_value now window (some oldv) =
      if ltb oldv.first_seen_ns now && leb (now - oldv.first_seen_ns) window
      then record {
        first_seen_ns = oldv.first_seen_ns;
        last_seen_ns = now;
        count = u64 (oldv.count + 1);
        last_event_ns = oldv.last_event_ns;
      }
      else record {
        first_seen_ns = now;
        last_seen_ns = now;
        count = 1;
        last_event_ns = oldv.last_event_ns;
      }

  unfoldable pub report_burst : Hook → FlowKey → Retrans → Objects m → Retrans × Objects m
  report_burst h flow v o =
      let cfg = nd_get_config o.nd_config in
      if leb cfg.retrans_burst_count v.count
        && past_cooldown (h.ktime 0) v.last_event_ns cfg.event_cooldown_ns
      then (
        record v { last_event_ns = h.ktime 0 },
        nd_submit_event m h 1 tcp_retrans_burst (some flow) v.count cfg.retrans_burst_window_ns
            (nd_inc_tcp_counter m h 5 o),
      )
      else (v, o)

  -- The last block: the flow's latest value notes the retransmission, in place.
  unfoldable pub note_retrans : Hook → FlowKey → Objects m → Objects m
  note_retrans h flow o = elim (lookup o.nd_tcp_flow_latest flow) [
    | none ↦ o
    | some tv ↦ record o {
      nd_tcp_flow_latest =
          write o.nd_tcp_flow_latest flow
            (record tv { retrans_count = u32 (tv.retrans_count + 1); last_seen_ns = h.ktime 0 });
    }
  ]

  unfoldable pub nd_tcp_retransmit_skb : Hook → Option Sock → Objects m → Objects m
  unfolding retrans_value report_burst note_retrans
  nd_tcp_retransmit_skb h none o = o
  nd_tcp_retransmit_skb h (some sk) o =
      if not (nd_is_ipv4_sock sk)
      then o
      else (let o1 = nd_inc_tcp_counter m h 4 o in
          let (have_flow, flow) =
            nd_flow4_from_sock (some sk) ipproto_tcp nd_dir_unknown zero_flow in
          if not have_flow
          then o1
          else (let newv =
                retrans_value (h.ktime 0) (nd_get_config o1.nd_config).retrans_burst_window_ns
                  (lookup o1.nd_tcp_retrans_by_flow flow) in
              let (v2, o2) = report_burst h flow newv o1 in
              let o3 = record o2 {
                nd_tcp_retrans_by_flow = update o2.nd_tcp_retrans_by_flow flow v2;
              } in
              note_retrans h flow o3))
