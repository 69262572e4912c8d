-- ===== src/Kernel/Helpers.antt =====
-- bpf/networkdoctor.bpf.c: the always-inline helpers.
use networkdoctor_prestudy.Base.{
  ℕ, ◌+◌, ◌*◌, ◌/◌, ◌%◌, Bool, true, false, ◌||◌, Option, none, some, u64, ◌==◌, if◌then◌else◌,
}
use networkdoctor_prestudy.Base.Int.{ℤ, pos, negsuc}
use networkdoctor_prestudy.Kernel.{
  NdConfig, FlowKey, TcpCounters, DnsCounters, UdpCounters, NdEvent,
}

-- The constants of the file, by their names there.
abbrev pub af_inet : ℕ
af_inet = 2

abbrev pub nd_tcp_states : ℕ
nd_tcp_states = 16

abbrev pub tcp_established : ℕ
tcp_established = 1

abbrev pub tcp_syn_sent : ℕ
tcp_syn_sent = 2

abbrev pub tcp_syn_recv : ℕ
tcp_syn_recv = 3

abbrev pub tcp_close : ℕ
tcp_close = 7

abbrev pub tcp_new_syn_recv : ℕ
tcp_new_syn_recv = 12

-- enum nd_event_type, and the number of each.
pub data EventType : Type 0 where
  slow_tcp_rtt tcp_cwnd_drop tcp_retrans_burst short_tcp_conn tcp_connect_fail slow_dns : EventType
  dns_rcode_error long_udp_flow high_runqlat : EventType

abbrev pub event_number : EventType → ℕ
event_number slow_tcp_rtt = 1
event_number tcp_cwnd_drop = 2
event_number tcp_retrans_burst = 3
event_number short_tcp_conn = 4
event_number tcp_connect_fail = 5
event_number slow_dns = 6
event_number dns_rcode_error = 7
event_number long_udp_flow = 8
event_number high_runqlat = 9

-- What a hook reads of its surroundings: the CPU it runs on, the reading of bpf_ktime_get_ns at each
-- call site in program order, bpf_get_current_pid_tgid, and whether nd_events has room there.
pub record Hook : Type 0 where
  pub cpu : ℕ
  pub ktime : ℕ → ℕ
  pub pid_tgid : ℕ
  pub has_room : ℕ → Bool

-- The fields of a struct sock (and tcp_sock) that the program reads, in the kernel's byte order.
pub record Sock : Type 0 where
  pub address : ℕ
  pub skc_family : ℕ
  pub skc_rcv_saddr : ℕ
  pub skc_daddr : ℕ
  pub skc_num : ℕ
  pub skc_dport : ℕ
  pub srtt_us : ℕ
  pub snd_cwnd : ℕ

-- bpf_ntohs on a little-endian machine.
abbrev pub ntohs : ℕ → ℕ
ntohs n = n % 256 * 256 + n / 256 % 256

abbrev pub or_default : ℕ → ℕ → ℕ
or_default configured fallback = if configured == 0 then fallback else configured

-- The ND_DEFAULT_* values.
abbrev pub nd_defaults : NdConfig
nd_defaults = record {
  slow_tcp_rtt_us = 100_000;
  short_tcp_conn_us = 100_000;
  slow_dns_us = 50_000;
  long_udp_flow_us = 30_000_000;
  high_runqlat_us = 5_000;
  retrans_burst_window_ns = 1_000_000_000;
  event_cooldown_ns = 5_000_000_000;
  retrans_burst_count = 3;
  cwnd_drop_percent = 50;
}

unfoldable pub nd_get_config : Option NdConfig → NdConfig
nd_get_config none = nd_defaults
nd_get_config (some cfg) = record {
  slow_tcp_rtt_us = or_default cfg.slow_tcp_rtt_us nd_defaults.slow_tcp_rtt_us;
  short_tcp_conn_us = or_default cfg.short_tcp_conn_us nd_defaults.short_tcp_conn_us;
  slow_dns_us = or_default cfg.slow_dns_us nd_defaults.slow_dns_us;
  long_udp_flow_us = or_default cfg.long_udp_flow_us nd_defaults.long_udp_flow_us;
  high_runqlat_us = or_default cfg.high_runqlat_us nd_defaults.high_runqlat_us;
  retrans_burst_window_ns =
      or_default cfg.retrans_burst_window_ns nd_defaults.retrans_burst_window_ns;
  event_cooldown_ns = or_default cfg.event_cooldown_ns nd_defaults.event_cooldown_ns;
  retrans_burst_count = or_default cfg.retrans_burst_count nd_defaults.retrans_burst_count;
  cwnd_drop_percent = or_default cfg.cwnd_drop_percent nd_defaults.cwnd_drop_percent;
}

-- `nd_inc_tcp_counter(field_id)` with the C if-ladder; an unknown id changes nothing.
unfoldable pub bump_tcp : ℕ → TcpCounters → TcpCounters
bump_tcp field_id c =
    if field_id == 0
    then record c { closed_total = u64 (c.closed_total + 1) }
    else (if field_id == 1
        then record c { short_lived_total = u64 (c.short_lived_total + 1) }
        else (if field_id == 2
            then record c { connect_attempt_total = u64 (c.connect_attempt_total + 1) }
            else (if field_id == 3
                then record c { connect_failed_total = u64 (c.connect_failed_total + 1) }
                else (if field_id == 4
                    then record c { retrans_total = u64 (c.retrans_total + 1) }
                    else (if field_id == 5
                        then record c { retrans_burst_total = u64 (c.retrans_burst_total + 1) }
                        else (if field_id == 6
                            then record c { rtt_sample_total = u64 (c.rtt_sample_total + 1) }
                            else (if field_id == 7
                                then record c { cwnd_sample_total = u64 (c.cwnd_sample_total + 1) }
                                else c)))))))

unfoldable pub bump_dns : ℕ → DnsCounters → DnsCounters
bump_dns field_id c =
    if field_id == 0
    then record c { query_total = u64 (c.query_total + 1) }
    else (if field_id == 1
        then record c { response_total = u64 (c.response_total + 1) }
        else (if field_id == 2
            then record c { rcode_error_total = u64 (c.rcode_error_total + 1) }
            else (if field_id == 3 then record c { slow_total = u64 (c.slow_total + 1) } else c)))

unfoldable pub bump_udp : ℕ → UdpCounters → UdpCounters
bump_udp field_id c =
    if field_id == 0
    then record c { packet_total = u64 (c.packet_total + 1) }
    else (if field_id == 1 then record c { long_flow_total = u64 (c.long_flow_total + 1) } else c)

unfoldable pub nd_is_ipv4_sock : Sock → Bool
nd_is_ipv4_sock sk = sk.skc_family == af_inet

-- The C function's result and the key that it fills.
unfoldable pub nd_flow4_from_sock : Option Sock → ℕ → ℕ → FlowKey → Bool × FlowKey
unfolding nd_is_ipv4_sock
nd_flow4_from_sock none proto direction key = (false, key)
nd_flow4_from_sock (some sk) proto direction key =
    if nd_is_ipv4_sock sk
    then (
      true,
      record {
        ifindex = 0;
        src_ip = sk.skc_rcv_saddr;
        dst_ip = sk.skc_daddr;
        src_port = sk.skc_num;
        dst_port = ntohs sk.skc_dport;
        proto = proto;
        direction = direction;
        pad = 0;
      },
    )
    else (false, key)

abbrev pub zero_flow : FlowKey
zero_flow = record {
  ifindex = 0;
  src_ip = 0;
  dst_ip = 0;
  src_port = 0;
  dst_port = 0;
  proto = 0;
  direction = 0;
  pad = 0;
}

abbrev pub is_state : ℤ → ℕ → Bool
is_state (pos n) k = n == k
is_state (negsuc n) k = false

unfoldable pub nd_is_syn_state : ℤ → Bool
nd_is_syn_state state =
    is_state state tcp_syn_sent || is_state state tcp_syn_recv || is_state state tcp_new_syn_recv

unfoldable pub nd_fill_event : EventType → Option FlowKey → ℕ → ℕ → ℕ → ℕ → NdEvent
nd_fill_event type none value_us aux pid ts = record {
  type = event_number type;
  pid = pid;
  ts_ns = ts;
  ifindex = 0;
  src_ip = 0;
  dst_ip = 0;
  src_port = 0;
  dst_port = 0;
  value_us = value_us;
  aux = aux;
}
nd_fill_event type (some flow) value_us aux pid ts = record {
  type = event_number type;
  pid = pid;
  ts_ns = ts;
  ifindex = flow.ifindex;
  src_ip = flow.src_ip;
  dst_ip = flow.dst_ip;
  src_port = flow.src_port;
  dst_port = flow.dst_port;
  value_us = value_us;
  aux = aux;
}
