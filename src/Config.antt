-- ===== src/Config.antt =====
-- The thresholds on their way to the kernel side: internal/config/config.go (the flags),
-- internal/app/app.go (the conversion to Options) and internal/bpf/config.go (the nd_config entry).
-- A time.Duration is an int64 of nanoseconds, given by its bit pattern.
pub mod Effective
use networkdoctor_prestudy.Base.{
  ℕ, ◌+◌, ◌-◌, ◌*◌, ◌/◌, ◌^◌, Option, none, some, u64, ltb, if◌then◌else◌,
}
use networkdoctor_prestudy.Kernel.{NdConfig}
use Prim.Native.String.{String}

pub record Config : Type 0 where
  pub iface : String
  pub listen : String
  pub metrics_path : String
  pub gc_interval : ℕ
  pub dns_timeout : ℕ
  pub udp_idle : ℕ
  pub slow_tcp_rtt : ℕ
  pub short_tcp_conn : ℕ
  pub slow_dns : ℕ
  pub long_udp_flow : ℕ
  pub high_runqlat : ℕ
  pub retrans_window : ℕ
  pub event_cooldown : ℕ
  pub retrans_burst : ℕ
  pub cwnd_drop_pct : ℕ

-- What the flag package parsed from the command line: the value of each flag that was given.
pub record Flags : Type 0 where
  pub iface : Option String
  pub listen : Option String
  pub metrics_path : Option String
  pub gc_interval : Option ℕ
  pub dns_timeout : Option ℕ
  pub udp_idle_timeout : Option ℕ
  pub slow_tcp_rtt : Option ℕ
  pub short_tcp_conn : Option ℕ
  pub slow_dns : Option ℕ
  pub long_udp_flow : Option ℕ
  pub high_runqlat : Option ℕ
  pub retrans_window : Option ℕ
  pub event_cooldown : Option ℕ
  pub retrans_burst : Option ℕ
  pub cwnd_drop_percent : Option ℕ

abbrev pub given {ℓ} : {A : Type ℓ} → Option A → A → A
given none fallback = fallback
given (some v) fallback = v

abbrev pub microsecond : ℕ
microsecond = 1_000

abbrev pub millisecond : ℕ
millisecond = 1_000_000

abbrev pub second : ℕ
second = 1_000_000_000

unfoldable pub parse_flags : Flags → Config
parse_flags f = record {
  iface = given f.iface "eth0";
  listen = given f.listen ":9102";
  metrics_path = given f.metrics_path "/metrics";
  gc_interval = given f.gc_interval (10 * second);
  dns_timeout = given f.dns_timeout (5 * second);
  udp_idle = given f.udp_idle_timeout (60 * second);
  slow_tcp_rtt = given f.slow_tcp_rtt (100 * millisecond);
  short_tcp_conn = given f.short_tcp_conn (100 * millisecond);
  slow_dns = given f.slow_dns (50 * millisecond);
  long_udp_flow = given f.long_udp_flow (30 * second);
  high_runqlat = given f.high_runqlat (5 * millisecond);
  retrans_window = given f.retrans_window second;
  event_cooldown = given f.event_cooldown (5 * second);
  retrans_burst = given f.retrans_burst 3;
  cwnd_drop_pct = given f.cwnd_drop_percent 50;
}

pub record Options : Type 0 where
  pub iface : String
  pub slow_tcp_rtt_us : ℕ
  pub short_tcp_conn_us : ℕ
  pub slow_dns_us : ℕ
  pub long_udp_flow_us : ℕ
  pub high_runqlat_us : ℕ
  pub retrans_burst_window_ns : ℕ
  pub event_cooldown_ns : ℕ
  pub retrans_burst_count : ℕ
  pub cwnd_drop_percent : ℕ

-- `uint64(d / unit)`: Go's signed division truncates towards 0.
unfoldable pub duration_div : ℕ → ℕ → ℕ
duration_div d unit = if ltb d (2 ^ 63) then d / unit else u64 (2 ^ 64 - (2 ^ 64 - d) / unit)

-- The argument of bpf.Start in app.Run.
unfoldable pub options : Config → Options
unfolding duration_div
options cfg = record {
  iface = cfg.iface;
  slow_tcp_rtt_us = duration_div cfg.slow_tcp_rtt microsecond;
  short_tcp_conn_us = duration_div cfg.short_tcp_conn microsecond;
  slow_dns_us = duration_div cfg.slow_dns microsecond;
  long_udp_flow_us = duration_div cfg.long_udp_flow microsecond;
  high_runqlat_us = duration_div cfg.high_runqlat microsecond;
  retrans_burst_window_ns = duration_div cfg.retrans_window 1;
  event_cooldown_ns = duration_div cfg.event_cooldown 1;
  retrans_burst_count = cfg.retrans_burst;
  cwnd_drop_percent = cfg.cwnd_drop_pct;
}

-- The entry that writeConfig stores at key 0 of nd_config.
unfoldable pub config_entry : Options → NdConfig
config_entry opts = record {
  slow_tcp_rtt_us = opts.slow_tcp_rtt_us;
  short_tcp_conn_us = opts.short_tcp_conn_us;
  slow_dns_us = opts.slow_dns_us;
  long_udp_flow_us = opts.long_udp_flow_us;
  high_runqlat_us = opts.high_runqlat_us;
  retrans_burst_window_ns = opts.retrans_burst_window_ns;
  event_cooldown_ns = opts.event_cooldown_ns;
  retrans_burst_count = opts.retrans_burst_count;
  cwnd_drop_percent = opts.cwnd_drop_percent;
}
