-- ===== src/Config/Effective.antt =====
-- The thresholds that the hooks apply, from the flags of the agent.
use networkdoctor_prestudy.Base.{
  ℕ, ◌-◌, ◌/◌, ◌^◌, ◌≤◌, ◌<◌, ◌≡◌, refl, ◌∙◌, ◌*◌, arith, Option, none, some, ltb, if◌then◌else◌,
}
use networkdoctor_prestudy.Kernel.{NdConfig}
use networkdoctor_prestudy.Kernel.Helpers.{nd_get_config, nd_defaults, or_default}
use networkdoctor_prestudy.Config.{
  Config, Flags, parse_flags, options, config_entry, duration_div, microsecond, millisecond, second,
  given,
}

-- What a hook reads after Start has written the configuration.
abbrev pub effective : Config → NdConfig
effective cfg = nd_get_config (some (config_entry (options cfg)))

-- The threshold of a duration flag in microseconds: the default unless it is a microsecond at least.
abbrev pub threshold_us : ℕ → ℕ → ℕ
threshold_us d fallback = if ltb d microsecond then fallback else d / microsecond

-- A duration of zero to below 2 ^ 63 ns.
abbrev pub IsNonneg : ℕ → Type 0
IsNonneg d = d < 2 ^ 63

threshold_us_lem :
    (d fallback : ℕ)
    → IsNonneg d
    → or_default (duration_div d 1000) fallback ≡ threshold_us d fallback
unfolding duration_div
threshold_us_lem d fallback h = ground arith

window_lem :
    (d fallback : ℕ) → IsNonneg d → or_default (duration_div d 1) fallback ≡ or_default d fallback
unfolding duration_div
window_lem d fallback h = ground arith

pub record Nonneg (cfg : Config) : Type 0 where
  pub slow_tcp_rtt : IsNonneg cfg.slow_tcp_rtt
  pub short_tcp_conn : IsNonneg cfg.short_tcp_conn
  pub slow_dns : IsNonneg cfg.slow_dns
  pub long_udp_flow : IsNonneg cfg.long_udp_flow
  pub high_runqlat : IsNonneg cfg.high_runqlat
  pub retrans_window : IsNonneg cfg.retrans_window
  pub event_cooldown : IsNonneg cfg.event_cooldown

-- With no negative duration, each hook threshold is the flag's value in microseconds, or the
-- kernel side's default where the flag is below one microsecond; the two windows in nanoseconds and
-- the two counts are the flag's value, or the default where that is 0.
pub effective_lem :
    (cfg : Config)
    → Nonneg cfg
    → effective cfg ≡ record {
      slow_tcp_rtt_us = threshold_us cfg.slow_tcp_rtt nd_defaults.slow_tcp_rtt_us;
      short_tcp_conn_us = threshold_us cfg.short_tcp_conn nd_defaults.short_tcp_conn_us;
      slow_dns_us = threshold_us cfg.slow_dns nd_defaults.slow_dns_us;
      long_udp_flow_us = threshold_us cfg.long_udp_flow nd_defaults.long_udp_flow_us;
      high_runqlat_us = threshold_us cfg.high_runqlat nd_defaults.high_runqlat_us;
      retrans_burst_window_ns = or_default cfg.retrans_window nd_defaults.retrans_burst_window_ns;
      event_cooldown_ns = or_default cfg.event_cooldown nd_defaults.event_cooldown_ns;
      retrans_burst_count = or_default cfg.retrans_burst nd_defaults.retrans_burst_count;
      cwnd_drop_percent = or_default cfg.cwnd_drop_pct nd_defaults.cwnd_drop_percent;
    }
unfolding nd_get_config config_entry options
effective_lem cfg h = λ i. record {
  slow_tcp_rtt_us = threshold_us_lem cfg.slow_tcp_rtt 100_000 h.slow_tcp_rtt i;
  short_tcp_conn_us = threshold_us_lem cfg.short_tcp_conn 100_000 h.short_tcp_conn i;
  slow_dns_us = threshold_us_lem cfg.slow_dns 50_000 h.slow_dns i;
  long_udp_flow_us = threshold_us_lem cfg.long_udp_flow 30_000_000 h.long_udp_flow i;
  high_runqlat_us = threshold_us_lem cfg.high_runqlat 5_000 h.high_runqlat i;
  retrans_burst_window_ns = window_lem cfg.retrans_window 1_000_000_000 h.retrans_window i;
  event_cooldown_ns = window_lem cfg.event_cooldown 5_000_000_000 h.event_cooldown i;
  retrans_burst_count = or_default cfg.retrans_burst 3;
  cwnd_drop_percent = or_default cfg.cwnd_drop_pct 50;
}

-- A negative duration of a microsecond or more turns into a threshold above 2 ^ 63 microseconds.
pub negative_disables :
    (d fallback : ℕ)
    → 2 ^ 63 ≤ d
    → d ≤ 2 ^ 64 - 1000
    → 2 ^ 63 ≤ or_default (duration_div d 1000) fallback
unfolding duration_div
negative_disables d fallback lo hi = ground arith

-- A flag's value under a conversion, or the default where it is not given.
abbrev pub from_flag : Option ℕ → (ℕ → ℕ) → ℕ → ℕ
from_flag none convert fallback = fallback
from_flag (some d) convert fallback = convert d

given-from_flag :
    (flag : Option ℕ) (convert : ℕ → ℕ) (builtin fallback : ℕ)
    → convert builtin ≡ fallback
    → convert (given flag builtin) ≡ from_flag flag convert fallback
given-from_flag none convert builtin fallback e = e
given-from_flag (some d) convert builtin fallback e = refl

-- From any flags, with no negative duration: a hook works, for each threshold, with the kernel side's
-- own default if the flag is not given, whichever others are, so that the defaults of ParseFlags are
-- those of the hooks; and if it is given, with its value in microseconds, in nanoseconds or as a
-- count, or with that default where this is 0.
pub parse_flags-effective :
    (f : Flags)
    → Nonneg (parse_flags f)
    → effective (parse_flags f) ≡ (
        let d = nd_get_config none in
        let us = λ (fallback n : ℕ). threshold_us n fallback in
        let as_is = λ (fallback n : ℕ). or_default n fallback in
        record {
          slow_tcp_rtt_us = from_flag f.slow_tcp_rtt (us d.slow_tcp_rtt_us) d.slow_tcp_rtt_us;
          short_tcp_conn_us =
              from_flag f.short_tcp_conn (us d.short_tcp_conn_us) d.short_tcp_conn_us;
          slow_dns_us = from_flag f.slow_dns (us d.slow_dns_us) d.slow_dns_us;
          long_udp_flow_us = from_flag f.long_udp_flow (us d.long_udp_flow_us) d.long_udp_flow_us;
          high_runqlat_us = from_flag f.high_runqlat (us d.high_runqlat_us) d.high_runqlat_us;
          retrans_burst_window_ns =
              from_flag f.retrans_window
                (as_is d.retrans_burst_window_ns)
                d.retrans_burst_window_ns;
          event_cooldown_ns =
              from_flag f.event_cooldown (as_is d.event_cooldown_ns) d.event_cooldown_ns;
          retrans_burst_count =
              from_flag f.retrans_burst (as_is d.retrans_burst_count) d.retrans_burst_count;
          cwnd_drop_percent =
              from_flag f.cwnd_drop_percent (as_is d.cwnd_drop_percent) d.cwnd_drop_percent;
        })
unfolding parse_flags nd_get_config
parse_flags-effective f h = effective_lem (parse_flags f) h ∙ λ i. record {
  slow_tcp_rtt_us =
      given-from_flag f.slow_tcp_rtt (λ n. threshold_us n 100_000) (100 * millisecond) 100_000 refl
        i;
  short_tcp_conn_us =
      given-from_flag f.short_tcp_conn (λ n. threshold_us n 100_000) (100 * millisecond) 100_000
        refl i;
  slow_dns_us =
      given-from_flag f.slow_dns (λ n. threshold_us n 50_000) (50 * millisecond) 50_000 refl i;
  long_udp_flow_us =
      given-from_flag f.long_udp_flow (λ n. threshold_us n 30_000_000) (30 * second) 30_000_000 refl
        i;
  high_runqlat_us =
      given-from_flag f.high_runqlat (λ n. threshold_us n 5_000) (5 * millisecond) 5_000 refl i;
  retrans_burst_window_ns =
      given-from_flag f.retrans_window (λ n. or_default n 1_000_000_000) (second) 1_000_000_000 refl
        i;
  event_cooldown_ns =
      given-from_flag f.event_cooldown (λ n. or_default n 5_000_000_000) (5 * second) 5_000_000_000
        refl i;
  retrans_burst_count = given-from_flag f.retrans_burst (λ n. or_default n 3) (3) 3 refl i;
  cwnd_drop_percent = given-from_flag f.cwnd_drop_percent (λ n. or_default n 50) (50) 50 refl i;
}
