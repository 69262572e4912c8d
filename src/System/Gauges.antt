-- ===== src/System/Gauges.antt =====
-- The gauges of the TCP states against the course of the hooks.
pub mod Frame
pub mod Moves
pub mod Course
use networkdoctor_prestudy.Base.{
  ℕ, ◌+◌, ◌-◌, ◌*◌, ◌^◌, ◌<◌, ◌≡◌, ◌≢◌, refl, sym, ap, ◌∙◌, arith, Bool, true, false, ◌&&◌, ◌||◌,
  not, Option, none, some, List, u64, if◌then◌else◌, ltb, ◌==◌, eq→==, ne→==, lt→ltb, ℕ_discrete,
  length, dec_lt, Bool-cases, inl, inr, subst,
}
use networkdoctor_prestudy.Base.Int.{ℤ, pos, negsuc}
use networkdoctor_prestudy.Platform.{BpfMaps, MapLaws}
use networkdoctor_prestudy.Kernel.{Objects}
use networkdoctor_prestudy.Kernel.Helpers.{
  Hook, Sock, is_state, nd_is_ipv4_sock, tcp_syn_sent, tcp_syn_recv,
}
use networkdoctor_prestudy.Kernel.Update.{
  nd_add_s64_percpu_array, nd_tcp_state_delta_add, nd_inc_tcp_counter,
}
use networkdoctor_prestudy.Kernel.Tcp.{count_transition, nd_inet_sock_set_state}
use networkdoctor_prestudy.Kernel.Tcp.Lifecycle.{
  sum_tcp_state-add, sum_tcp_state-other, set_state-SameGauges,
}
use networkdoctor_prestudy.Snapshot.{lookup_per_cpu, sum_tcp_state}
use networkdoctor_prestudy.Snapshot.Sums.{ReadableBelow, modify-ReadableBelow}
use networkdoctor_prestudy.Kernel.Sched.{nd_sched_wakeup, nd_sched_wakeup_new}
use networkdoctor_prestudy.System.{
  Step, inet_sock_set_state, tcp_rcv_established, tcp_retransmit_skb, tc, sched_wakeup,
  sched_wakeup_new, sched_switch, collection, Reach, fresh, later,
}
use networkdoctor_prestudy.System.Gauges.Frame.{
  SameGauges, tc-SameGauges, rcv_established-SameGauges, retransmit-SameGauges, wakeup-SameGauges,
  switch-SameGauges, gc-SameGauges,
}

-- How often the IPv4 sockets of a course of steps enter a state, and how often they leave it.
abbrev pub counts_for : Bool → ℤ → ℕ → ℕ
counts_for v4 state j = if v4 && is_state state j then 1 else 0

module _ {m : BpfMaps} where
  abbrev pub enters : {o o' : Objects m} → ℕ → Step m o o' → ℕ
  enters j (inet_sock_set_state h (some sk) a b _ _ _ _) = counts_for (nd_is_ipv4_sock sk) b j
  enters j _ = 0

  abbrev pub leaves : {o o' : Objects m} → ℕ → Step m o o' → ℕ
  leaves j (inet_sock_set_state h (some sk) a b _ _ _ _) = counts_for (nd_is_ipv4_sock sk) a j
  leaves j _ = 0

  abbrev pub entered : {o o' : Objects m} → ℕ → Reach m o o' → ℕ
  entered j fresh = 0
  entered j (later r st) = entered j r + enters j st

  abbrev pub left : {o o' : Objects m} → ℕ → Reach m o o' → ℕ
  left j fresh = 0
  left j (later r st) = left j r + leaves j st

  -- The state changes happen on CPUs that user space sees.
  abbrev pub StepOn : {o o' : Objects m} → ℕ → Step m o o' → Type 0
  StepOn cpus (inet_sock_set_state h sk a b _ _ _ _) = h.cpu < cpus
  StepOn cpus _ = Unit

  abbrev pub ReachOn : {o o' : Objects m} → ℕ → Reach m o o' → Type 0
  ReachOn cpus fresh = Unit
  ReachOn cpus (later r st) = ReachOn cpus r × StepOn cpus st

module _ (m : BpfMaps) (laws : MapLaws m) (num_cpu cpus : ℕ) where
  abbrev pub gauge : Objects m → ℕ → ℕ
  gauge o j = sum_tcp_state m num_cpu o.nd_tcp_state_delta j

  abbrev pub GaugesReadable : Objects m → Type 0
  GaugesReadable o = ReadableBelow m laws num_cpu 16 cpus o.nd_tcp_state_delta
