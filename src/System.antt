-- ===== src/System.antt =====
-- The whole at work: the hooks of bpf/networkdoctor.bpf.c on any CPUs and the collections of
-- internal/bpf/gc.go, interleaved in any order over the maps that they share.
pub mod Sound
pub mod Table
pub mod DnsTable
pub mod FlowTable
pub mod Packets
pub mod Courses
pub mod Gauges
pub mod Net
use networkdoctor_prestudy.Base.{ℕ, ◌^◌, ◌<◌, ◌≡◌, Option, none, some, List, [], All}
use networkdoctor_prestudy.Base.Int.{ℤ}
use networkdoctor_prestudy.Platform.{BpfMaps}
use networkdoctor_prestudy.Kernel.{Objects, NdConfig, DnsKey, DnsPending, FlowKey, UdpFlow}
use networkdoctor_prestudy.Kernel.Helpers.{Hook, Sock}
use networkdoctor_prestudy.Kernel.Tcp.{
  state_u64, nd_inet_sock_set_state, nd_tcp_rcv_established, nd_tcp_retransmit_skb,
}
use networkdoctor_prestudy.Kernel.Udp.{SkBuff, nd_parse_ipv4_udp}
use networkdoctor_prestudy.Kernel.Sched.{nd_sched_wakeup, nd_sched_wakeup_new, nd_sched_switch}
use networkdoctor_prestudy.Gc.{Timespec, gc}

-- The surroundings of a hook, with the clock in the range of its type.
abbrev pub HasClock : Hook → Type 0
HasClock h = (site : ℕ) → h.ktime site < 2 ^ 64

-- The fields of a socket in the ranges of their types.
pub record SockInRange (sk : Sock) : Type 0 where
  pub skc_rcv_saddr : sk.skc_rcv_saddr < 2 ^ 32
  pub skc_daddr : sk.skc_daddr < 2 ^ 32
  pub skc_num : sk.skc_num < 2 ^ 16
  pub srtt_us : sk.srtt_us < 2 ^ 32
  pub snd_cwnd : sk.snd_cwnd < 2 ^ 32

abbrev pub SockArgument : Option Sock → Type 0
SockArgument none = Unit
SockArgument (some sk) = SockInRange sk

abbrev pub PidArgument : Option ℕ → Type 0
PidArgument none = Unit
PidArgument (some pid) = pid < 2 ^ 32

pub record SkbInRange (skb : SkBuff) : Type 0 where
  pub packet : All (λ b. b < 256) skb.packet
  pub ifindex : skb.ifindex < 2 ^ 32

-- One run of a hook or one collection, on arguments in the ranges of their types. A state is an int.
pub data Step (m : BpfMaps) (o : Objects m) : Objects m → Type 0 where
  inet_sock_set_state :
      (h : Hook) (sk : Option Sock) (oldstate newstate : ℤ)
      → HasClock h
      → SockArgument sk
      → state_u64 oldstate < 2 ^ 64
      → state_u64 newstate < 2 ^ 64
      → Step m o (nd_inet_sock_set_state m h sk oldstate newstate o)
  tcp_rcv_established :
      (h : Hook) (sk : Option Sock)
      → HasClock h
      → SockArgument sk
      → Step m o (nd_tcp_rcv_established m h sk o)
  tcp_retransmit_skb :
      (h : Hook) (sk : Option Sock)
      → HasClock h
      → SockArgument sk
      → Step m o (nd_tcp_retransmit_skb m h sk o)
  tc :
      (h : Hook) (skb : SkBuff) (direction : ℕ) {o' : Objects m}
      → HasClock h
      → SkbInRange skb
      → nd_parse_ipv4_udp m h skb direction o ≡ some o'
      → Step m o o'
  sched_wakeup :
      (h : Hook) (p : Option ℕ) → HasClock h → PidArgument p → Step m o (nd_sched_wakeup m h p o)
  sched_wakeup_new :
      (h : Hook) (p : Option ℕ)
      → HasClock h
      → PidArgument p
      → Step m o (nd_sched_wakeup_new m h p o)
  sched_switch :
      (h : Hook) (p : Option ℕ) → HasClock h → PidArgument p → Step m o (nd_sched_switch m h p o)
  collection :
      (clock : Option Timespec) (pending : List (DnsKey × DnsPending))
      (flows : List (FlowKey × UdpFlow)) (dns_timeout udp_idle : ℕ)
      → Step m o (gc m clock pending flows dns_timeout udp_idle o).0

pub data Reach (m : BpfMaps) (o : Objects m) : Objects m → Type 0 where
  fresh : Reach m o o
  later : {s t : Objects m} → Reach m o s → Step m s t → Reach m o t
