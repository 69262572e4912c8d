-- ===== src/System/Gauges/Course.antt =====
-- The gauges after any course of hooks and collections.
use networkdoctor_prestudy.Base.{ℕ, ◌+◌, ◌<◌, ◌≡◌, refl, arith, none, some, u64}
use networkdoctor_prestudy.Platform.{BpfMaps, MapLaws}
use networkdoctor_prestudy.Kernel.{Objects}
use networkdoctor_prestudy.Kernel.Tcp.{nd_inet_sock_set_state}
use networkdoctor_prestudy.Kernel.Sched.{nd_sched_wakeup, nd_sched_wakeup_new}
use networkdoctor_prestudy.System.{
  Step, inet_sock_set_state, tcp_rcv_established, tcp_retransmit_skb, tc, sched_wakeup,
  sched_wakeup_new, sched_switch, collection, Reach, fresh, later,
}
use networkdoctor_prestudy.System.Gauges.Frame.{
  tc-SameGauges, rcv_established-SameGauges, retransmit-SameGauges, wakeup-SameGauges,
  switch-SameGauges, gc-SameGauges,
}
use networkdoctor_prestudy.System.Gauges.{
  enters, leaves, entered, left, StepOn, ReachOn, gauge, GaugesReadable,
}
use networkdoctor_prestudy.System.Gauges.Moves.{Moves, stay, set_state-Moves}

module _ (m : BpfMaps) (laws : MapLaws m) (num_cpu cpus : ℕ) where
  Step-Moves :
      {o o' : Objects m} (st : Step m o o') (j : ℕ)
      → j < 16
      → StepOn cpus st
      → GaugesReadable m laws num_cpu cpus o
      → Moves m laws num_cpu cpus j (leaves j st) (enters j st) o o'
  unfolding nd_inet_sock_set_state nd_sched_wakeup nd_sched_wakeup_new
  Step-Moves {o} {o'} (inet_sock_set_state h none a b _ _ _ _) j k c r =
      stay m laws num_cpu cpus j o o' refl r
  Step-Moves {o} {o'} (inet_sock_set_state h (some sk) a b _ _ _ _) j k c r =
      set_state-Moves m laws num_cpu cpus h sk a b j o r c k
  Step-Moves {o} {o'} (tcp_rcv_established h sk _ _) j k c r =
      stay m laws num_cpu cpus j o o' (rcv_established-SameGauges m h sk o) r
  Step-Moves {o} {o'} (tcp_retransmit_skb h sk _ _) j k c r =
      stay m laws num_cpu cpus j o o' (retransmit-SameGauges m h sk o) r
  Step-Moves {o} {o'} (tc h skb direction _ _ e) j k c r =
      stay m laws num_cpu cpus j o o' (tc-SameGauges m h skb direction o o' e) r
  Step-Moves {o} {o'} (sched_wakeup h p _ _) j k c r =
      stay m laws num_cpu cpus j o o' (wakeup-SameGauges m h p o) r
  Step-Moves {o} {o'} (sched_wakeup_new h p _ _) j k c r =
      stay m laws num_cpu cpus j o o' (wakeup-SameGauges m h p o) r
  Step-Moves {o} {o'} (sched_switch h p _ _) j k c r =
      stay m laws num_cpu cpus j o o' (switch-SameGauges m h p o) r
  Step-Moves {o} {o'} (collection clock pending flows dns_timeout udp_idle) j k c r =
      stay m laws num_cpu cpus j o o' (gc-SameGauges m clock pending flows dns_timeout udp_idle o) r

  course-Moves :
      {o o' : Objects m} (r : Reach m o o') (j : ℕ)
      → j < 16
      → ReachOn cpus r
      → GaugesReadable m laws num_cpu cpus o
      → Moves m laws num_cpu cpus j (left j r) (entered j r) o o'
  course-Moves fresh j k c g = (g, refl)
  course-Moves (later r st) j k c g =
      let (g1, e1) = course-Moves r j k c.0 g in
      let (g2, e2) = Step-Moves st j k c.1 g1 in (g2, omega (arith, e1, e2))

  -- After any course of hooks on CPUs that user space sees and of collections, in any order, the gauge
  -- of each of the 16 states that a scrape reads has moved, modulo 2 ^ 64, by how often IPv4 sockets
  -- have entered the state in that course less how often they have left it.
  pub Reach-gauge :
      {o o' : Objects m} (r : Reach m o o') (j : ℕ)
      → j < 16
      → ReachOn cpus r
      → GaugesReadable m laws num_cpu cpus o
      → u64 (gauge m laws num_cpu cpus o' j + left j r)
        ≡ u64 (gauge m laws num_cpu cpus o j + entered j r)
  Reach-gauge r j k c g = (course-Moves r j k c g).1
