-- ===== src/Gc.antt =====
-- internal/bpf/gc.go: userspace expiry of nd_dns_pending and nd_udp_flows. What the iterator yields
-- is an input, since the kernel side may change the map meanwhile; its error is only logged.
pub mod Expiry
use networkdoctor_prestudy.Base.{
  ℕ, ◌+◌, ◌-◌, ◌*◌, ◌^◌, Bool, ◌||◌, Option, none, some, List, [], ◌∷◌, u64, leb, ◌==◌,
  if◌then◌else◌,
}
use networkdoctor_prestudy.Platform.{BpfMaps, DeleteResult, deleted, not_exist, failed}
use networkdoctor_prestudy.Kernel.{
  Objects, DnsKey, DnsKey-discrete, DnsPending, FlowKey, FlowKey-discrete, UdpFlow,
}
use networkdoctor_prestudy.Model.{GcStats}

-- struct timespec; `sec` is the bit pattern of an int64.
pub record Timespec : Type 0 where
  pub sec : ℕ
  pub nsec : ℕ

-- `none` where clock_gettime fails.
unfoldable pub monotonic_now_ns : Option Timespec → Option ℕ
monotonic_now_ns none = none
monotonic_now_ns (some ts) = some (u64 (u64 (ts.sec * 1_000_000_000) + ts.nsec))

-- The two `continue` tests. The difference is taken only above the stamp, where `-` is exact.
unfoldable pub keeps_pending : ℕ → ℕ → DnsPending → Bool
keeps_pending now timeout val =
    val.start_ns == 0 || leb now val.start_ns || leb (now - val.start_ns) timeout

unfoldable pub keeps_flow : ℕ → ℕ → UdpFlow → Bool
keeps_flow now idle val =
    val.last_seen_ns == 0 || leb now val.last_seen_ns || leb (now - val.last_seen_ns) idle

-- `if err != nil && !errors.Is(err, ErrKeyNotExist) { continue }; deleted++`.
abbrev pub count_delete : DeleteResult → ℕ → ℕ
count_delete deleted n = n + 1
count_delete not_exist n = n + 1
count_delete failed n = n

module _ (m : BpfMaps) where
  open m use {Hash, delete}

  module _ {K V : Type 0} {d : Discrete K} where
    -- The body of the loop for one yielded entry.
    gc_visit : (V → Bool) → K → V → Hash K d V → ℕ → Hash K d V × ℕ
    gc_visit keeps k v h n =
        if keeps v then (h, n) else (let (h', result) = delete h k in (h', count_delete result n))

    pub gc_loop : (V → Bool) → List (K × V) → Hash K d V → ℕ → Hash K d V × ℕ
    gc_loop keeps [] h n = (h, n)
    gc_loop keeps ((k, v) ∷ entries) h n =
        let (h', n') = gc_visit keeps k v h n in gc_loop keeps entries h' n'

  unfoldable pub gc_dns_pending :
      List (DnsKey × DnsPending)
      → ℕ
      → ℕ
      → Hash DnsKey DnsKey-discrete DnsPending
      → Hash DnsKey DnsKey-discrete DnsPending × ℕ
  unfolding gc_loop gc_visit
  gc_dns_pending entries now timeout h = gc_loop (keeps_pending now timeout) entries h 0

  unfoldable pub gc_udp_flows :
      List (FlowKey × UdpFlow)
      → ℕ
      → ℕ
      → Hash FlowKey FlowKey-discrete UdpFlow
      → Hash FlowKey FlowKey-discrete UdpFlow × ℕ
  unfolding gc_loop gc_visit
  gc_udp_flows entries now idle h = gc_loop (keeps_flow now idle) entries h 0

  -- (*Runtime).GC. A duration is the bit pattern of its int64.
  unfoldable pub gc :
      Option Timespec
      → List (DnsKey × DnsPending)
      → List (FlowKey × UdpFlow)
      → ℕ
      → ℕ
      → Objects m
      → Objects m × GcStats
  unfolding monotonic_now_ns gc_dns_pending gc_udp_flows
  gc clock pending flows dns_timeout udp_idle o = elim (monotonic_now_ns clock) [
    | none ↦ (o, record { dns_pending_deleted = 0; udp_flows_deleted = 0 })
    | some now ↦
        let (dns, dns_deleted) = gc_dns_pending pending now dns_timeout o.nd_dns_pending in
        let (udp, udp_deleted) = gc_udp_flows flows now udp_idle o.nd_udp_flows in
        (
          record o { nd_dns_pending = dns; nd_udp_flows = udp },
          record { dns_pending_deleted = dns_deleted; udp_flows_deleted = udp_deleted },
        )
  ]
