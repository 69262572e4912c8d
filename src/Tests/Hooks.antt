-- ===== src/Tests/Hooks.antt =====
-- The hooks, the scrape and the collector on two CPUs.
use networkdoctor_prestudy.Base.{
  ℕ, ◌≡◌, refl, arith, true, Option, none, some, List, [], ◌∷◌, length, sym, ◌∙◌, subst,
}
use mathlib.Core.List.{Memᴰ}
use mathlib.Core.Option.{some-injective}
use networkdoctor_prestudy.Platform.{NeverFails}
use networkdoctor_prestudy.Histogram.{emit_log2_histogram, find}
use networkdoctor_prestudy.Snapshot.{sum_histogram, sum_u64_per_cpu, lookup_per_cpu}
use networkdoctor_prestudy.Histogram.Export.{emit_log2_histogram_lem}
use networkdoctor_prestudy.Histogram.Counting.{exported-count_le, record_all}
use networkdoctor_prestudy.Kernel.{
  Objects, DnsKey, DnsPending, DnsKey-discrete, FlowKey, UdpFlow, FlowKey-discrete,
}
use networkdoctor_prestudy.Kernel.Helpers.{Hook}
use networkdoctor_prestudy.Kernel.Packet.{UdpHeader}
use networkdoctor_prestudy.Kernel.Packet.Safety.{nd_parse_ipv4_udp-Defined, Defined}
use networkdoctor_prestudy.Kernel.Udp.{SkBuff, udp_flow_key, nd_parse_ipv4_udp, query_key}
use networkdoctor_prestudy.Snapshot.Sums.{Readable}
use networkdoctor_prestudy.Gc.{gc_dns_pending, gc_udp_flows}
use networkdoctor_prestudy.Gc.Expiry.{
  Lists, gc_dns_pending_lem, gc_udp_flows_lem, gc_udp_flows_race, is_fresh, retain,
}
use networkdoctor_prestudy.Tests.Maps.{
  maps, maps-laws, floats, floats-laws, put, put-same, put-other,
}

abbrev pub two_cpus : ℕ → List ℕ
two_cpus = λ _. 0 ∷ 0 ∷ []

two_cpus-Readable : Readable maps maps-laws 2 2 two_cpus
unfolding networkdoctor_prestudy.Snapshot.lookup_per_cpu
two_cpus-Readable = λ key h. (0 ∷ 0 ∷ [], refl, refl)

-- Samples of 3, 9 and 4 on two CPUs.
abbrev three_samples : List (ℕ × ℕ)
three_samples = (0, 3) ∷ (1, 9) ∷ (1, 4) ∷ []

-- Two of them are at most 4.
exported-count_le_example :
    find floats
      (emit_log2_histogram floats
        (sum_histogram maps 2 (record_all maps two_cpus three_samples))).buckets
      4
    ≡ some 2
unfolding sum_histogram sum_u64_per_cpu lookup_per_cpu
exported-count_le_example =
    exported-count_le maps maps-laws 2 2 floats floats-laws three_samples two_cpus 2
      two_cpus-Readable (omega arith, (omega arith, (omega arith, tt))) (omega arith)

abbrev pub idle : Objects maps
idle = record {
  nd_config = none;
  nd_tcp_counters = λ _. [];
  nd_dns_counters = λ _. [];
  nd_udp_counters = λ _. [];
  nd_tcp_state_delta = two_cpus;
  nd_tcp_conn_life = λ _. none;
  nd_tcp_flow_latest = λ _. none;
  nd_tcp_srtt_us_hist = two_cpus;
  nd_tcp_cwnd_hist = two_cpus;
  nd_tcp_retrans_by_flow = λ _. none;
  nd_dns_pending = λ _. none;
  nd_dns_latency_us_hist = two_cpus;
  nd_dns_rcode_total = two_cpus;
  nd_udp_flows = λ _. none;
  nd_udp_duration_us_hist = two_cpus;
  nd_runq_start = λ _. none;
  nd_runqlat_us_hist = two_cpus;
  nd_events = [];
}

emit_log2_histogram_lem_example :
    (length (emit_log2_histogram floats (1 ∷ 0 ∷ 5 ∷ [])).buckets ≡ 31)
    × ((emit_log2_histogram floats (1 ∷ 0 ∷ 5 ∷ [])).count ≡ 6)
    × (find floats (emit_log2_histogram floats (1 ∷ 0 ∷ 5 ∷ [])).buckets 2 ≡ some 1)
emit_log2_histogram_lem_example =
    emit_log2_histogram_lem floats floats-laws (1 ∷ 0 ∷ 5 ∷ []) 1 (omega arith)

pub never_fails : {K V : Type 0} (d : Discrete K) → NeverFails maps K d V
never_fails d h k = ground arith

-- A hook at a time, and a packet to port 53 of 10.0.0.2.
abbrev pub at : ℕ → Hook
at now = record { cpu = 1; ktime = λ _. now; pid_tgid = 0; has_room = λ _. true }

abbrev pub skb : SkBuff
skb = record { packet = []; len = 80; ifindex = 2 }

abbrev pub out : UdpHeader
out = record { saddr = 16777226; daddr = 33554442; sport = 4000; dport = 53; payload = 42 }

abbrev pub some_flow : ℕ → FlowKey
some_flow direction = udp_flow_key skb direction out

-- A truncated packet.
nd_parse_ipv4_udp-Defined_example :
    Defined (nd_parse_ipv4_udp maps (at 5) (record skb { packet = 8 ∷ 0 ∷ [] }) 1 idle)
nd_parse_ipv4_udp-Defined_example =
    nd_parse_ipv4_udp-Defined maps (at 5) (record skb { packet = 8 ∷ 0 ∷ [] }) 1 idle

-- A pending query and a flow of 1 s, collected at 10 s.
abbrev pub old_query : DnsPending
old_query = record { start_ns = 1_000_000_000 }

abbrev pub pending_map : DnsKey → Option DnsPending
pending_map = put DnsKey-discrete (λ _. none) (query_key skb out 7) (some old_query)

abbrev pub old_flow : UdpFlow
old_flow = record {
  first_seen_ns = 1;
  last_seen_ns = 1_000_000_000;
  last_event_ns = 0;
  packets = 1;
  bytes = 80;
}

abbrev pub flow_map : FlowKey → Option UdpFlow
flow_map = put FlowKey-discrete (λ _. none) (some_flow 2) (some old_flow)

both : {K V : Type 0} {a b : K} {x y : V} → a ≡ b → x ≡ y → ◌≡◌ {A = K × V} (a, x) (b, y)
both p q = λ i. (p i, q i)

pub put-Lists :
    {K V : Type 0} (d : Discrete K) (k : K) (v : V)
    → Lists maps {d = d} (put d (λ _. none) k (some v)) ((k, v) ∷ [])
put-Lists d k v = record {
  sound = (put-same d (λ _. none) k (some v), tt);
  complete = λ j w e. elim (d k j) [
    | yes p ↦ Memᴰ.head (
        both (sym p) (
          some-injective _ _ (
            sym e
            ∙ subst (λ x. put d (λ _. none) k (some v) x ≡ some v) p
                (put-same d (λ _. none) k (some v)))))
    | no n ↦ ground (arith, e, put-other d (λ _. none) k j (some v) n)
  ];
}

gc_dns_pending_lem_example :
    ((k : DnsKey)
      → (gc_dns_pending maps
            ((query_key skb out 7, old_query) ∷ [])
            10_000_000_000
            5_000_000_000
            pending_map).0
          k
        ≡ retain (λ v. is_fresh 10_000_000_000 5_000_000_000 v.start_ns) (pending_map k))
    × ((gc_dns_pending maps
          ((query_key skb out 7, old_query) ∷ [])
          10_000_000_000
          5_000_000_000
          pending_map).1
        ≡ 1)
gc_dns_pending_lem_example =
    gc_dns_pending_lem maps maps-laws (never_fails DnsKey-discrete)
      ((query_key skb out 7, old_query) ∷ []) 10_000_000_000 5_000_000_000 pending_map
      (put-Lists DnsKey-discrete (query_key skb out 7) old_query)

gc_udp_flows_lem_example :
    ((k : FlowKey)
      → (gc_udp_flows maps ((some_flow 2, old_flow) ∷ []) 10_000_000_000 5_000_000_000 flow_map).0 k
        ≡ retain (λ v. is_fresh 10_000_000_000 5_000_000_000 v.last_seen_ns) (flow_map k))
    × ((gc_udp_flows maps ((some_flow 2, old_flow) ∷ []) 10_000_000_000 5_000_000_000 flow_map).1
        ≡ 1)
gc_udp_flows_lem_example =
    gc_udp_flows_lem maps maps-laws (never_fails FlowKey-discrete) ((some_flow 2, old_flow) ∷ [])
      10_000_000_000 5_000_000_000 flow_map (put-Lists FlowKey-discrete (some_flow 2) old_flow)

-- By the time of the loop the flow was seen again, at 9.9 s.
abbrev refreshed : FlowKey → Option UdpFlow
refreshed =
    put FlowKey-discrete flow_map (some_flow 2)
      (some (record old_flow { last_seen_ns = 9_900_000_000 }))

gc_udp_flows_race_example :
    (gc_udp_flows maps ((some_flow 2, old_flow) ∷ []) 10_000_000_000 5_000_000_000 refreshed).0
      (some_flow 2)
    ≡ none
gc_udp_flows_race_example =
    gc_udp_flows_race maps maps-laws (never_fails FlowKey-discrete) ((some_flow 2, old_flow) ∷ [])
      10_000_000_000 5_000_000_000 refreshed (some_flow 2) old_flow (Memᴰ.head refl) refl
