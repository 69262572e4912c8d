-- ===== src/Kernel/Update.antt =====
-- bpf/networkdoctor.bpf.c: the helpers that change a map.
use networkdoctor_prestudy.Base.{
  ℕ, ◌+◌, ◌/◌, ◌^◌, Option, none, some, ◌∷◌, u64, u32, ltb, if◌then◌else◌,
}
use networkdoctor_prestudy.Base.Int.{ℤ, pos, negsuc}
use networkdoctor_prestudy.Platform.{BpfMaps}
use networkdoctor_prestudy.Kernel.{FlowKey, NdEvent, Objects}
use networkdoctor_prestudy.Kernel.Helpers.{
  Hook, EventType, bump_tcp, bump_dns, bump_udp, nd_fill_event, nd_tcp_states,
}

module _ (m : BpfMaps) where
  open m use {PerCpu, slot, store}

  -- `v = bpf_map_lookup_elem(map, &key); if (v) *v = f(*v)`.
  unfoldable pub modify_slot : {V : Type 0} → PerCpu V → ℕ → ℕ → (V → V) → PerCpu V
  modify_slot a cpu key f = elim (slot a cpu key) [ none ↦ a | some v ↦ store a cpu key (f v) ]

  unfoldable pub nd_inc_u64_percpu_array : PerCpu ℕ → ℕ → ℕ → PerCpu ℕ
  unfolding modify_slot
  nd_inc_u64_percpu_array a cpu key = modify_slot a cpu key (λ v. u64 (v + 1))

  unfoldable pub nd_add_s64_percpu_array : PerCpu ℕ → ℕ → ℕ → ℕ → PerCpu ℕ
  unfolding modify_slot
  nd_add_s64_percpu_array a cpu key delta = modify_slot a cpu key (λ v. u64 (v + delta))

  unfoldable pub nd_inc_tcp_counter : Hook → ℕ → Objects m → Objects m
  unfolding modify_slot
  nd_inc_tcp_counter h field_id o = record o {
    nd_tcp_counters = modify_slot o.nd_tcp_counters h.cpu 0 (bump_tcp field_id);
  }

  unfoldable pub nd_inc_dns_counter : Hook → ℕ → Objects m → Objects m
  unfolding modify_slot
  nd_inc_dns_counter h field_id o = record o {
    nd_dns_counters = modify_slot o.nd_dns_counters h.cpu 0 (bump_dns field_id);
  }

  unfoldable pub nd_inc_udp_counter : Hook → ℕ → Objects m → Objects m
  unfolding modify_slot
  nd_inc_udp_counter h field_id o = record o {
    nd_udp_counters = modify_slot o.nd_udp_counters h.cpu 0 (bump_udp field_id);
  }

  -- `delta` is the bit pattern of an __s64.
  unfoldable pub nd_tcp_state_delta_add : Hook → ℤ → ℕ → Objects m → Objects m
  unfolding nd_add_s64_percpu_array
  nd_tcp_state_delta_add h (negsuc n) delta o = o
  nd_tcp_state_delta_add h (pos state) delta o =
      if ltb state nd_tcp_states
      then record o {
        nd_tcp_state_delta = nd_add_s64_percpu_array o.nd_tcp_state_delta h.cpu state delta;
      }
      else o

  -- The last argument but one is the number of the call site in the hook.
  submit : Hook → ℕ → NdEvent → Objects m → Objects m
  submit h site e o = if h.has_room site then record o { nd_events = e ∷ o.nd_events } else o

  unfoldable pub nd_submit_event :
      Hook → ℕ → EventType → Option FlowKey → ℕ → ℕ → Objects m → Objects m
  unfolding submit
  nd_submit_event h site type flow value_us aux =
      submit h site
        (nd_fill_event type flow value_us aux (u32 (h.pid_tgid / 2 ^ 32)) (h.ktime site))

  unfoldable pub nd_submit_event_no_pid :
      Hook → ℕ → EventType → Option FlowKey → ℕ → ℕ → Objects m → Objects m
  unfolding submit
  nd_submit_event_no_pid h site type flow value_us aux =
      submit h site (nd_fill_event type flow value_us aux 0 (h.ktime site))
