-- ===== src/Snapshot/Counters.antt =====
-- The UDP counters: each packet that the hook accounts is one more in the next scrape.
use networkdoctor_prestudy.Base.{
  ℕ, ◌+◌, ◌<◌, ◌≡◌, refl, sym, ap, ◌∙◌, arith, some, List, map, foldl, u64, get_elem?, get_elem?-lt,
  get_elem?-set_self, set, length, inl, inr, ◌⊎◌,
}
use networkdoctor_prestudy.Platform.{BpfMaps, MapLaws}
use networkdoctor_prestudy.Kernel.{Objects, FlowKey, UdpCounters}
use networkdoctor_prestudy.Kernel.Helpers.{Hook, bump_udp}
use networkdoctor_prestudy.Kernel.Update.{modify_slot, nd_inc_udp_counter, nd_submit_event_no_pid}
use networkdoctor_prestudy.Kernel.Udp.{SkBuff, account_udp, continue_flow}
use networkdoctor_prestudy.Model.{UdpMetrics, zero_udp}
use networkdoctor_prestudy.Snapshot.{add_udp, add_all, snapshot, lookup_per_cpu, sum_udp_counters}
use networkdoctor_prestudy.Snapshot.Fields.{map-set, get_elem?-map, fold-field}
use networkdoctor_prestudy.Snapshot.Sums.{add_all-set, lookup_per_cpu-modify}

abbrev packets_of : List UdpCounters → List ℕ
packets_of = map (λ v. v.packet_total)

fold-packets :
    (total : UdpMetrics) (vs : List UdpCounters)
    → (foldl add_udp total vs).packet_total ≡ add_all total.packet_total (packets_of vs)
unfolding add_udp
fold-packets = fold-field add_udp (λ t. t.packet_total) (λ v. v.packet_total) (λ t v. refl)

module _ (m : BpfMaps) (laws : MapLaws m) (num_cpu : ℕ) where
  sum_udp_counters-modify :
      (a : m.PerCpu UdpCounters) (cpu d : ℕ) (f : UdpCounters → UdpCounters) (vs : List UdpCounters)
      (old : UdpCounters)
      → (f old).packet_total ≡ u64 (old.packet_total + d)
      → lookup_per_cpu m num_cpu a 0 ≡ some vs
      → get_elem? vs cpu ≡ some old
      → (sum_udp_counters m num_cpu (modify_slot m a cpu 0 f)).packet_total
        ≡ u64 ((sum_udp_counters m num_cpu a).packet_total + d)
  unfolding sum_udp_counters
  sum_udp_counters-modify a cpu d f vs old moves e g =
      rw (sum_udp_counters, e, lookup_per_cpu-modify m laws num_cpu a cpu 0 f vs old e g)
        (fold-packets zero_udp (set vs cpu (f old))
          ∙ ap (add_all 0)
              (map-set (λ v. v.packet_total) vs cpu (f old) ∙ ap (set (packets_of vs) cpu) moves)
          ∙ add_all-set (packets_of vs) cpu old.packet_total d
              (get_elem?-map (λ v. v.packet_total) vs cpu old g)
          ∙ ap (λ s. u64 (s + d)) (sym (fold-packets zero_udp vs)))

  pub account-counters :
      (h : Hook) (skb : SkBuff) (flow : FlowKey) (o : Objects m)
      → let counted = modify_slot m o.nd_udp_counters h.cpu 0 (bump_udp 0) in
        let o' = account_udp m h skb flow o in
        (o'.nd_udp_counters ≡ counted)
        ⊎ (o'.nd_udp_counters ≡ modify_slot m counted h.cpu 0 (bump_udp 1))
  unfolding account_udp continue_flow nd_inc_udp_counter nd_submit_event_no_pid
  account-counters h skb flow o = ground arith

  -- Each packet that the hook accounts, whether or not it begins a flow or makes one reported, raises
  -- packet_total of the next scrape by one, modulo 2 ^ 64, if user space sees the CPU's counters.
  pub account_udp-packet_total :
      (h : Hook) (skb : SkBuff) (flow : FlowKey) (o : Objects m) (vs : List UdpCounters)
      → lookup_per_cpu m num_cpu o.nd_udp_counters 0 ≡ some vs
      → h.cpu < length vs
      → (snapshot m num_cpu (account_udp m h skb flow o)).udp.packet_total
        ≡ u64 ((snapshot m num_cpu o).udp.packet_total + 1)
  unfolding snapshot bump_udp
  account_udp-packet_total h skb flow o vs e lt =
      let (old, g) = get_elem?-lt vs h.cpu lt in
      let once = sum_udp_counters-modify o.nd_udp_counters h.cpu 1 (bump_udp 0) vs old refl e g in
      elim (account-counters h skb flow o) [
        | inl same ↦ ap (λ a. (sum_udp_counters m num_cpu a).packet_total) same ∙ once
        | inr same ↦
            ap (λ a. (sum_udp_counters m num_cpu a).packet_total) same
            ∙ sum_udp_counters-modify (modify_slot m o.nd_udp_counters h.cpu 0 (bump_udp 0)) h.cpu 0
                (bump_udp 1) (set vs h.cpu (bump_udp 0 old)) (bump_udp 0 old) (omega arith)
                (lookup_per_cpu-modify m laws num_cpu o.nd_udp_counters h.cpu 0 (bump_udp 0) vs old
                  e g)
                (get_elem?-set_self vs h.cpu (bump_udp 0 old) lt)
            ∙ omega (arith, once)
      ]
