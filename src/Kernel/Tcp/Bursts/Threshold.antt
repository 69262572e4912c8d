-- ===== src/Kernel/Tcp/Bursts/Threshold.antt =====
-- When the retransmission hook reports a burst.
use networkdoctor_prestudy.Base.{
  ℕ, ◌+◌, ◌<◌, ◌≤◌, ◌≡◌, refl, sym, ap, ◌∙◌, subst, arith, true, false, some, List, [], ◌∷◌, ◌++◌,
  All, length, u64, IsU64, Bool, ◌&&◌, leb, if◌then◌else◌,
}
use networkdoctor_prestudy.Platform.{BpfMaps, NeverRefuses}
use networkdoctor_prestudy.Kernel.{Objects, FlowKey, FlowKey-discrete, Retrans, NdConfig}
use networkdoctor_prestudy.Kernel.Helpers.{Hook, Sock, nd_get_config, nd_is_ipv4_sock}
use networkdoctor_prestudy.Kernel.Tcp.{past_cooldown, retrans_value, nd_tcp_retransmit_skb}
use networkdoctor_prestudy.Kernel.Tcp.Bursts.{
  flow_of, burst_window, retransmit_all, burst_due, one_if, bursts, retrans_value-window,
  retrans_value-last, retransmit-known,
}

module _ (m : BpfMaps) (taken : NeverRefuses m FlowKey FlowKey-discrete Retrans) (sk : Sock)
    (v4 : nd_is_ipv4_sock sk ≡ true) (cfg : NdConfig) where
  open m use {lookup}

  retransmit_all-append :
      (xs ys : List Hook) (o : Objects m)
      → retransmit_all m sk (xs ++ ys) o ≡ retransmit_all m sk ys (retransmit_all m sk xs o)
  retransmit_all-append [] ys o = refl
  retransmit_all-append (h ∷ xs) ys o =
      retransmit_all-append xs ys (nd_tcp_retransmit_skb m h (some sk) o)

  -- The thresholds, and what the map holds of the flow.
  pub record Holds (o : Objects m) (r : Retrans) : Type 0 where
    pub nd_config : nd_get_config o.nd_config ≡ cfg
    pub found : lookup o.nd_tcp_retrans_by_flow (flow_of sk) ≡ some r

  -- A retransmission after the first of the window and within it.
  abbrev pub InWindow : Retrans → Hook → Type 0
  InWindow r h =
      (r.first_seen_ns < h.ktime 0) × (h.ktime 0 ≤ r.first_seen_ns + cfg.retrans_burst_window_ns)

  -- It is counted, and reported if the count has reached the threshold and the cooldown is over.
  retransmit-counts :
      (h : Hook) (o : Objects m) (r : Retrans)
      → Holds o r
      → InWindow r h
      → let o' = nd_tcp_retransmit_skb m h (some sk) o in
        let due =
          leb cfg.retrans_burst_count (u64 (r.count + 1))
          && past_cooldown (h.ktime 0) r.last_event_ns cfg.event_cooldown_ns in
        (v : Retrans) × Holds o' v
        × (v.first_seen_ns ≡ r.first_seen_ns)
        × (v.count ≡ u64 (r.count + 1))
        × (v.last_event_ns ≡ (if due then h.ktime 0 else r.last_event_ns))
        × (bursts o'.nd_events ≡ one_if (due && h.has_room 1) + bursts o.nd_events)
  retransmit-counts h o r holds w =
      let (c, v, found, first, count, reported) =
        retransmit-known m taken h sk o r v4 holds.found in
      let newv = retrans_value m (h.ktime 0) (burst_window m o) (some r) in
      let span : burst_window m o ≡ cfg.retrans_burst_window_ns =
        ap (λ (x : NdConfig). x.retrans_burst_window_ns) holds.nd_config in
      let (begun, counted) =
        retrans_value-window m (h.ktime 0) (burst_window m o) r w.0
          (let x = w.1 in omega (arith, span)) in
      let d : burst_due h newv (nd_get_config o.nd_config)
          ≡ leb cfg.retrans_burst_count (u64 (r.count + 1))
            && past_cooldown (h.ktime 0) r.last_event_ns cfg.event_cooldown_ns =
        ap (burst_due h newv) holds.nd_config
        ∙ ap
            (λ n.
              leb cfg.retrans_burst_count n
              && past_cooldown (h.ktime 0) newv.last_event_ns cfg.event_cooldown_ns)
            counted
        ∙ ap
            (λ l.
              leb cfg.retrans_burst_count (u64 (r.count + 1))
              && past_cooldown (h.ktime 0) l cfg.event_cooldown_ns)
            (retrans_value-last m (h.ktime 0) (burst_window m o) r) in
      (
        v,
        record { nd_config = ap nd_get_config c ∙ holds.nd_config; found = found },
        first ∙ begun,
        count ∙ counted,
        reported.0 ∙ ap (λ (b : Bool). if b then h.ktime 0 else r.last_event_ns) d,
        reported.1 ∙ ap (λ (b : Bool). one_if (b && h.has_room 1) + bursts o.nd_events) d,
      )

  not_due :
      (h : Hook) (v : Retrans)
      → IsU64 (v.last_event_ns + cfg.event_cooldown_ns)
      → h.ktime 0 ≤ v.last_event_ns + cfg.event_cooldown_ns
      → burst_due h v cfg ≡ false
  not_due h v fits soon = ground arith

  -- Up to the cooldown after the last report none is made.
  retransmit-quiet :
      (h : Hook) (o : Objects m) (r : Retrans)
      → Holds o r
      → IsU64 (r.last_event_ns + cfg.event_cooldown_ns)
      → h.ktime 0 ≤ r.last_event_ns + cfg.event_cooldown_ns
      → let o' = nd_tcp_retransmit_skb m h (some sk) o in
        (v : Retrans) × Holds o' v
        × (v.last_event_ns ≡ r.last_event_ns)
        × (bursts o'.nd_events ≡ bursts o.nd_events)
  retransmit-quiet h o r holds fits soon =
      let (c, v, found, first, count, reported) =
        retransmit-known m taken h sk o r v4 holds.found in
      let newv = retrans_value m (h.ktime 0) (burst_window m o) (some r) in
      let kept = retrans_value-last m (h.ktime 0) (burst_window m o) r in
      let d : burst_due h newv (nd_get_config o.nd_config) ≡ false =
        ap (burst_due h newv) holds.nd_config
        ∙ not_due h newv (omega (arith, kept, fits)) (omega (arith, kept, soon)) in
      (
        v,
        record { nd_config = ap nd_get_config c ∙ holds.nd_config; found = found },
        reported.0 ∙ ap (λ (b : Bool). if b then h.ktime 0 else r.last_event_ns) d,
        reported.1
            ∙ ap (λ (b : Bool). one_if (b && h.has_room 1) + bursts o.nd_events) d
            ∙ omega arith,
      )

  below_threshold :
      (hs : List Hook) (o : Objects m) (r : Retrans)
      → Holds o r
      → All (InWindow r) hs
      → r.count + length hs < cfg.retrans_burst_count
      → IsU64 cfg.retrans_burst_count
      → let o' = retransmit_all m sk hs o in
        (v : Retrans) × Holds o' v
        × (v.first_seen_ns ≡ r.first_seen_ns)
        × (v.count ≡ r.count + length hs)
        × (v.last_event_ns ≡ r.last_event_ns)
        × (bursts o'.nd_events ≡ bursts o.nd_events)
  below_threshold [] o r holds w few fits = (r, holds, refl, omega arith, refl, refl)
  below_threshold (h ∷ hs) o r holds w few fits =
      let (v, held, first, count, last, made) = retransmit-counts h o r holds w.0 in
      let no : leb cfg.retrans_burst_count (u64 (r.count + 1)) ≡ false =
        ground (arith, few, fits) in
      let stays =
        last
        ∙ ap
            (λ (b : Bool).
              if b && past_cooldown (h.ktime 0) r.last_event_ns cfg.event_cooldown_ns
              then h.ktime 0
              else r.last_event_ns)
            no in
      let silent =
        made
        ∙ ap
            (λ (b : Bool).
              one_if (
                (b && past_cooldown (h.ktime 0) r.last_event_ns cfg.event_cooldown_ns)
                && h.has_room 1)
              + bursts o.nd_events)
            no in
      let (v', held', first', count', last', made') =
        below_threshold hs (nd_tcp_retransmit_skb m h (some sk) o) v held
          (subst
            (λ f. All (λ g. (f < g.ktime 0) × (g.ktime 0 ≤ f + cfg.retrans_burst_window_ns)) hs)
            (sym first) w.1)
          (omega (arith, few, count, fits)) fits in
      (
        v',
        held',
        first' ∙ first,
        omega (arith, count', count, few, fits),
        last' ∙ stays,
        made' ∙ silent ∙ omega arith,
      )

  in_cooldown :
      (hs : List Hook) (o : Objects m) (r : Retrans) (until : ℕ)
      → Holds o r
      → until ≡ r.last_event_ns + cfg.event_cooldown_ns
      → IsU64 until
      → All (λ h. h.ktime 0 ≤ until) hs
      → bursts (retransmit_all m sk hs o).nd_events ≡ bursts o.nd_events
  in_cooldown [] o r until holds u fits soon = refl
  in_cooldown (h ∷ hs) o r until holds u fits soon =
      let (v, held, last, made) =
        retransmit-quiet h o r holds (omega (arith, u, fits)) (omega (arith, u, soon.0)) in
      in_cooldown hs (nd_tcp_retransmit_skb m h (some sk) o) v until held (omega (arith, u, last))
        fits soon.1
      ∙ made

  -- If the map holds a flow below the threshold of a burst and refuses no update, and the flow's
  -- retransmissions come within its window until one makes the count reach the threshold when the
  -- cooldown of the last report is over, and any more of them up to the cooldown after that one, then
  -- in all of that the ring buffer gets one report of a burst, or none if it has no room for it then.
  pub burst_reported :
      (hs : List Hook) (h : Hook) (later : List Hook) (o : Objects m) (r : Retrans)
      → Holds o r
      → All (InWindow r) hs
      → InWindow r h
      → r.count + length hs + 1 ≡ cfg.retrans_burst_count
      → IsU64 cfg.retrans_burst_count
      → past_cooldown (h.ktime 0) r.last_event_ns cfg.event_cooldown_ns ≡ true
      → IsU64 (h.ktime 0 + cfg.event_cooldown_ns)
      → All (λ g. g.ktime 0 ≤ h.ktime 0 + cfg.event_cooldown_ns) later
      → bursts (retransmit_all m sk (hs ++ (h ∷ later)) o).nd_events
        ≡ one_if (h.has_room 1) + bursts o.nd_events
  burst_reported hs h later o r holds w wh reaches fits over soon_fits soon =
      let (v, held, first, count, last, made) =
        below_threshold hs o r holds w (omega (arith, reaches)) fits in
      let o1 = retransmit_all m sk hs o in
      let (v2, held2, first2, count2, last2, made2) = retransmit-counts h o1 v held (
        subst (λ f. (f < h.ktime 0) × (h.ktime 0 ≤ f + cfg.retrans_burst_window_ns)) (sym first)
          wh) in
      let full : leb cfg.retrans_burst_count (u64 (v.count + 1)) ≡ true =
        ground (arith, count, reaches, fits) in
      let due : leb cfg.retrans_burst_count (u64 (v.count + 1))
            && past_cooldown (h.ktime 0) v.last_event_ns cfg.event_cooldown_ns
          ≡ true =
        ap (λ (b : Bool). b && past_cooldown (h.ktime 0) v.last_event_ns cfg.event_cooldown_ns) full
        ∙ ap (λ l. past_cooldown (h.ktime 0) l cfg.event_cooldown_ns) last
        ∙ over in
      let noted = last2 ∙ ap (λ (b : Bool). if b then h.ktime 0 else v.last_event_ns) due in
      ap (λ (x : Objects m). bursts x.nd_events) (retransmit_all-append hs (h ∷ later) o)
      ∙ in_cooldown later (nd_tcp_retransmit_skb m h (some sk) o1) v2
          (h.ktime 0 + cfg.event_cooldown_ns) held2 (omega (arith, noted)) soon_fits soon
      ∙ made2
      ∙ ap (λ (b : Bool). one_if (b && h.has_room 1) + bursts o1.nd_events) due
      ∙ ap (λ n. one_if (h.has_room 1) + n) made
