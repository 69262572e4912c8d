-- ===== src/System/Sound/Logged.antt =====
-- From the hooks to the log: what any course of hooks has submitted, the event worker logs.
use Prim.Native.String.{String}
use mathlib.Core.Path.{fun_ext}
use mathlib.Core.List.{reverse, reverse-append}
use networkdoctor_prestudy.Base.{
  ℕ, ◌^◌, ◌<◌, ◌≡◌, sym, ap, ◌∙◌, subst, arith, true, none, some, List, [], ◌∷◌, ◌++◌, map, All,
}
use networkdoctor_prestudy.Platform.{BpfMaps, MapLaws}
use networkdoctor_prestudy.Kernel.{Objects, FlowKey, NdEvent}
use networkdoctor_prestudy.Kernel.Helpers.{nd_get_config, or_default}
use networkdoctor_prestudy.Config.{Config, options, config_entry, duration_div}
use networkdoctor_prestudy.Event.{to_event}
use networkdoctor_prestudy.Event.Lines.{shown, to_event-shown}
use networkdoctor_prestudy.Event.RoundTrip.{InRange}
use networkdoctor_prestudy.Worker.{anomaly, run_event_worker}
use networkdoctor_prestudy.Worker.Loops.{delivery, closing, run_event_worker-deliveries}
use networkdoctor_prestudy.System.{Reach}
use networkdoctor_prestudy.System.Sound.{Sound}
use networkdoctor_prestudy.System.Sound.Steps.{Reach-Sound}

All-append {ℓ} :
    {A : Type ℓ} (P : A → Type 0) (xs ys : List A) → All P xs → All P ys → All P (xs ++ ys)
All-append P [] ys p q = q
All-append P (x ∷ xs) ys p q = (p.0, All-append P xs ys p.1 q)

All-reverse {ℓ} : {A : Type ℓ} (P : A → Type 0) (xs : List A) → All P xs → All P (reverse xs)
All-reverse P [] p = tt
All-reverse P (x ∷ xs) p =
    subst (All P) (sym (reverse-append (x ∷ []) xs))
      (All-append P (reverse xs) (x ∷ []) (All-reverse P xs p.1) (p.0, tt))

-- What Start leaves of the maps before the first hook runs: the written configuration, and nothing in
-- the ring buffer or under the flows.
pub record Started (m : BpfMaps) (cfg : Config) (o : Objects m) : Type 0 where
  pub nd_config : o.nd_config ≡ some (config_entry (options cfg))
  pub nd_tcp_flow_latest : (k : FlowKey) → m.lookup o.nd_tcp_flow_latest k ≡ none
  pub nd_events : o.nd_events ≡ []

window-lt :
    (d fallback : ℕ)
    → d < 2 ^ 64
    → fallback < 2 ^ 64
    → or_default (duration_div d 1) fallback < 2 ^ 64
unfolding duration_div
window-lt d fallback h k = ground arith

Started-Sound :
    (m : BpfMaps) (cfg : Config) (o : Objects m)
    → cfg.retrans_window < 2 ^ 64
    → Started m cfg o
    → Sound m o
unfolding nd_get_config config_entry options
Started-Sound m cfg o w s = record {
  window = rw s.nd_config (window-lt cfg.retrans_window 1_000_000_000 w (omega arith));
  flows = λ k v e. let gone = s.nd_tcp_flow_latest k in cc;
  events = rw s.nd_events tt;
}

-- In the order in which they were submitted.
abbrev pub submitted : {m : BpfMaps} → Objects m → List NdEvent
submitted o = reverse o.nd_events

module _ (m : BpfMaps) (laws : MapLaws m) (ip_string : List ℕ → String) where
  map-shown :
      (es : List NdEvent)
      → map (λ e. anomaly (to_event ip_string e)) es ≡ map (λ e. anomaly (shown ip_string e)) es
  map-shown es = ap (λ f. map (λ e. anomaly (f e)) es) (fun_ext (to_event-shown ip_string))

  -- Whatever the flags, with the retransmission window in the range of its type, and whatever course
  -- the hooks and the collections take after Start: the worker, handed the submitted events in their
  -- order and then the end of the reader, logs each of them once, in that order, and returns; a line
  -- has the type, the pid, the interface, the source and the destination, the value and the auxiliary
  -- value that were submitted, each address printed from its bytes in the order of the packet. The time
  -- of an event is not logged.
  pub submitted-logged :
      (cfg : Config) {o o' : Objects m}
      → cfg.retrans_window < 2 ^ 64
      → Started m cfg o
      → Reach m o o'
      → run_event_worker ip_string (map delivery (submitted o') ++ (closing ∷ []))
        ≡ (map (λ e. anomaly (shown ip_string e)) (submitted o'), true)
  submitted-logged cfg {o} {o'} w s r =
      run_event_worker-deliveries ip_string (submitted o') []
        (All-reverse InRange o'.nd_events (Reach-Sound m laws r (Started-Sound m cfg o w s)).events)
      ∙ ap (λ lines. (lines, true)) (map-shown (submitted o'))
