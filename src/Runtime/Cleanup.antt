-- ===== src/Runtime/Cleanup.antt =====
-- What Start and Close leave acquired, on every path.
use Prim.Native.String.{String}
use mathlib.Core.List.{reverse, reverse-append, append_assoc, append-nil}
use networkdoctor_prestudy.Base.{
  ◌≡◌, refl, sym, ap, ◌∙◌, subst, arith, true, none, some, List, [], ◌∷◌, ◌++◌, map, Option-cases,
  inl, inr,
}
use networkdoctor_prestudy.Config.{Options, config_entry}
use networkdoctor_prestudy.Runtime.Monad.{
  Tracepoint, inet_sock_set_state, tcp_retransmit_skb, sched_wakeup, sched_wakeup_new, sched_switch,
  ingress, egress, Resource, objects, tracepoint, kprobe, filter, reader, remove_memlock,
  load_objects, update_config, attach_raw_tracepoint, attach_kprobe, new_reader, Trace, Env, call,
}
use networkdoctor_prestudy.Runtime.{
  close_resource, close_each, close_all, attach_tracepoints, replace_filters, attach_tc,
  attach_rest, append_tc, attach_programs, open_reader, configure, start, close_once, close_runtime,
  Runtime, StartError, TcError, no_filter, tc_failed, Result, ok, err,
}
use networkdoctor_prestudy.Runtime.Held.{held, held-close_resource, held-close_all}

-- The links of a started runtime, in the order in which they are attached.
abbrev pub all_links : List Resource
all_links =
    tracepoint inet_sock_set_state
    ∷ tracepoint tcp_retransmit_skb
    ∷ tracepoint sched_wakeup
    ∷ tracepoint sched_wakeup_new
    ∷ tracepoint sched_switch
    ∷ kprobe
    ∷ filter ingress
    ∷ filter egress
    ∷ []

-- What a failing attachTC leaves behind: nothing, but for the second filter's failure, which leaves
-- the first filter in place.
abbrev pub leaked_tc : TcError → List Resource
leaked_tc (no_filter egress e) = filter ingress ∷ []
leaked_tc _ = []

abbrev pub leaked : StartError → List Resource
leaked (tc_failed e) = leaked_tc e
leaked _ = []

module _ (env : Env) where
  abbrev TcDone : List Resource → Result TcError (List Resource) × Trace → Type 0
  TcDone base (ok links, t) =
      (links ≡ filter ingress ∷ filter egress ∷ [])
      × (held t ≡ filter egress ∷ filter ingress ∷ base)
  TcDone base (err e, t) = held t ≡ leaked_tc e ++ base

  attach_tc-TcDone : (iface : String) (t : Trace) → TcDone (held t) (attach_tc env iface t)
  unfolding attach_tc replace_filters call
  attach_tc-TcDone iface t = ground arith

  abbrev LinksDone :
      List Resource → List Resource → Result StartError (List Resource) × Trace → Type 0
  LinksDone base total (ok links, t) = (links ≡ total) × (held t ≡ reverse total ++ base)
  LinksDone base total (err e, t) = held t ≡ leaked e ++ base

  attach_tracepoints-Done :
      (tps : List Tracepoint) (closers total : List Resource) (t : Trace) (base : List Resource)
      → closers ++ map tracepoint tps ≡ total
      → held t ≡ reverse closers ++ base
      → LinksDone base total (attach_tracepoints env tps closers t)
  unfolding attach_tracepoints call
  attach_tracepoints-Done [] closers total t base eq h =
      (sym (append-nil closers) ∙ eq, rw (← eq, append-nil) h)
  attach_tracepoints-Done (tp ∷ tps) closers total t base eq h =
      elim (Option-cases (env t (attach_raw_tracepoint tp))) [
        | inl e ↦ rw e (
            attach_tracepoints-Done tps (closers ++ (tracepoint tp ∷ [])) total
              ((attach_raw_tracepoint tp, none) ∷ t) base
              (append_assoc closers (tracepoint tp ∷ []) (map tracepoint tps) ∙ eq)
              (rw (reverse-append closers (tracepoint tp ∷ [])) (ap (λ r. tracepoint tp ∷ r) h)))
        | inr (x, e) ↦
            rw e (held-close_all env closers ((attach_raw_tracepoint tp, some x) ∷ t) base h)
      ]

  abbrev five : List Resource
  five =
      tracepoint inet_sock_set_state
      ∷ tracepoint tcp_retransmit_skb
      ∷ tracepoint sched_wakeup
      ∷ tracepoint sched_wakeup_new
      ∷ tracepoint sched_switch
      ∷ []

  -- closeAll past what a failing attachTC has left on top.
  close_past :
      (e : TcError) (t : Trace) (base : List Resource)
      → held t ≡ leaked_tc e ++ (kprobe ∷ (reverse five ++ base))
      → held (close_all env (five ++ (kprobe ∷ [])) t).1 ≡ leaked_tc e ++ base
  unfolding close_all close_each close_resource call
  close_past (no_filter egress e) t base h = rw h
  close_past _ t base h = rw h

  append_tc-Done :
      (r : Result TcError (List Resource)) (t : Trace) (base : List Resource)
      → TcDone (kprobe ∷ (reverse five ++ base)) (r, t)
      → LinksDone base all_links (append_tc env (five ++ (kprobe ∷ [])) r t)
  unfolding append_tc
  append_tc-Done (err e) t base h = close_past e t base h
  append_tc-Done (ok links) t base h = (ap (λ ls. five ++ (kprobe ∷ ls)) h.0, h.1)

  attach_rest-Done :
      (iface : String) (r : Result StartError (List Resource)) (t : Trace) (base : List Resource)
      → LinksDone base five (r, t)
      → LinksDone base all_links (attach_rest env iface r t)
  unfolding attach_rest call
  attach_rest-Done iface (err e) t base h = h
  attach_rest-Done iface (ok links) t base (eq, h) =
      subst (λ ls. LinksDone base all_links (attach_rest env iface (ok ls) t)) (sym eq)
        (elim (Option-cases (env t attach_kprobe)) [
          | inr (x, e) ↦ rw e (held-close_all env five ((attach_kprobe, some x) ∷ t) base h)
          | inl e ↦
              let t' : Trace = (attach_kprobe, none) ∷ t in
              rw e (
                append_tc-Done (attach_tc env iface t').0 (attach_tc env iface t').1 base (
                  subst (λ b. TcDone (kprobe ∷ b) (attach_tc env iface t')) h
                    (attach_tc-TcDone iface t')))
        ])

  attach_programs-Done :
      (iface : String) (t : Trace) → LinksDone (held t) all_links (attach_programs env iface t)
  unfolding attach_programs
  attach_programs-Done iface t = attach_rest-Done iface _ _ (held t) (
      attach_tracepoints-Done
        (inet_sock_set_state ∷ tcp_retransmit_skb ∷ sched_wakeup ∷ sched_wakeup_new ∷ sched_switch
          ∷ [])
        [] five t (held t) refl refl)

  -- What Start leaves acquired on top of `base`: everything if it succeeds, and with the links and
  -- the reader that it returns; what the error says otherwise.
  abbrev pub Started : List Resource → Result StartError Runtime × Trace → Type 0
  Started base (ok rt, t) =
      (rt ≡ record { links = all_links; has_reader = true; close_err = none })
      × (held t ≡ reader ∷ (reverse all_links ++ (objects ∷ base)))
  Started base (err e, t) = held t ≡ leaked e ++ base

  close_objects :
      (e : StartError) (t : Trace) (base : List Resource)
      → held t ≡ leaked e ++ (objects ∷ base)
      → held (close_resource env objects t).1 ≡ leaked e ++ base
  unfolding close_resource call
  close_objects (tc_failed (no_filter egress e)) t base h = rw h
  close_objects (tc_failed _) t base h = rw h
  close_objects _ t base h = rw h

  open_reader-Started :
      (r : Result StartError (List Resource)) (t : Trace) (base : List Resource)
      → LinksDone (objects ∷ base) all_links (r, t)
      → Started base (open_reader env r t)
  unfolding open_reader call
  open_reader-Started (err e) t base h = close_objects e t base h
  open_reader-Started (ok links) t base (eq, h) = elim (Option-cases (env t new_reader)) [
    | inl e ↦ rw e (
      ap (λ ls. record { links = ls; has_reader = true; close_err = none }) eq,
      ap (λ r. reader ∷ r) h,
    )
    | inr (x, e) ↦
        rw (e, eq)
          (held-close_resource env objects (close_all env all_links ((new_reader, some x) ∷ t)).1
            base (held-close_all env all_links ((new_reader, some x) ∷ t) (objects ∷ base) h))
  ]

  configure-Started :
      (opts : Options) (t : Trace) (base : List Resource)
      → held t ≡ objects ∷ base
      → Started base (configure env opts t)
  unfolding configure call
  configure-Started opts t base h =
      let c = update_config (config_entry opts) in
      elim (Option-cases (env t c)) [
        | inr (x, e) ↦ rw e (held-close_resource env objects ((c, some x) ∷ t) base h)
        | inl e ↦ rw e (
            open_reader-Started _ _ base (
              subst (λ b. LinksDone b all_links (attach_programs env opts.iface ((c, none) ∷ t))) h
                (attach_programs-Done opts.iface ((c, none) ∷ t))))
      ]

  -- Start, whatever its calls answer: if it succeeds, it holds the objects, the eight links in order
  -- and the reader, and returns a runtime with those links; if it fails, everything that it
  -- acquired is closed again, but that a failure to replace the egress filter leaves the ingress
  -- filter in place.
  pub start-Started : (opts : Options) (t : Trace) → Started (held t) (start env opts t)
  unfolding start call
  start-Started opts t =
      let t1 : Trace = (remove_memlock, none) ∷ t in
      elim (Option-cases (env t remove_memlock)) [
        | inr (x, e) ↦ rw e refl
        | inl e ↦ rw e (elim (Option-cases (env t1 load_objects)) [
          | inr (x, f) ↦ rw f refl
          | inl f ↦ rw f (configure-Started opts ((load_objects, none) ∷ t1) (held t) refl)
        ])
      ]

  -- The first Close of a started runtime releases all that Start acquired, and a second Close makes
  -- no call and reports the same errors.
  pub close_runtime_lem :
      (rt : Runtime) (t : Trace) (base : List Resource)
      → Started base (ok rt, t)
      → let (first, t1) = close_runtime env rt t in
        let (second, t2) = close_runtime env first.0 t1 in
        (held t1 ≡ base) × (t2 ≡ t1) × (second.1 ≡ first.1)
  unfolding close_runtime close_once
  close_runtime_lem rt t base (eq, h) = rw eq (
    held-close_resource env objects (close_all env all_links (close_resource env reader t).1).1 base
        (held-close_all env all_links (close_resource env reader t).1 (objects ∷ base)
          (held-close_resource env reader t (reverse all_links ++ (objects ∷ base)) h)),
    refl,
    refl,
  )
