-- ===== src/Kernel/Sched/Latency.antt =====
-- The scheduler hooks: one sample for each wakeup that is followed by a switch.
use networkdoctor_prestudy.Base.{
  ℕ, ◌-◌, ◌/◌, ◌≡◌, ◌≢◌, refl, ap, ◌∙◌, arith, Option, none, some, List, [], ◌∷◌, ltb,
  if◌then◌else◌, ne→==, eq→==, ◌⊎◌, ℕ_discrete, inl, inr, Bool-cases, Option-cases,
}
use networkdoctor_prestudy.Platform.{BpfMaps, MapLaws, NeverFails, lookup-delete_gone}
use networkdoctor_prestudy.Histogram.{nd_log2_bucket}
use networkdoctor_prestudy.Kernel.{Objects}
use networkdoctor_prestudy.Kernel.Helpers.{Hook}
use networkdoctor_prestudy.Kernel.Update.{nd_inc_u64_percpu_array, nd_submit_event}
use networkdoctor_prestudy.Kernel.Sched.{
  nd_sched_wakeup_common, nd_sched_wakeup, nd_sched_wakeup_new, record_runqlat, switch_to,
  nd_sched_switch,
}

module _ (m : BpfMaps) where
  open m use {PerCpu, lookup, delete}

  -- The run-queue histogram after a task that woke at `start` has been switched to.
  abbrev pub waited : Hook → ℕ → PerCpu ℕ → PerCpu ℕ
  waited h start hist =
      if ltb start (h.ktime 0)
      then nd_inc_u64_percpu_array m hist h.cpu (nd_log2_bucket ((h.ktime 0 - start) / 1000))
      else hist

  record_runqlat-frame :
      (h : Hook) (pid start : ℕ) (o : Objects m)
      → let o' = record_runqlat m h pid start o in
        (o'.nd_runq_start ≡ o.nd_runq_start)
        × (o'.nd_runqlat_us_hist
            ≡ nd_inc_u64_percpu_array m o.nd_runqlat_us_hist h.cpu
                (nd_log2_bucket ((h.ktime 0 - start) / 1000)))
  unfolding record_runqlat nd_submit_event
  record_runqlat-frame h pid start o = (ground arith, ground arith)

  pub switch_to-found :
      (h : Hook) (pid start : ℕ) (o : Objects m)
      → lookup o.nd_runq_start pid ≡ some start
      → ((switch_to m h pid o).nd_runq_start ≡ (delete o.nd_runq_start pid).0)
        × ((switch_to m h pid o).nd_runqlat_us_hist ≡ waited h start o.nd_runqlat_us_hist)
  unfolding switch_to
  switch_to-found h pid start o e = elim (Bool-cases (ltb start (h.ktime 0))) [
    | inl t ↦
        let (same, hist) = record_runqlat-frame h pid start o in
        rw (switch_to, e, t) (ap (λ s. (delete s pid).0) same, hist)
    | inr t ↦ rw (switch_to, e, t) (refl, refl)
  ]

  -- A wakeup of a task other than the idle task and, in the next step, a switch to it, if the map
  -- takes the wakeup and no delete fails: the histogram of the CPU that switches gets one sample, in
  -- the bucket of the whole microseconds between the two, unless the clock did not advance; and the
  -- wakeup is no longer recorded.
  pub wakeup-switch :
      MapLaws m
      → NeverFails m ℕ ℕ_discrete ℕ
      → (h h' : Hook) (pid : ℕ) (o : Objects m) → pid ≢ 0
      → lookup (nd_sched_wakeup m h (some pid) o).nd_runq_start pid ≡ some (h.ktime 0)
      → let o' = nd_sched_switch m h' (some pid) (nd_sched_wakeup m h (some pid) o) in
        (o'.nd_runqlat_us_hist ≡ waited h' (h.ktime 0) o.nd_runqlat_us_hist)
        × (lookup o'.nd_runq_start pid ≡ none)
  unfolding nd_sched_switch
  wakeup-switch laws ok h h' pid o ne taken =
      let woken = nd_sched_wakeup m h (some pid) o in
      let (gone, hist) = switch_to-found h' pid (h.ktime 0) woken taken in
      rw (ne→== pid 0 ne) (
        hist ∙ ap (waited h' (h.ktime 0)) (wakeup-hist h pid o),
        ap (λ s. lookup s pid) gone
            ∙ lookup-delete_gone m ℕ ℕ_discrete ℕ laws ok woken.nd_runq_start pid,
      )
    where
      wakeup-hist :
          (h : Hook) (pid : ℕ) (o : Objects m)
          → (nd_sched_wakeup m h (some pid) o).nd_runqlat_us_hist ≡ o.nd_runqlat_us_hist
      wakeup-hist h pid o = unfold nd_sched_wakeup nd_sched_wakeup_common in ground arith

-- One run of a scheduler hook.
pub data SchedStep : Type 0 where
  wakeup : Hook → Option ℕ → SchedStep
  wakeup_new : Hook → Option ℕ → SchedStep
  switch : Hook → Option ℕ → SchedStep

module _ (m : BpfMaps) (laws : MapLaws m) where
  open m use {lookup}

  abbrev pub sched_steps : List SchedStep → Objects m → Objects m
  sched_steps [] o = o
  sched_steps (wakeup h p ∷ steps) o = sched_steps steps (nd_sched_wakeup m h p o)
  sched_steps (wakeup_new h p ∷ steps) o = sched_steps steps (nd_sched_wakeup_new m h p o)
  sched_steps (switch h p ∷ steps) o = sched_steps steps (nd_sched_switch m h p o)

  wakeup-idle :
      (h : Hook) (p : Option ℕ) (o : Objects m)
      → lookup o.nd_runq_start 0 ≡ none
      → lookup (nd_sched_wakeup_common m h p o).nd_runq_start 0 ≡ none
  unfolding nd_sched_wakeup_common
  wakeup-idle h none o e = e
  wakeup-idle h (some pid) o e = elim (ℕ_discrete pid 0) [
    | yes p ↦ rw (eq→== pid 0 p) e
    | no n ↦ rw (ne→== pid 0 n) (elim (laws.lookup-update_ne o.nd_runq_start pid 0 (h.ktime 0) n) [
      | inl same ↦ same ∙ e
      | inr gone ↦ gone
    ])
  ]

  switch-idle :
      (h : Hook) (p : Option ℕ) (o : Objects m)
      → lookup o.nd_runq_start 0 ≡ none
      → lookup (nd_sched_switch m h p o).nd_runq_start 0 ≡ none
  unfolding nd_sched_switch switch_to
  switch-idle h none o e = e
  switch-idle h (some pid) o e = elim (ℕ_discrete pid 0) [
    | yes p ↦ rw (eq→== pid 0 p) e
    | no n ↦ rw (ne→== pid 0 n) (switched n (Option-cases (lookup o.nd_runq_start pid)))
  ]
    where
      switched :
          pid ≢ 0
          → (lookup o.nd_runq_start pid ≡ none) ⊎ ((s : ℕ) × (lookup o.nd_runq_start pid ≡ some s))
          → lookup (switch_to m h pid o).nd_runq_start 0 ≡ none
      switched n (inl q) = rw (switch_to, q) e
      switched n (inr (start, q)) =
          ap (λ s. lookup s 0) (switch_to-found m h pid start o q).0
          ∙ laws.lookup-delete_ne o.nd_runq_start pid 0 n
          ∙ e

  -- The idle task is never recorded as woken: over any course of the scheduler hooks, on any CPUs and
  -- with whatever tasks or NULL pointers, there is nothing under pid 0 if there was nothing at first.
  pub sched_steps-idle :
      (steps : List SchedStep) (o : Objects m)
      → lookup o.nd_runq_start 0 ≡ none
      → lookup (sched_steps steps o).nd_runq_start 0 ≡ none
  unfolding nd_sched_wakeup nd_sched_wakeup_new
  sched_steps-idle [] o e = e
  sched_steps-idle (wakeup h p ∷ steps) o e = sched_steps-idle steps _ (wakeup-idle h p o e)
  sched_steps-idle (wakeup_new h p ∷ steps) o e = sched_steps-idle steps _ (wakeup-idle h p o e)
  sched_steps-idle (switch h p ∷ steps) o e = sched_steps-idle steps _ (switch-idle h p o e)
