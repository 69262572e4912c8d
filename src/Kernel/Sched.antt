-- ===== src/Kernel/Sched.antt =====
-- bpf/networkdoctor.bpf.c: the scheduler hooks. A task is its pid, NULL is `none`.
pub mod Latency
use networkdoctor_prestudy.Base.{ℕ, ◌-◌, ◌/◌, Option, none, some, ltb, leb, ◌==◌, if◌then◌else◌}
use networkdoctor_prestudy.Platform.{BpfMaps}
use networkdoctor_prestudy.Histogram.{nd_log2_bucket}
use networkdoctor_prestudy.Kernel.{Objects}
use networkdoctor_prestudy.Kernel.Helpers.{Hook, nd_get_config, high_runqlat}
use networkdoctor_prestudy.Kernel.Update.{nd_inc_u64_percpu_array, nd_submit_event}

module _ (m : BpfMaps) where
  open m use {lookup, update, delete}

  unfoldable pub nd_sched_wakeup_common : Hook → Option ℕ → Objects m → Objects m
  nd_sched_wakeup_common h none o = o
  nd_sched_wakeup_common h (some pid) o =
      if pid == 0 then o else record o { nd_runq_start = update o.nd_runq_start pid (h.ktime 0) }

  unfoldable pub nd_sched_wakeup : Hook → Option ℕ → Objects m → Objects m
  unfolding nd_sched_wakeup_common
  nd_sched_wakeup h p o = nd_sched_wakeup_common h p o

  unfoldable pub nd_sched_wakeup_new : Hook → Option ℕ → Objects m → Objects m
  unfolding nd_sched_wakeup_common
  nd_sched_wakeup_new h p o = nd_sched_wakeup_common h p o

  -- The block under `if (now > *start)`. The difference is positive there, so `-` is exact.
  unfoldable pub record_runqlat : Hook → ℕ → ℕ → Objects m → Objects m
  record_runqlat h next_pid start o =
      let runqlat_us = (h.ktime 0 - start) / 1000 in
      let b = nd_log2_bucket runqlat_us in
      let o' = record o {
        nd_runqlat_us_hist = nd_inc_u64_percpu_array m o.nd_runqlat_us_hist h.cpu b;
      } in
      if leb (nd_get_config o'.nd_config).high_runqlat_us runqlat_us
      then nd_submit_event m h 1 high_runqlat none runqlat_us next_pid o'
      else o'

  -- From the lookup of the task's wakeup on.
  unfoldable pub switch_to : Hook → ℕ → Objects m → Objects m
  unfolding record_runqlat
  switch_to h next_pid o = elim (lookup o.nd_runq_start next_pid) [
    | none ↦ o
    | some start ↦
        let o' = if ltb start (h.ktime 0) then record_runqlat h next_pid start o else o in
        record o' { nd_runq_start = (delete o'.nd_runq_start next_pid).0 }
  ]

  unfoldable pub nd_sched_switch : Hook → Option ℕ → Objects m → Objects m
  unfolding switch_to
  nd_sched_switch h none o = o
  nd_sched_switch h (some next_pid) o = if next_pid == 0 then o else switch_to h next_pid o
