-- ===== src/System/Courses/Waits.antt =====
-- The wait of a task to run, with anything else between its wakeup and the switch to it.
use networkdoctor_prestudy.Base.{ℕ, ◌≡◌, ◌≢◌, ap, ◌∙◌, some, none, All, ne→==, ℕ_discrete}
use networkdoctor_prestudy.Platform.{BpfMaps, MapLaws, NeverFull, lookup-delete_gone}
use networkdoctor_prestudy.Kernel.{Objects}
use networkdoctor_prestudy.Kernel.Helpers.{Hook}
use networkdoctor_prestudy.Kernel.Sched.{nd_sched_wakeup_common, nd_sched_wakeup, nd_sched_switch}
use networkdoctor_prestudy.Kernel.Sched.Latency.{waited, switch_to-found}
use networkdoctor_prestudy.System.{Reach}
use networkdoctor_prestudy.System.Table.{replays-keep, set_at-other}
use networkdoctor_prestudy.System.Courses.Tasks.{
  Op, wake, run, Table, apply, task_ops, Reach-task_table,
}

-- An operation on another task.
abbrev pub Spares : ℕ → Op → Type 0
Spares pid (wake p now) = p ≢ pid
Spares pid (run p) = p ≢ pid

apply-Spares :
    (pid : ℕ) (v : ℕ) (op : Op) (t : Table)
    → Spares pid op
    → t pid ≡ some v
    → apply op t pid ≡ some v
apply-Spares pid v (wake p now) t ne e = set_at-other ℕ_discrete t p pid (some now) ne ∙ e
apply-Spares pid v (run p) t ne e = set_at-other ℕ_discrete t p pid none ne ∙ e

module _ (m : BpfMaps) (laws : MapLaws m) (full : NeverFull m ℕ ℕ_discrete ℕ) where
  -- A wakeup of a task other than the idle task; then any course of hooks and collections without a
  -- wakeup of that task or a switch to it; then a switch to it. If the map of the waiting tasks is
  -- never full, the run-queue histogram of the CPU that switches gets one sample over what the course
  -- made of it, in the bucket of the whole microseconds between wakeup and switch, unless the clock
  -- did not advance; and the wakeup is no longer recorded.
  pub wakeup_switch_in_course :
      (h h' : Hook) (pid : ℕ) (o : Objects m) {o2 : Objects m}
      (r : Reach m (nd_sched_wakeup m h (some pid) o) o2)
      → pid ≢ 0
      → All (Spares pid) (task_ops r)
      → let o3 = nd_sched_switch m h' (some pid) o2 in
        (o3.nd_runqlat_us_hist ≡ waited m h' (h.ktime 0) o2.nd_runqlat_us_hist)
        × (m.lookup o3.nd_runq_start pid ≡ none)
  unfolding nd_sched_wakeup nd_sched_wakeup_common nd_sched_switch
  wakeup_switch_in_course h h' pid o {o2} r ne spares =
      let o1 = nd_sched_wakeup m h (some pid) o in
      let set : m.lookup o1.nd_runq_start pid ≡ some (h.ktime 0) =
        rw (ne→== pid 0 ne) (full.update_self o.nd_runq_start pid (h.ktime 0)) in
      let found : m.lookup o2.nd_runq_start pid ≡ some (h.ktime 0) =
        Reach-task_table m laws full r pid
        ∙ replays-keep apply (Spares pid) (λ t. t pid ≡ some (h.ktime 0))
            (apply-Spares pid (h.ktime 0)) (task_ops r) (m.lookup o1.nd_runq_start) spares set in
      let (gone, hist) = switch_to-found m h' pid (h.ktime 0) o2 found in
      rw (ne→== pid 0 ne) (
        hist,
        ap (λ s. m.lookup s pid) gone
            ∙ lookup-delete_gone m ℕ ℕ_discrete ℕ laws full.never_fails o2.nd_runq_start pid,
      )
