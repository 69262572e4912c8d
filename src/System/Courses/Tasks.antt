-- ===== src/System/Courses/Tasks.antt =====
-- The tasks that wait to run, after any course of hooks and collections: nd_runq_start as a table of
-- the times of their wakeups.
use networkdoctor_prestudy.Base.{
  ℕ, ◌≡◌, refl, sym, ap, ◌∙◌, Option, none, some, List, [], ◌∷◌, ◌++◌, ◌==◌, if◌then◌else◌,
  ℕ_discrete, Bool-cases, Option-cases, inl, inr,
}
use mathlib.Core.Path.{fun_ext}
use networkdoctor_prestudy.Platform.{BpfMaps, MapLaws, NeverFull, lookup-delete_gone}
use networkdoctor_prestudy.Kernel.{Objects}
use networkdoctor_prestudy.Kernel.Helpers.{Hook}
use networkdoctor_prestudy.Kernel.Sched.{
  nd_sched_wakeup_common, nd_sched_wakeup, nd_sched_wakeup_new, switch_to, nd_sched_switch,
}
use networkdoctor_prestudy.Kernel.Sched.Latency.{switch_to-found}
use networkdoctor_prestudy.System.{
  Step, inet_sock_set_state, tcp_rcv_established, tcp_retransmit_skb, tc, sched_wakeup,
  sched_wakeup_new, sched_switch, collection, Reach, fresh, later,
}
use networkdoctor_prestudy.System.Net.{
  set_state-SameTasks, rcv_established-SameKept, retransmit-SameKept,
}
use networkdoctor_prestudy.System.Table.{replays-append, replays, set_at, set_at-eq}
use networkdoctor_prestudy.System.Courses.Frames.{tc-locals, gc-locals}

abbrev pub Table : Type 0
Table = ℕ → Option ℕ

-- A task is woken at a time, or comes to run.
pub data Op : Type 0 where
  wake : ℕ → ℕ → Op
  run : ℕ → Op

abbrev pub apply : Op → Table → Table
apply (wake pid now) t = set_at ℕ_discrete t pid (some now)
apply (run pid) t = set_at ℕ_discrete t pid none

abbrev pub replay : List Op → Table → Table
replay = replays apply

-- The idle task is none.
abbrev pub wake_ops : Hook → Option ℕ → List Op
wake_ops h none = []
wake_ops h (some pid) = if pid == 0 then [] else wake pid (h.ktime 0) ∷ []

abbrev pub run_ops : Option ℕ → List Op
run_ops none = []
run_ops (some pid) = if pid == 0 then [] else run pid ∷ []

module _ {m : BpfMaps} where
  abbrev pub step_task_ops : {o o' : Objects m} → Step m o o' → List Op
  step_task_ops (sched_wakeup h p _ _) = wake_ops h p
  step_task_ops (sched_wakeup_new h p _ _) = wake_ops h p
  step_task_ops (sched_switch h p _ _) = run_ops p
  step_task_ops _ = []

  abbrev pub task_ops : {o o' : Objects m} → Reach m o o' → List Op
  task_ops fresh = []
  task_ops (later r st) = task_ops r ++ step_task_ops st

module _ (m : BpfMaps) (laws : MapLaws m) (full : NeverFull m ℕ ℕ_discrete ℕ) where
  open m use {lookup, update, delete}

  abbrev pub table : Objects m → Table
  table o pid = lookup o.nd_runq_start pid

  -- The table after a state, as the operations make it of the table before.
  abbrev Follows : List Op → Objects m → Objects m → Type 0
  Follows ops o o' = (pid : ℕ) → table o' pid ≡ replay ops (table o) pid

  same-Follows : (o o' : Objects m) → o'.nd_runq_start ≡ o.nd_runq_start → Follows [] o o'
  same-Follows o o' e pid = ap (λ s. lookup s pid) e

  wakeup-Follows :
      (h : Hook) (p : Option ℕ) (o : Objects m)
      → Follows (wake_ops h p) o (nd_sched_wakeup_common m h p o)
  unfolding nd_sched_wakeup_common
  wakeup-Follows h none o k = refl
  wakeup-Follows h (some pid) o k = elim (Bool-cases (pid == 0)) [
    | inl idle ↦ rw idle refl
    | inr task ↦ rw task (
        set_at-eq ℕ_discrete (table o) pid (some (h.ktime 0))
          (lookup (update o.nd_runq_start pid (h.ktime 0)))
          (full.update_self o.nd_runq_start pid (h.ktime 0))
          (λ j ne. full.update_ne o.nd_runq_start pid j (h.ktime 0) ne) k)
  ]

  switch_to-Follows :
      (h : Hook) (pid : ℕ) (o : Objects m) → Follows (run pid ∷ []) o (switch_to m h pid o)
  unfolding switch_to
  switch_to-Follows h pid o = elim (Option-cases (lookup o.nd_runq_start pid)) [
    | inl e ↦ rw (switch_to, e) (set_at-eq ℕ_discrete (table o) pid none (table o) e (λ j ne. refl))
    | inr (start, e) ↦
        let gone = (switch_to-found m h pid start o e).0 in
        set_at-eq ℕ_discrete (table o) pid none (table (switch_to m h pid o))
          (ap (λ s. lookup s pid) gone
            ∙ lookup-delete_gone m ℕ ℕ_discrete ℕ laws full.never_fails o.nd_runq_start pid)
          (λ j ne. ap (λ s. lookup s j) gone ∙ laws.lookup-delete_ne o.nd_runq_start pid j ne)
  ]

  switch-Follows :
      (h : Hook) (p : Option ℕ) (o : Objects m) → Follows (run_ops p) o (nd_sched_switch m h p o)
  unfolding nd_sched_switch
  switch-Follows h none o k = refl
  switch-Follows h (some pid) o k = elim (Bool-cases (pid == 0)) [
    | inl idle ↦ rw idle refl
    | inr task ↦ rw task (switch_to-Follows h pid o k)
  ]

  Step-Follows : {o o' : Objects m} (st : Step m o o') → Follows (step_task_ops st) o o'
  unfolding nd_sched_wakeup nd_sched_wakeup_new
  Step-Follows {o} {o'} (inet_sock_set_state h sk a b _ _ _ _) =
      same-Follows o o' (ap (λ n. n.1) (set_state-SameTasks m h sk a b o))
  Step-Follows {o} {o'} (tcp_rcv_established h sk _ _) =
      same-Follows o o' (ap (λ n. n.1) (rcv_established-SameKept m h sk o))
  Step-Follows {o} {o'} (tcp_retransmit_skb h sk _ _) =
      same-Follows o o' (ap (λ n. n.1) (retransmit-SameKept m h sk o))
  Step-Follows {o} {o'} (tc h skb direction _ _ e) =
      same-Follows o o' (ap (λ n. n.0) (tc-locals m h skb direction o o' e))
  Step-Follows {o} (sched_wakeup h p _ _) = wakeup-Follows h p o
  Step-Follows {o} (sched_wakeup_new h p _ _) = wakeup-Follows h p o
  Step-Follows {o} (sched_switch h p _ _) = switch-Follows h p o
  Step-Follows {o} {o'} (collection clock pending flows dns_timeout udp_idle) =
      same-Follows o o' (ap (λ n. n.0) (gc-locals m clock pending flows dns_timeout udp_idle o))

  -- If the map of the waiting tasks is never full, any course of hooks on any packets, sockets and tasks
  -- and of collections, in any order, takes the map from table to table, under every pid, as its
  -- wakeups and switches do: a wakeup, of an old task or a new one, sets the time under its pid, a
  -- switch takes what is there away, and the idle task does neither.
  pub Reach-task_table :
      {o o' : Objects m} (r : Reach m o o') (pid : ℕ)
      → table o' pid ≡ replay (task_ops r) (table o) pid
  Reach-task_table fresh pid = refl
  Reach-task_table {o} (later r st) pid =
      Step-Follows st pid
      ∙ ap (λ t. replay (step_task_ops st) t pid) (fun_ext (Reach-task_table r))
      ∙ ap (λ (t : Table). t pid)
          (sym (replays-append apply (task_ops r) (step_task_ops st) (table o)))
