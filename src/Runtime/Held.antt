-- ===== src/Runtime/Held.antt =====
-- What a trace leaves acquired, and how closing changes it. A resource counts as closed once its
-- Close has been called, whatever the call answers.
use mathlib.Core.List.{reverse}
use networkdoctor_prestudy.Base.{
  ℕ, ◌≡◌, arith, Bool, true, Option, none, List, [], ◌∷◌, ◌++◌, ◌==◌, if◌then◌else◌,
}
use networkdoctor_prestudy.Runtime.Monad.{
  Err, Tracepoint, inet_sock_set_state, tcp_retransmit_skb, sched_wakeup, sched_wakeup_new,
  sched_switch, ingress, egress, Resource, objects, tracepoint, kprobe, filter, reader, Call,
  load_objects, attach_raw_tracepoint, attach_kprobe, filter_replace, new_reader, close, Trace, Env,
  call,
}
use networkdoctor_prestudy.Runtime.{close_resource, close_each, close_all}

-- Resources apart by number.
abbrev tracepoint_number : Tracepoint → ℕ
tracepoint_number inet_sock_set_state = 1
tracepoint_number tcp_retransmit_skb = 2
tracepoint_number sched_wakeup = 3
tracepoint_number sched_wakeup_new = 4
tracepoint_number sched_switch = 5

abbrev resource_number : Resource → ℕ
resource_number objects = 0
resource_number (tracepoint tp) = tracepoint_number tp
resource_number kprobe = 6
resource_number (filter ingress) = 7
resource_number (filter egress) = 8
resource_number reader = 9

abbrev pub same : Resource → Resource → Bool
same x y = resource_number x == resource_number y

pub same_self : (x : Resource) → same x x ≡ true
same_self x = ground arith

abbrev pub release : Resource → List Resource → List Resource
release x [] = []
release x (y ∷ ys) = if same x y then ys else y ∷ release x ys

release_top : (x : Resource) (xs rest : List Resource) → xs ≡ x ∷ rest → release x xs ≡ rest
release_top x xs rest e = rw (e, same_self x)

-- What a call acquires if it succeeds, and what it releases.
abbrev pub effect : Call → Option Err → List Resource → List Resource
effect load_objects none held = objects ∷ held
effect (attach_raw_tracepoint tp) none held = tracepoint tp ∷ held
effect attach_kprobe none held = kprobe ∷ held
effect (filter_replace d) none held = filter d ∷ held
effect new_reader none held = reader ∷ held
effect (close x) r held = release x held
effect _ r held = held

-- The resources that a trace has acquired and not closed, the newest first.
abbrev pub held : Trace → List Resource
held [] = []
held ((c, r) ∷ t) = effect c r (held t)

module _ (env : Env) where
  pub held-close_resource :
      (x : Resource) (t : Trace) (rest : List Resource)
      → held t ≡ x ∷ rest
      → held (close_resource env x t).1 ≡ rest
  unfolding close_resource call
  held-close_resource objects t rest e = release_top objects (held t) rest e
  held-close_resource (tracepoint tp) t rest e = release_top (tracepoint tp) (held t) rest e
  held-close_resource kprobe t rest e = release_top kprobe (held t) rest e
  held-close_resource (filter d) t rest e = release_top (filter d) (held t) rest e
  held-close_resource reader t rest e = release_top reader (held t) rest e

  held-close_each :
      (xs : List Resource) (t : Trace) (rest : List Resource)
      → held t ≡ xs ++ rest
      → held (close_each env xs t).1 ≡ rest
  unfolding close_each
  held-close_each [] t rest e = e
  held-close_each (x ∷ xs) t rest e =
      held-close_each xs (close_resource env x t).1 rest (held-close_resource x t (xs ++ rest) e)

  -- closeAll releases the links that were acquired last, in the order of their list.
  pub held-close_all :
      (xs : List Resource) (t : Trace) (rest : List Resource)
      → held t ≡ reverse xs ++ rest
      → held (close_all env xs t).1 ≡ rest
  unfolding close_all
  held-close_all xs t rest e = held-close_each (reverse xs) t rest e
