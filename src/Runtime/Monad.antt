-- ===== src/Runtime/Monad.antt =====
-- The calls that the runtime makes, their trace, and the monad that threads it.
use Prim.Native.String.{String}
use networkdoctor_prestudy.Base.{ℕ, Bool, Option, List, ◌∷◌}
use networkdoctor_prestudy.Kernel.{NdConfig}

-- An error of a library, by what errors.Is says of it: fs.ErrExist or EEXIST, fs.ErrNotExist or ENOENT.
pub record Err : Type 0 where
  pub exist : Bool
  pub not_exist : Bool
  pub code : ℕ

pub data Tracepoint : Type 0 where
  inet_sock_set_state tcp_retransmit_skb sched_wakeup sched_wakeup_new sched_switch : Tracepoint

pub data Direction : Type 0 where
  ingress egress : Direction

-- What is acquired and closed: the objects, the links, the TC filters and the reader.
pub data Resource : Type 0 where
  objects : Resource
  tracepoint : Tracepoint → Resource
  kprobe : Resource
  filter : Direction → Resource
  reader : Resource

pub data Call : Type 0 where
  remove_memlock : Call
  load_objects : Call
  update_config : NdConfig → Call
  attach_raw_tracepoint : Tracepoint → Call
  attach_kprobe : Call
  link_by_name : String → Call
  qdisc_add : Call
  filter_replace : Direction → Call
  new_reader : Call
  close : Resource → Call

abbrev pub Trace : Type 0
Trace = List (Call × Option Err)

-- The answer to a call after a trace; `none` is success.
abbrev pub Env : Type 0
Env = Trace → Call → Option Err

abbrev pub M : Type 0 → Type 0
M A = Trace → A × Trace

abbrev pub pure : {A : Type 0} → A → M A
pure a t = (a, t)

infixl 5 ◌>>=◌ ◌>>◌
abbrev pub ◌>>=◌ : {A B : Type 0} → M A → (A → M B) → M B
◌>>=◌ m f t = let (a, t') = m t in f a t'

abbrev pub ◌>>◌ : {A B : Type 0} → M A → M B → M B
m >> k = m >>= λ _. k

unfoldable pub call : Env → Call → M (Option Err)
call env c t = (env t c, (c, env t c) ∷ t)
