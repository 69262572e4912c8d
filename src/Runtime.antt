-- ===== src/Runtime.antt =====
-- internal/bpf/runtime.go, attach.go, tc.go, util.go and config.go: loading, attaching and closing.
-- Each call of a library is one entry of a trace, the newest first; what it answers is up to the
-- environment, which may look at the whole trace. Logging is left out.
pub mod Monad
pub mod Held
pub mod Cleanup
pub mod Filters
pub mod Placed
pub mod Attached
pub mod Cleared
use Prim.Native.String.{String}
use mathlib.Core.List.{reverse}
use networkdoctor_prestudy.Base.{
  ℕ, ◌+◌, Bool, true, false, not, Option, none, some, List, [], ◌∷◌, ◌++◌, if◌then◌else◌,
}
use networkdoctor_prestudy.Kernel.{NdConfig}
use networkdoctor_prestudy.Config.{Options, config_entry}
use Monad.{
  Err, Tracepoint, inet_sock_set_state, tcp_retransmit_skb, sched_wakeup, sched_wakeup_new,
  sched_switch, Direction, ingress, egress, Resource, objects, tracepoint, kprobe, filter, reader,
  Call, remove_memlock, load_objects, update_config, attach_raw_tracepoint, attach_kprobe,
  link_by_name, qdisc_add, filter_replace, new_reader, close, Trace, Env, M, pure, ◌>>=◌, ◌>>◌,
  call,
}

pub data TcError : Type 0 where
  no_interface : Err → TcError
  no_qdisc : Err → TcError
  no_filter : Direction → Err → TcError

-- The wrapped errors of Start, with the messages as constructors.
pub data StartError : Type 0 where
  memlock_failed : Err → StartError
  load_failed : Err → StartError
  config_failed : Err → StartError
  tracepoint_failed : Tracepoint → Err → StartError
  kprobe_failed : Err → StartError
  tc_failed : TcError → StartError
  reader_failed : Err → StartError

pub data Result {ℓ} (E A : Type ℓ) : Type ℓ where
  ok : A → Result E A
  err : E → Result E A

unfoldable pub is_exists : Err → Bool
is_exists e = e.exist

unfoldable pub is_not_found : Err → Bool
is_not_found e = e.not_exist

-- The Runtime's links and reader, and closeOnce with closeErr: `none` before the first Close.
pub record Runtime : Type 0 where
  pub links : List Resource
  pub has_reader : Bool
  pub close_err : Option (List Err)

module _ (env : Env) where
  -- One Close; that of a TC filter, FilterDel, takes a missing filter for success.
  unfoldable pub close_resource : Resource → M (Option Err)
  unfolding is_not_found
  close_resource (filter d) = do
    r ← call env (close (filter d))
    pure (elim r [ none ↦ none | some e ↦ if not (is_not_found e) then some e else none ])
  close_resource x = call env (close x)

  pub close_each : List Resource → M (Unit {0})
  unfolding close_resource
  close_each [] = pure tt
  close_each (x ∷ xs) = do close_resource x; close_each xs

  -- closeAll runs from the last element to the first.
  unfoldable pub close_all : List Resource → M (Unit {0})
  unfolding close_each
  close_all closers = close_each (reverse closers)

  pub attach_tracepoints : List Tracepoint → List Resource → M (Result StartError (List Resource))
  unfolding close_all
  attach_tracepoints [] closers = pure (ok closers)
  attach_tracepoints (tp ∷ tps) closers =
      let rest = attach_tracepoints tps (closers ++ (tracepoint tp ∷ [])) in
      (do
        r ← call env (attach_raw_tracepoint tp)
        elim r [
          | none ↦ rest
          | some e ↦ (do close_all closers; pure (err (tracepoint_failed tp e)))
        ])

  -- The loop over the two filters of attachTC.
  pub replace_filters : List Direction → M (Result TcError (Unit {0}))
  replace_filters [] = pure (ok tt)
  replace_filters (d ∷ ds) =
      let rest = replace_filters ds in
      (do
        r ← call env (filter_replace d)
        elim r [ none ↦ rest | some e ↦ pure (err (no_filter d e)) ])

  unfoldable pub attach_tc : String → M (Result TcError (List Resource))
  unfolding replace_filters is_exists
  attach_tc iface = do
    found ← call env (link_by_name iface)
    elim found [
      | some e ↦ pure (err (no_interface e))
      | none ↦ (do
        added ← call env qdisc_add
        let refused : Option Err = elim added [
          | none ↦ none
          | some e ↦ if not (is_exists e) then some e else none
        ]
        elim refused [
          | some e ↦ pure (err (no_qdisc e))
          | none ↦ (do
            replaced ← replace_filters (ingress ∷ egress ∷ [])
            pure
                (elim replaced [ err e ↦ err e | ok _ ↦ ok (filter ingress ∷ filter egress ∷ []) ]))
        ])
    ]

  -- The end of attachPrograms, on the answer of attachTC.
  unfoldable pub append_tc :
      List Resource → Result TcError (List Resource) → M (Result StartError (List Resource))
  unfolding close_all
  append_tc closers (err e) = do close_all closers; pure (err (tc_failed e))
  append_tc closers (ok tc_closers) = pure (ok (closers ++ tc_closers))

  -- Behind the tracepoints: the kprobe and the TC filters.
  unfoldable pub attach_rest :
      String → Result StartError (List Resource) → M (Result StartError (List Resource))
  unfolding close_all attach_tc append_tc
  attach_rest iface (err e) = pure (err e)
  attach_rest iface (ok closers) = do
    r ← call env attach_kprobe
    elim r [
      | some e ↦ (do close_all closers; pure (err (kprobe_failed e)))
      | none ↦ (do tc ← attach_tc iface; append_tc (closers ++ (kprobe ∷ [])) tc)
    ]

  unfoldable pub attach_programs : String → M (Result StartError (List Resource))
  unfolding attach_tracepoints attach_rest
  attach_programs iface = do
    attached ←
        attach_tracepoints
          (inet_sock_set_state ∷ tcp_retransmit_skb ∷ sched_wakeup ∷ sched_wakeup_new ∷ sched_switch
            ∷ [])
          []
    attach_rest iface attached

  -- Start on the answer of attachPrograms.
  unfoldable pub open_reader : Result StartError (List Resource) → M (Result StartError Runtime)
  unfolding close_all close_resource
  open_reader (err e) = do close_resource objects; pure (err e)
  open_reader (ok links) = do
    r ← call env new_reader
    elim r [
      | some e ↦ (do close_all links; close_resource objects; pure (err (reader_failed e)))
      | none ↦ pure (ok (record { links = links; has_reader = true; close_err = none }))
    ]

  -- Start with the objects loaded.
  unfoldable pub configure : Options → M (Result StartError Runtime)
  unfolding attach_programs open_reader config_entry close_resource
  configure opts = do
    written ← call env (update_config (config_entry opts))
    elim written [
      | some e ↦ (do close_resource objects; pure (err (config_failed e)))
      | none ↦ (do attached ← attach_programs opts.iface; open_reader attached)
    ]

  unfoldable pub start : Options → M (Result StartError Runtime)
  unfolding configure
  start opts = do
    lifted ← call env remove_memlock
    elim lifted [
      | some e ↦ pure (err (memlock_failed e))
      | none ↦ (do
        loaded ← call env load_objects
        elim loaded [ some e ↦ pure (err (load_failed e)) | none ↦ configure opts ])
    ]

  -- `errors.Join` of the errors that are not nil.
  abbrev join : Option Err → List Err → List Err
  join none errs = errs
  join (some e) errs = e ∷ errs

  -- The body that closeOnce runs.
  unfoldable pub close_once : Runtime → M (Runtime × List Err)
  unfolding close_all close_resource
  close_once rt = do
    r ← (if rt.has_reader then close_resource reader else pure none)
    close_all rt.links
    o ← close_resource objects
    let errs = join r (join o [])
    pure (record rt { close_err = some errs }, errs)

  unfoldable pub close_runtime : Runtime → M (Runtime × List Err)
  unfolding close_once
  close_runtime rt = elim rt.close_err [ some errs ↦ pure (rt, errs) | none ↦ close_once rt ]
