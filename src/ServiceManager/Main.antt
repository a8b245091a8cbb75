-- ===== src/ServiceManager/Main.antt =====
-- `main` of Demos/BinderCDemo/service_manager.c, without VENDORSERVICEMANAGER: the start-up, and the
-- loop with `svcmgr_handler`. The surroundings are parameters.
pub mod Serving
pub mod Starting
pub mod Handling
pub mod Delivered
use android_source_learn.Prelude.{
  ℕ, ◌+◌, ◌*◌, Bool, true, false, Option, none, some, List, [], ◌∷◌, length, if◌then◌else◌,
}
use android_source_learn.Prelude.Int.{ℤ, pos, minus_one, is_nonzero}
use android_source_learn.Memory.{Memory}
use android_source_learn.Abi.{Abi, TransactionSecctx}
use android_source_learn.Bio.{BinderIo, Parcel}
use android_source_learn.Binder.Parse.{Service}
use android_source_learn.Binder.Call.{Response, Looped, left_loop, waiting, died, binder_loop}
use android_source_learn.Binder.Open.{
  Held, BinderState, OpenAnswers, binder_open, binder_become_context_manager,
}
use android_source_learn.ServiceManager.Access.{System}
use android_source_learn.ServiceManager.Registry.{Svcinfo, Manager, svcinfo_death}
use android_source_learn.ServiceManager.Handler.{Answers, Outcome, svcmgr_handler}
use android_source_learn.ServiceManager.Histories.{start}

-- `malloc` as a function of the nodes that are allocated, and what libselinux answers during the
-- `n`-th transaction.
pub record Environment : Type 0 where
  pub malloc : List Svcinfo → Option ℕ
  pub status_updated : ℕ → Bool
  pub new_sehandle : ℕ → Option ℕ

-- The manager with the buffers of the transactions that it has handled, newest first. The code
-- keeps no such list: it is there to speak of the past.
pub record Process : Type 0 where
  pub manager : Manager
  pub handled : List ℕ

abbrev pub answers_at : Environment → Process → Answers
answers_at env p = record {
  fresh = env.malloc p.manager.svclist;
  status_updated = env.status_updated (length p.handled);
  new_sehandle = env.new_sehandle (length p.handled);
}

abbrev pub after_handler : ℕ → List ℕ → Outcome → Option (Process × Parcel × ℤ)
after_handler buffer handled none = none
after_handler buffer handled (some (m, reply, res)) =
    some (record { manager = m; handled = buffer ∷ handled }, reply, res)

-- `svcmgr_handler`, as `binder_loop` calls it.
unfoldable pub handle :
    System
    → Abi
    → Environment
    → Process
    → TransactionSecctx
    → BinderIo
    → Parcel
    → Option (Process × Parcel × ℤ)
handle sys abi env p txn msg reply =
    after_handler txn.transaction_data.buffer p.handled
      (svcmgr_handler sys abi (answers_at env p) p.manager txn msg reply)

-- The functions that the process hands to the binder library: the handler, and `svcinfo_death` in
-- the `death` of each node.
abbrev pub manager_service : System → Abi → Environment → Service Process
manager_service sys abi env = record {
  trace = λ p. p.manager.written;
  with_trace = λ t p. record p { manager = record (p.manager) { written = t } };
  handler = some (handle sys abi env);
  on_death = λ q p. some (record p { manager = svcinfo_death q p.manager });
}

-- What the surroundings answer before the loop: to `binder_open`, to the two ioctls of
-- `binder_become_context_manager`, to `selinux_android_service_context_handle` and to `getcon`.
pub record StartAnswers : Type 0 where
  pub open_answers : OpenAnswers
  pub set_ext : ℤ
  pub set_original : ℤ
  pub service_contexts : Option ℕ
  pub own_context : Option ℕ

-- The end of `main`, with what the process holds then; or it serves, waiting for the driver; or it
-- aborts.
pub data Ran : Type 0 where
  exited : ℤ → Held → Ran
  served : Process → Held → Ran
  waits : Process → Ran
  aborts : Ran

abbrev pub after_loop : Held → Looped Process → Ran
after_loop h (left_loop p mem) = served p h
after_loop h (waiting p mem) = waits p
after_loop h died = aborts

abbrev pub first_process : ℕ → Process
first_process contexts = record { manager = start contexts; handled = [] }

abbrev pub serve :
    System
    → Abi
    → Environment
    → (rdata readbuf : ℕ) → List Response
    → Memory
    → Held
    → Option ℕ
    → Option ℕ
    → Ran
serve sys abi env rdata readbuf responses mem h none own = aborts
serve sys abi env rdata readbuf responses mem h (some contexts) none = aborts
serve sys abi env rdata readbuf responses mem h (some contexts) (some own) = after_loop h (
    binder_loop abi (manager_service (record sys { service_manager_context = own }) abi env) rdata
      readbuf responses (first_process contexts) mem)

abbrev pub become_manager : StartAnswers → (Held → Ran) → Option BinderState × Held → Ran
become_manager ans next (none, h) = exited minus_one h
become_manager ans next (some bs, h) =
    if is_nonzero (binder_become_context_manager ans.set_ext ans.set_original).0
    then exited minus_one h
    else next h

-- `served` is the end with the result 0. The name of the device, the callbacks for the log and
-- `selinux_status_open` leave no trace in the state.
unfoldable pub svcmgr_main :
    System
    → Abi
    → Environment
    → StartAnswers
    → (rdata readbuf : ℕ) → List Response
    → Memory
    → Held
    → Ran
svcmgr_main sys abi env ans rdata readbuf responses mem h =
    become_manager ans
      (λ h'. serve sys abi env rdata readbuf responses mem h' ans.service_contexts ans.own_context)
      (binder_open abi ans.open_answers (128 * 1024) h)
