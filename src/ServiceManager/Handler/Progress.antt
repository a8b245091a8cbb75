-- ===== src/ServiceManager/Handler/Progress.antt =====
-- The handler never aborts once the service contexts are there, which `main` makes sure of.
use android_source_learn.Prelude.{
  ℕ, ◌≡◌, ◌≢◌, Bool, Option, none, some, List, Option-cases, inl, inr, arith,
}
use android_source_learn.Prelude.Int.{ℤ}
use android_source_learn.Memory.{load_units}
use android_source_learn.Abi.{Abi, TransactionSecctx}
use android_source_learn.Bio.{BinderIo, Parcel, bio_get_string16}
use android_source_learn.ServiceManager.Access.{System, svc_can_find, svc_can_register}
use android_source_learn.ServiceManager.Registry.{
  Svcinfo, Manager, find_svc, svcinfo_death, override, enter, do_find_service, do_add_service,
}
use android_source_learn.ServiceManager.Handler.{
  Answers, Outcome, refresh_sehandle, finish_add, find_named, handle_find, handle_add, handle_list,
  dispatch, svcmgr_handler,
}
use android_source_learn.ServiceManager.Handler.Effects.{svcmgr_handler_cases}

-- The outcome is no abort, and the service contexts are still there.
abbrev pub Serves : Outcome → Type 0
Serves none = ⊥
Serves (some (m, _, _)) = m.sehandle ≢ none

-- The same of a registration.
abbrev Adds : Option (Manager × ℤ) → Type 0
Adds none = ⊥
Adds (some (m, _)) = m.sehandle ≢ none

pub override-sehandle :
    (handle : ℕ) (si : Svcinfo) (m : Manager) → (override handle si m).sehandle ≡ m.sehandle
unfolding override svcinfo_death
override-sehandle handle si m = ground arith

finish_add-Serves :
    (o : Option (Manager × ℤ)) (reply : Parcel) → Adds o → Serves (finish_add o reply)
unfolding finish_add
finish_add-Serves none reply a = a
finish_add-Serves (some (m, res)) reply a = ground arith

module _ (sys : System) where
  -- With service contexts a permission is granted or denied.
  can_find-some :
      (c : Option ℕ) (s : List ℕ) (spid sid uid : ℕ)
      → c ≢ none
      → svc_can_find sys c s spid sid uid ≢ none
  unfolding svc_can_find
  can_find-some c s spid sid uid ready = ground arith

  can_register-some :
      (c : Option ℕ) (s : List ℕ) (spid sid uid : ℕ)
      → c ≢ none
      → svc_can_register sys c s spid sid uid ≢ none
  unfolding svc_can_register
  can_register-some c s spid sid uid ready = ground arith

  do_find_service-some :
      (s : List ℕ) (uid spid sid : ℕ) (m : Manager)
      → m.sehandle ≢ none
      → do_find_service sys s uid spid sid m ≢ none
  unfolding do_find_service
  do_find_service-some s uid spid sid m ready =
      ground (arith, can_find-some m.sehandle s spid sid uid)

  do_add_service-Adds :
      (fresh : Option ℕ) (s : List ℕ) (handle uid : ℕ) (allow : Bool) (priority spid sid : ℕ)
      (m : Manager)
      → m.sehandle ≢ none
      → Adds (do_add_service sys fresh s handle uid allow priority spid sid m)
  unfolding do_add_service enter
  do_add_service-Adds fresh s handle uid allow priority spid sid m ready =
      elim (Option-cases (find_svc s m.svclist)) [
        | inl new ↦ ground (arith, can_register-some m.sehandle s spid sid uid)
        | inr (si, found) ↦
            ground
              (arith, can_register-some m.sehandle s spid sid uid, override-sehandle handle si m)
      ]

  module _ (abi : Abi) where
    refresh-ready :
        (ans : Answers) (m : Manager) → m.sehandle ≢ none → (refresh_sehandle ans m).sehandle ≢ none
    unfolding refresh_sehandle
    refresh-ready ans m ready = ground arith

    find_named-Serves :
        (m : Manager) (txn : TransactionSecctx) (read : Option ℕ × ℕ × BinderIo) (reply : Parcel)
        → m.sehandle ≢ none
        → Serves (find_named sys abi m txn read reply)
    unfolding find_named
    find_named-Serves m txn (none, len, msg) reply ready = ready
    find_named-Serves m txn (some s, len, msg) reply ready = ground (
      arith,
      do_find_service-some (load_units reply.mem s len) txn.transaction_data.sender_euid
          txn.transaction_data.sender_pid txn.secctx m,
    )

    handle_find-Serves :
        (m : Manager) (txn : TransactionSecctx) (msg : BinderIo) (reply : Parcel)
        → m.sehandle ≢ none
        → Serves (handle_find sys abi m txn msg reply)
    unfolding handle_find
    handle_find-Serves m txn msg reply ready =
        find_named-Serves m txn (bio_get_string16 reply.mem msg) reply ready

    handle_list-Serves :
        (m : Manager) (txn : TransactionSecctx) (msg : BinderIo) (reply : Parcel)
        → m.sehandle ≢ none
        → Serves (handle_list sys abi m txn msg reply)
    unfolding handle_list
    handle_list-Serves m txn msg reply ready = ground arith

    handle_add-Serves :
        (ans : Answers) (m : Manager) (txn : TransactionSecctx) (msg : BinderIo) (reply : Parcel)
        → m.sehandle ≢ none
        → Serves (handle_add sys abi ans m txn msg reply)
    unfolding handle_add
    handle_add-Serves ans m txn msg reply ready =
        elim (Option-cases (bio_get_string16 reply.mem msg).0) [
          | inl bad ↦ rw (bad, handle_add) ready
          | inr (a, good) ↦
              rw (good, handle_add)
                (finish_add-Serves _ reply (do_add_service-Adds _ _ _ _ _ _ _ _ m ready))
        ]

    dispatch-Serves :
        (ans : Answers) (m : Manager) (txn : TransactionSecctx) (msg : BinderIo) (reply : Parcel)
        → m.sehandle ≢ none
        → Serves (dispatch sys abi ans m txn msg reply)
    unfolding dispatch
    dispatch-Serves ans m txn msg reply ready = ground (
      arith,
      handle_find-Serves m txn msg reply,
      handle_add-Serves ans m txn msg reply,
      handle_list-Serves m txn msg reply,
    )

    -- A manager with service contexts answers every transaction without aborting, and has service
    -- contexts afterwards.
    pub svcmgr_handler-Serves :
        (ans : Answers) (m : Manager) (txn : TransactionSecctx) (msg : BinderIo) (reply : Parcel)
        → m.sehandle ≢ none
        → Serves (svcmgr_handler sys abi ans m txn msg reply)
    svcmgr_handler-Serves ans m txn msg reply ready =
        svcmgr_handler_cases sys abi Serves ans m txn msg reply ready ready
          λ msg'. dispatch-Serves ans _ txn msg' reply (refresh-ready ans m ready)
