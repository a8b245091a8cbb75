-- ===== src/ServiceManager/Handler/Effects.antt =====
-- Which requests can change the services, and when the handler aborts.
use android_source_learn.Prelude.{
  ℕ, ◌≡◌, refl, ◌≢◌, inl, inr, Option, none, some, Bool-cases, ◌==◌, arith,
}
use android_source_learn.Prelude.Int.{pos, minus_one}
use android_source_learn.Abi.{Abi, TransactionSecctx}
use android_source_learn.Bio.{BinderIo, Parcel, bio_get_string16}
use android_source_learn.ServiceManager.Access.{System}
use android_source_learn.ServiceManager.Registry.{Manager}
use android_source_learn.ServiceManager.Handler.{
  Answers, Outcome, svc_mgr_add_service, refresh_sehandle, handle_find, handle_list, is_interface,
  find_named, enforce_interface, dispatch, svcmgr_handler,
}

-- An outcome that is no abort leaves the services and the commands as they were in `m`.
abbrev pub Leaves : Manager → Outcome → Type 0
Leaves m none = Unit {0}
Leaves m (some (m', _, _)) = (m'.svclist ≡ m.svclist) × (m'.written ≡ m.written)

module _ (sys : System) (abi : Abi) where
  find_named-Leaves :
      (m : Manager) (txn : TransactionSecctx) (read : Option ℕ × ℕ × BinderIo) (reply : Parcel)
      → Leaves m (find_named sys abi m txn read reply)
  unfolding find_named
  find_named-Leaves m txn (none, len, msg) reply = (refl, refl)
  find_named-Leaves m txn (some s, len, msg) reply = ground arith

  pub handle_find-Leaves :
      (m : Manager) (txn : TransactionSecctx) (msg : BinderIo) (reply : Parcel)
      → Leaves m (handle_find sys abi m txn msg reply)
  unfolding handle_find
  handle_find-Leaves m txn msg reply =
      find_named-Leaves m txn (bio_get_string16 reply.mem msg) reply

  pub handle_list-Leaves :
      (m : Manager) (txn : TransactionSecctx) (msg : BinderIo) (reply : Parcel)
      → Leaves m (handle_list sys abi m txn msg reply)
  unfolding handle_list
  handle_list-Leaves m txn msg reply = ground arith

  dispatch-Leaves :
      (ans : Answers) (m : Manager) (txn : TransactionSecctx) (msg : BinderIo) (reply : Parcel)
      → txn.transaction_data.code ≢ svc_mgr_add_service
      → Leaves m (dispatch sys abi ans m txn msg reply)
  unfolding dispatch
  dispatch-Leaves ans m txn msg reply other =
      ground (arith, handle_find-Leaves m txn msg reply, handle_list-Leaves m txn msg reply)

  pub refresh_same :
      (ans : Answers) (m : Manager)
      → ((refresh_sehandle ans m).svclist ≡ m.svclist)
        × ((refresh_sehandle ans m).written ≡ m.written)
  unfolding refresh_sehandle
  refresh_same ans m = ground arith

  Leaves-refresh :
      (ans : Answers) (m : Manager) (o : Outcome) → Leaves (refresh_sehandle ans m) o → Leaves m o
  Leaves-refresh ans m none l = tt
  Leaves-refresh ans m (some (m', r, z)) l = ground (arith, refresh_same ans m)

  pub enforce_cases :
      (P : Outcome → Type 0) (ans : Answers) (m : Manager) (txn : TransactionSecctx)
      (read : Option ℕ × ℕ × BinderIo) (reply : Parcel)
      → P (some (m, reply, minus_one))
      → ((msg' : BinderIo) → P (dispatch sys abi ans (refresh_sehandle ans m) txn msg' reply))
      → P (enforce_interface sys abi ans m txn read reply)
  unfolding enforce_interface
  enforce_cases P ans m txn (none, len, msg) reply rejected served = rejected
  enforce_cases P ans m txn (some s, len, msg) reply rejected served =
      elim (Bool-cases (is_interface reply.mem s len)) [
        | inl same ↦ rw same (served msg)
        | inr bad ↦ rw bad rejected
      ]

  -- What holds of each way through the handler: a rejected message, a ping, and the requests.
  pub svcmgr_handler_cases :
      (P : Outcome → Type 0) (ans : Answers) (m : Manager) (txn : TransactionSecctx)
      (msg : BinderIo) (reply : Parcel)
      → P (some (m, reply, minus_one))
      → P (some (m, reply, pos 0))
      → ((msg' : BinderIo) → P (dispatch sys abi ans (refresh_sehandle ans m) txn msg' reply))
      → P (svcmgr_handler sys abi ans m txn msg reply)
  unfolding svcmgr_handler
  svcmgr_handler_cases P ans m txn msg reply rejected ping served =
      elim (Bool-cases (txn.transaction_data.target == 0)) [
        | inr other ↦ rw other rejected
        | inl me ↦ rw me (elim (Bool-cases (txn.transaction_data.code == abi.ping_transaction)) [
          | inl p ↦ rw p ping
          | inr q ↦ rw q (enforce_cases P ans m txn _ reply rejected served)
        ])
      ]

  -- A transaction that is no SVC_MGR_ADD_SERVICE changes no service and writes no command to the
  -- driver, whatever its message holds and the surroundings answer.
  pub svcmgr_handler-Leaves :
      (ans : Answers) (m : Manager) (txn : TransactionSecctx) (msg : BinderIo) (reply : Parcel)
      → txn.transaction_data.code ≢ svc_mgr_add_service
      → Leaves m (svcmgr_handler sys abi ans m txn msg reply)
  svcmgr_handler-Leaves ans m txn msg reply other =
      svcmgr_handler_cases (Leaves m) ans m txn msg reply (refl, refl) (refl, refl)
        λ msg'.
          Leaves-refresh ans m _ (dispatch-Leaves ans (refresh_sehandle ans m) txn msg' reply other)
