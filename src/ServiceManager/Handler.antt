-- ===== src/ServiceManager/Handler.antt =====
-- `svcmgr_handler` of Demos/BinderCDemo/service_manager.c. The message and the reply lie in one
-- memory, that of the reply's parcel. `none` is an `abort()`.
pub mod Listing
pub mod Effects
pub mod Changes
pub mod Progress
pub mod Staying
pub mod Ignored
pub mod Requests
use Prim.Native.Nat.{bit_and}
use android_source_learn.Prelude.{
  ℕ, zero, suc, ◌-◌, Bool, true, false, Option, none, some, List, [], ◌∷◌, length, ltb, ◌==◌, ◌&&◌,
  ◌||◌, not, if◌then◌else◌,
}
use android_source_learn.Prelude.Int.{ℤ, pos, minus_one, is_nonzero}
use android_source_learn.Memory.{Memory, load_units}
use android_source_learn.Abi.{Abi, TransactionData, TransactionSecctx}
use android_source_learn.Bio.{
  BinderIo, Parcel, bio_get_uint32, bio_get_string16, bio_get_ref, bio_put_uint32, bio_put_ref,
  bio_put_string16,
}
use android_source_learn.ServiceManager.Access.{System, svc_can_list}
use android_source_learn.ServiceManager.Registry.{
  Svcinfo, Manager, same_units, do_find_service, do_add_service,
}

-- "android.os.IServiceManager"
abbrev pub svcmgr_id : List ℕ
svcmgr_id =
    b'a' ∷ b'n' ∷ b'd' ∷ b'r' ∷ b'o' ∷ b'i' ∷ b'd' ∷ b'.' ∷ b'o' ∷ b's' ∷ b'.' ∷ b'I' ∷ b'S' ∷ b'e'
    ∷ b'r' ∷ b'v' ∷ b'i' ∷ b'c' ∷ b'e' ∷ b'M' ∷ b'a' ∷ b'n' ∷ b'a' ∷ b'g' ∷ b'e' ∷ b'r' ∷ []

abbrev pub svc_mgr_get_service : ℕ
svc_mgr_get_service = 1

abbrev pub svc_mgr_check_service : ℕ
svc_mgr_check_service = 2

abbrev pub svc_mgr_add_service : ℕ
svc_mgr_add_service = 3

abbrev pub svc_mgr_list_services : ℕ
svc_mgr_list_services = 4

-- What the surroundings answer during one call: what `malloc` would return, whether
-- `selinux_status_updated() > 0`, and the new handle of the service contexts.
pub record Answers : Type 0 where
  pub fresh : Option ℕ
  pub status_updated : Bool
  pub new_sehandle : Option ℕ

abbrev pub Outcome : Type 0
Outcome = Option (Manager × Parcel × ℤ)

-- The service contexts are read again when the policy has changed.
unfoldable pub refresh_sehandle : Answers → Manager → Manager
refresh_sehandle ans m = elim (m.sehandle) [
  | none ↦ m
  | some old ↦
      if ans.status_updated
      then elim (ans.new_sehandle) [ none ↦ m | some new ↦ record m { sehandle = some new } ]
      else m
]

abbrev pub supports : ℕ → Svcinfo → Bool
supports req si = ltb 0 (bit_and si.dumpsys_priority req)

-- The loop `while (si)` of SVC_MGR_LIST_SERVICES.
unfoldable pub list_walk : ℕ → ℕ → List Svcinfo → Option Svcinfo
list_walk n req [] = none
list_walk n req (si ∷ rest) =
    let next = list_walk (if supports req si then n - 1 else n) req rest in
    if supports req si && n == 0 then some si else next

-- `len == sizeof(svcmgr_id) / 2` and no difference in `memcmp`.
abbrev pub is_interface : Memory → ℕ → ℕ → Bool
is_interface mem s len = len == length svcmgr_id && same_units svcmgr_id (load_units mem s len)

-- The answer to SVC_MGR_ADD_SERVICE.
unfoldable pub finish_add : Option (Manager × ℤ) → Parcel → Outcome
finish_add none reply = none
finish_add (some (m, res)) reply =
    if is_nonzero res then some (m, reply, minus_one) else some (m, bio_put_uint32 0 reply, pos 0)

module _ (sys : System) (abi : Abi) where
  -- SVC_MGR_GET_SERVICE with the string that was read, its pointer and its length.
  unfoldable pub find_named :
      Manager → TransactionSecctx → Option ℕ × ℕ × BinderIo → Parcel → Outcome
  find_named m txn (none, len, msg) reply = some (m, reply, minus_one)
  find_named m txn (some s, len, msg) reply =
      elim (do_find_service sys (load_units reply.mem s len) txn.transaction_data.sender_euid
        txn.transaction_data.sender_pid txn.secctx m) [
          | none ↦ none
          | some handle ↦ some (
            m,
            if handle == 0 then bio_put_uint32 0 reply else bio_put_ref abi handle reply,
            pos 0,
          )
        ]

  unfoldable pub handle_find : Manager → TransactionSecctx → BinderIo → Parcel → Outcome
  handle_find m txn msg reply = find_named m txn (bio_get_string16 reply.mem msg) reply

  unfoldable pub handle_add : Answers → Manager → TransactionSecctx → BinderIo → Parcel → Outcome
  handle_add ans m txn msg reply =
      let (s, len, msg') = bio_get_string16 reply.mem msg in
      elim s [
        | none ↦ some (m, reply, minus_one)
        | some a ↦
            let (handle, msg'') = bio_get_ref abi reply.mem msg' in
            let (allow_isolated, msg''') = bio_get_uint32 reply.mem msg'' in
            let (dumpsys_priority, _) = bio_get_uint32 reply.mem msg''' in
            finish_add
              (do_add_service sys ans.fresh (load_units reply.mem a len) handle
                txn.transaction_data.sender_euid (ltb 0 allow_isolated) dumpsys_priority
                txn.transaction_data.sender_pid txn.secctx m)
              reply
      ]

  unfoldable pub handle_list : Manager → TransactionSecctx → BinderIo → Parcel → Outcome
  handle_list m txn msg reply =
      let (n, msg') = bio_get_uint32 reply.mem msg in
      let (req_dumpsys_priority, _) = bio_get_uint32 reply.mem msg' in
      if not (
        svc_can_list sys txn.transaction_data.sender_pid txn.secctx
          txn.transaction_data.sender_euid)
      then some (m, reply, minus_one)
      else elim (list_walk n req_dumpsys_priority m.svclist) [
        | none ↦ some (m, reply, minus_one)
        | some si ↦ some (m, bio_put_string16 (some si.name) reply, pos 0)
      ]

  -- `switch(txn->code)`
  unfoldable pub dispatch : Answers → Manager → TransactionSecctx → BinderIo → Parcel → Outcome
  dispatch ans m txn msg reply =
      let code = txn.transaction_data.code in
      if code == svc_mgr_get_service || code == svc_mgr_check_service
      then handle_find m txn msg reply
      else if code == svc_mgr_add_service
      then handle_add ans m txn msg reply
      else if code == svc_mgr_list_services
      then handle_list m txn msg reply
      else some (m, reply, minus_one)

  -- The check of the interface name, again with the string that was read.
  unfoldable pub enforce_interface :
      Answers → Manager → TransactionSecctx → Option ℕ × ℕ × BinderIo → Parcel → Outcome
  enforce_interface ans m txn (none, len, msg) reply = some (m, reply, minus_one)
  enforce_interface ans m txn (some s, len, msg) reply =
      if is_interface reply.mem s len
      then dispatch ans (refresh_sehandle ans m) txn msg reply
      else some (m, reply, minus_one)

  unfoldable pub svcmgr_handler :
      Answers → Manager → TransactionSecctx → BinderIo → Parcel → Outcome
  svcmgr_handler ans m txn msg reply =
      if not (txn.transaction_data.target == 0)
      then some (m, reply, minus_one)
      else if txn.transaction_data.code == abi.ping_transaction
      then some (m, reply, pos 0)
      else (let (strict_policy, msg') = bio_get_uint32 reply.mem msg in
          let (worksource, msg'') = bio_get_uint32 reply.mem msg' in
          enforce_interface ans m txn (bio_get_string16 reply.mem msg'') reply)
