-- ===== src/Protocol/Finding.antt =====
-- A service that the server has registered is found by a client.
use mathlib.Core.Path.{subst}
use mathlib.Core.Option.{some-injective}
use android_source_learn.Prelude.{
  ℕ, zero, suc, ◌+◌, ◌%◌, ◌^◌, ◌≤◌, ◌<◌, ◌≡◌, ◌≢◌, refl, sym, ◌∙◌, ap, true, false, Option, none,
  some, List, map, length, arith,
}
use android_source_learn.Prelude.Int.{ℤ, pos, negsuc}
use android_source_learn.Memory.{Memory}
use android_source_learn.Memory.Units.{unit16}
use android_source_learn.Abi.{Abi, IsObjectLayout, TransactionSecctx}
use android_source_learn.Binder.Call.{call_txn}
use android_source_learn.Bio.{BinderIo, Parcel, align4, c_string, max_units}
use android_source_learn.Bio.Message.{total_size}
use android_source_learn.Binder.Parse.{Service}
use android_source_learn.ServiceManager.Access.{System, is_isolated, svc_can_find}
use android_source_learn.ServiceManager.Registry.{Manager}
use android_source_learn.ServiceManager.Registry.Nodes.{Distinct, same_name_refl}
use android_source_learn.ServiceManager.Registry.Lookup.{IsFresh, handle_of, do_find_service-live}
use android_source_learn.ServiceManager.Registry.Add.{do_add_service-handle_of}
use android_source_learn.ServiceManager.Handler.{
  Answers, svc_mgr_add_service, svc_mgr_check_service, finish_add, refresh_sehandle, svcmgr_handler,
}
use android_source_learn.ServiceManager.Handler.Requests.{find_reply}
use android_source_learn.HelloServer.{publish_message}
use android_source_learn.HelloClient.{lookup_message}
use android_source_learn.Protocol.{request_items}
use android_source_learn.Protocol.Exchange.{Hands, handler-found}
use android_source_learn.Protocol.Registering.{Translates, svcmgr_handler-publish_message}

-- Behind a result of 0 stands a registration that returned 0.
finish_add-zero :
    (o : Option (Manager × ℤ)) (reply reply' : Parcel) (m : Manager)
    → finish_add o reply ≡ some (m, reply', pos 0)
    → o ≡ some (m, pos 0)
unfolding finish_add
finish_add-zero none reply reply' m e = cc
finish_add-zero (some (m', pos zero)) reply reply' m e =
    ap (λ (r : Manager × Parcel × ℤ). some (r.0, pos 0)) (some-injective _ _ e)
finish_add-zero (some (m', pos (suc n))) reply reply' m e = ground arith
finish_add-zero (some (m', negsuc n)) reply reply' m e = ground arith

refresh_sehandle-svclist :
    (ans : Answers) (m : Manager) → (refresh_sehandle ans m).svclist ≡ m.svclist
unfolding refresh_sehandle
refresh_sehandle-svclist ans m = ground arith

-- A service that a server has registered is found: after `svcmgr_handler` has answered 0 to the
-- message of `svcmgr_publish` for a name, it answers the message of `svcmgr_lookup` for that name,
-- from a caller that is not isolated and that the policy admits, with the manager's handle for the
-- pointer to the server's handler. The driver hands over both messages, whole, as `binder_call` writes them; the addresses of the
-- nodes are distinct, and `malloc` gives none of them.
pub lookup_message-publish_message :
    {S : Type 0} (sys : System) (abi : Abi) (layout : IsObjectLayout abi) (svc : Service S)
    (rdata readbuf iodata iodata' : ℕ) (name : List ℕ) (ptr : ℕ) (mem mem' : Memory)
    (to_handle : ℕ → ℕ) (ans ans' : Answers) (m m' : Manager) (txn txn' : TransactionSecctx)
    (msg msg' : BinderIo) (reply registered reply' : Parcel)
    → length (c_string name) < max_units
    → total_size (request_items name) + align4 abi.sizeof_object + 8 ≤ 480
    → svc_mgr_add_service ≢ abi.ping_transaction
    → svc_mgr_check_service ≢ abi.ping_transaction
    → Distinct m.svclist
    → IsFresh ans.fresh m.svclist
    → txn.transaction_data.target ≡ 0
    → txn.transaction_data.code ≡ svc_mgr_add_service
    → let sent = publish_message abi svc rdata readbuf iodata name ptr mem in
      Translates abi to_handle (call_txn sent.io 0 svc_mgr_add_service) sent.mem msg reply.mem
      → svcmgr_handler sys abi ans m txn msg reply ≡ some (m', registered, pos 0)
      → let asked = lookup_message iodata' name mem' in
        Hands (call_txn asked.io 0 svc_mgr_check_service) asked.mem txn' msg' reply'.mem
        → is_isolated sys txn'.transaction_data.sender_euid ≡ false
        → svc_can_find sys
            (refresh_sehandle ans' m').sehandle
            (map unit16 (c_string name))
            txn'.transaction_data.sender_pid
            txn'.secctx
            txn'.transaction_data.sender_euid
          ≡ some true
        → svcmgr_handler sys abi ans' m' txn' msg' reply'
          ≡ some (
            refresh_sehandle ans' m',
            find_reply sys abi (to_handle (ptr % 2 ^ 64)) reply',
            pos 0,
          )
lookup_message-publish_message sys abi layout svc rdata readbuf iodata iodata' name ptr mem mem'
      to_handle ans ans' m m' txn txn' msg msg' reply registered reply' small fits no_ping no_ping'
      distinct fresh me add t ran h outside allowed =
    let units = map unit16 (c_string name) in
    let added = finish_add-zero _ reply registered m' (
      sym (
        svcmgr_handler-publish_message sys abi layout svc rdata readbuf iodata name ptr mem
          to_handle ans m txn msg reply small fits me add no_ping t)
      ∙ ran) in
    let same = sym (refresh_sehandle-svclist ans m) in
    let (_, handles) =
      do_add_service-handle_of sys ans.fresh units _ _ false 0 _ _ (refresh_sehandle ans m) m'
        (subst Distinct same distinct) (subst (IsFresh ans.fresh) same fresh) added in
    let has : handle_of units (refresh_sehandle ans' m') ≡ to_handle (ptr % 2 ^ 64) =
      rw (refresh_sehandle-svclist ans' m') (handles units ∙ rw (same_name_refl units) refl) in
    handler-found sys abi ans' m' txn' msg' reply' iodata' name mem' (to_handle (ptr % 2 ^ 64))
      small (omega arith) no_ping' h
      (do_find_service-live sys units _ _ _ _ (refresh_sehandle ans' m') has outside allowed)
