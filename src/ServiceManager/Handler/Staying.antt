-- ===== src/ServiceManager/Handler/Staying.antt =====
-- Where `svcmgr_handler` of Demos/BinderCDemo/service_manager.c writes.
use android_source_learn.Prelude.{
  ℕ, Bool-cases, Option-cases, inl, inr, Option, none, some, ◌==◌, not, arith,
}
use android_source_learn.Prelude.Int.{ℤ}
use android_source_learn.Memory.{load_units}
use android_source_learn.Abi.{Abi, TransactionSecctx, IsObjectLayout}
use android_source_learn.Bio.{BinderIo, Parcel, bio_get_string16, bio_get_uint32}
use android_source_learn.Bio.Safety.{
  InBuffer, Stays, stay, bio_put_uint32-Stays, bio_put_string16-Stays, bio_put_ref-Stays,
}
use android_source_learn.ServiceManager.Access.{System, svc_can_list}
use android_source_learn.ServiceManager.Registry.{Manager, do_find_service}
use android_source_learn.ServiceManager.Handler.{
  Answers, Outcome, list_walk, finish_add, find_named, handle_find, handle_add, handle_list,
  dispatch, refresh_sehandle, svcmgr_handler,
}
use android_source_learn.ServiceManager.Handler.Effects.{svcmgr_handler_cases}

-- The reply of an outcome that is no abort is in its buffer, and nothing else has been written.
abbrev pub StaysIn : ℕ → ℕ → Parcel → Outcome → Type 0
StaysIn lo hi reply none = Unit {0}
StaysIn lo hi reply (some (m, reply', z)) = Stays lo hi reply reply'

module _ (sys : System) (abi : Abi) (layout : IsObjectLayout abi) {lo hi : ℕ} where
  find_named-StaysIn :
      (m : Manager) (txn : TransactionSecctx) (read : Option ℕ × ℕ × BinderIo) (reply : Parcel)
      → InBuffer lo hi reply.io
      → StaysIn lo hi reply (find_named sys abi m txn read reply)
  unfolding find_named
  find_named-StaysIn m txn (none, len, msg) reply v = stay reply v
  find_named-StaysIn m txn (some s, len, msg) reply v =
      elim (Option-cases (
        do_find_service sys (load_units reply.mem s len) txn.transaction_data.sender_euid
          txn.transaction_data.sender_pid txn.secctx m)) [
            | inl stops ↦ rw (stops, find_named) tt
            | inr (handle, finds) ↦
                rw (finds, find_named)
                  (elim (Bool-cases (handle == 0)) [
                    | inl no_handle ↦ rw no_handle (bio_put_uint32-Stays 0 reply v)
                    | inr live ↦ rw live (bio_put_ref-Stays abi layout handle reply v)
                  ])
          ]

  finish_add-StaysIn :
      (o : Option (Manager × ℤ)) (reply : Parcel)
      → InBuffer lo hi reply.io
      → StaysIn lo hi reply (finish_add o reply)
  unfolding finish_add
  finish_add-StaysIn none reply v = tt
  finish_add-StaysIn (some (m, res)) reply v =
      ground (arith, stay reply v, bio_put_uint32-Stays 0 reply v)

  handle_list-StaysIn :
      (m : Manager) (txn : TransactionSecctx) (msg : BinderIo) (reply : Parcel)
      → InBuffer lo hi reply.io
      → StaysIn lo hi reply (handle_list sys abi m txn msg reply)
  unfolding handle_list
  handle_list-StaysIn m txn msg reply v =
      let (n, msg') = bio_get_uint32 reply.mem msg in
      elim (Bool-cases (
        not (
          svc_can_list sys txn.transaction_data.sender_pid txn.secctx
            txn.transaction_data.sender_euid))) [
              | inl refused ↦ rw (refused, handle_list) (stay reply v)
              | inr admitted ↦
                  rw (admitted, handle_list)
                    (elim (Option-cases (list_walk n (bio_get_uint32 reply.mem msg').0 m.svclist)) [
                      | inl over ↦ rw over (stay reply v)
                      | inr (si, found) ↦ rw found (bio_put_string16-Stays (some si.name) reply v)
                    ])
            ]

  handle_add-StaysIn :
      (ans : Answers) (m : Manager) (txn : TransactionSecctx) (msg : BinderIo) (reply : Parcel)
      → InBuffer lo hi reply.io
      → StaysIn lo hi reply (handle_add sys abi ans m txn msg reply)
  unfolding handle_add
  handle_add-StaysIn ans m txn msg reply v =
      elim (Option-cases (bio_get_string16 reply.mem msg).0) [
        | inl bad ↦ rw (bad, handle_add) (stay reply v)
        | inr (a, good) ↦ rw (good, handle_add) (finish_add-StaysIn _ reply v)
      ]

  dispatch-StaysIn :
      (ans : Answers) (m : Manager) (txn : TransactionSecctx) (msg : BinderIo) (reply : Parcel)
      → InBuffer lo hi reply.io
      → StaysIn lo hi reply (dispatch sys abi ans m txn msg reply)
  unfolding dispatch handle_find
  dispatch-StaysIn ans m txn msg reply v =
      let same = stay reply v in
      let found = find_named-StaysIn m txn (bio_get_string16 reply.mem msg) reply v in
      let added = handle_add-StaysIn ans m txn msg reply v in
      let listed = handle_list-StaysIn m txn msg reply v in ground arith

  -- Whatever the transaction and its message hold, the handler writes only into the buffer of its
  -- reply.
  pub svcmgr_handler-StaysIn :
      (ans : Answers) (m : Manager) (txn : TransactionSecctx) (msg : BinderIo) (reply : Parcel)
      → InBuffer lo hi reply.io
      → StaysIn lo hi reply (svcmgr_handler sys abi ans m txn msg reply)
  svcmgr_handler-StaysIn ans m txn msg reply v =
      svcmgr_handler_cases sys abi (StaysIn lo hi reply) ans m txn msg reply (stay reply v)
        (stay reply v) (λ msg'. dispatch-StaysIn ans (refresh_sehandle ans m) txn msg' reply v)
