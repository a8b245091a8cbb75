-- ===== src/ServiceManager/Handler/Requests.antt =====
-- What the handler does with a message that holds a request.
use mathlib.Core.Path.{subst}
use android_source_learn.Bio.Objects.{bio_get_ref-found}
use android_source_learn.Prelude.{
  ◌-◌, ◌%◌, ◌^◌, length, ltb, ℕ, ◌+◌, ◌≤◌, ◌≡◌, refl, ◌∙◌, ap, ◌≢◌, true, false, some, List, [],
  ◌∷◌, map, ◌==◌, if◌then◌else◌, arith,
}
use android_source_learn.Prelude.Int.{pos}
use android_source_learn.Memory.{Memory, load, load_units}
use android_source_learn.Memory.Units.{unit16}
use android_source_learn.Abi.{Abi, TransactionSecctx}
use android_source_learn.Bio.{
  BinderIo, Parcel, c_string, align4, string16_bytes, bio_put_uint32, bio_put_ref, has_offset,
  bio_get_string16,
}
use android_source_learn.Bio.Reads.{advance, bio_get_uint32-room, bio_get_string16-room}
use android_source_learn.Bio.Message.{Item, word, text, Holds, size_of, total_size}
use android_source_learn.ServiceManager.Access.{System}
use android_source_learn.ServiceManager.Registry.{
  Manager, same_units, do_find_service, do_add_service,
}
use android_source_learn.ServiceManager.Handler.{
  Answers, svcmgr_id, svc_mgr_check_service, svc_mgr_add_service, handle_add, finish_add,
  refresh_sehandle, enforce_interface, find_named, handle_find, dispatch, svcmgr_handler,
}

svcmgr_id-c_string : c_string svcmgr_id ≡ svcmgr_id
unfolding c_string
svcmgr_id-c_string = refl

id_matches : same_units svcmgr_id (map unit16 svcmgr_id) ≡ true
id_matches = refl

module _ (sys : System) (abi : Abi) where
  -- A message to the manager that begins with the header is dispatched behind it.
  pub svcmgr_handler-dispatch :
      (ans : Answers) (m : Manager) (txn : TransactionSecctx) (msg : BinderIo) (reply : Parcel)
      (rest : List Item)
      → txn.transaction_data.target ≡ 0
      → txn.transaction_data.code ≢ abi.ping_transaction
      → Holds reply.mem msg.cursor (word 0 ∷ word 0 ∷ text svcmgr_id ∷ rest)
      → total_size (word 0 ∷ word 0 ∷ text svcmgr_id ∷ rest) ≤ msg.data_avail
      → (msg' : BinderIo) × (svcmgr_handler sys abi ans m txn msg reply
          ≡ dispatch sys abi ans (refresh_sehandle ans m) txn msg' reply)
        × (msg'.cursor ≡ msg.cursor + 4 + 4 + size_of (text svcmgr_id))
        × (msg'.data_avail + 8 + size_of (text svcmgr_id) ≡ msg.data_avail)
        × (msg'.offs ≡ msg.offs)
        × (msg'.offs_avail ≡ msg.offs_avail)
        × (msg'.data0 ≡ msg.data0)
  unfolding svcmgr_handler enforce_interface
  svcmgr_handler-dispatch ans m txn msg reply rest me other (_, (_, ((len, units, _), _))) room =
      let msg2 = advance (advance msg 4) 4 in
      let not_ping : (txn.transaction_data.code == abi.ping_transaction) ≡ false = ground arith in
      let read = bio_get_string16-room reply.mem msg2 (rw len (omega arith)) in
      (
        advance (advance msg2 4) (align4 (string16_bytes (load 4 reply.mem msg2.cursor))),
        rw (me, not_ping, svcmgr_handler)
            (rw
              (
                bio_get_uint32-room reply.mem msg (omega arith),
                bio_get_uint32-room reply.mem (advance msg 4) (omega arith),
                read,
              )
              (rw (len, units, svcmgr_id-c_string) refl)),
        rw len (omega arith),
        rw len (omega arith),
        refl,
        refl,
        refl,
      )

  -- The answer to a request for a service: its handle as a reference, or the word 0.
  abbrev pub find_reply : ℕ → Parcel → Parcel
  find_reply handle reply =
      if handle == 0 then bio_put_uint32 0 reply else bio_put_ref abi handle reply

  dispatch-check :
      (ans : Answers) (m : Manager) (txn : TransactionSecctx) (msg : BinderIo) (reply : Parcel)
      → txn.transaction_data.code ≡ svc_mgr_check_service
      → dispatch sys abi ans m txn msg reply ≡ handle_find sys abi m txn msg reply
  unfolding dispatch
  dispatch-check ans m txn msg reply check = ground arith

  find_named-some :
      (m : Manager) (txn : TransactionSecctx) (s : ℕ) (len : ℕ) (msg : BinderIo) (reply : Parcel)
      (handle : ℕ)
      → do_find_service sys
          (load_units reply.mem s len)
          txn.transaction_data.sender_euid
          txn.transaction_data.sender_pid
          txn.secctx
          m
        ≡ some handle
      → find_named sys abi m txn (some s, len, msg) reply ≡ some (m, find_reply handle reply, pos 0)
  unfolding find_named
  find_named-some m txn s len msg reply handle found = rw (found, find_named) refl

  -- A request for a service is answered with what `do_find_service` finds.
  pub dispatch-find :
      (ans : Answers) (m : Manager) (txn : TransactionSecctx) (msg : BinderIo) (reply : Parcel)
      (name : List ℕ) (handle : ℕ)
      → txn.transaction_data.code ≡ svc_mgr_check_service
      → Holds reply.mem msg.cursor (text name ∷ [])
      → size_of (text name) ≤ msg.data_avail
      → do_find_service sys
          (map unit16 (c_string name))
          txn.transaction_data.sender_euid
          txn.transaction_data.sender_pid
          txn.secctx
          m
        ≡ some handle
      → dispatch sys abi ans m txn msg reply ≡ some (m, find_reply handle reply, pos 0)
  unfolding handle_find
  dispatch-find ans m txn msg reply name handle check ((len, units, _), _) room found =
      dispatch-check ans m txn msg reply check
      ∙ rw (bio_get_string16-room reply.mem msg (rw len room), handle_find)
          (find_named-some m txn _ _ _ reply handle (rw (len, units) found))

  pub dispatch-add :
      (ans : Answers) (m : Manager) (txn : TransactionSecctx) (msg : BinderIo) (reply : Parcel)
      → txn.transaction_data.code ≡ svc_mgr_add_service
      → dispatch sys abi ans m txn msg reply ≡ handle_add sys abi ans m txn msg reply
  unfolding dispatch
  dispatch-add ans m txn msg reply add = ground arith

  -- What a request to add a service holds behind the name, at `a`: an object that the reader has
  -- an entry for, with a handle, and the two words.
  pub record Publishes (mem : Memory) (msg : BinderIo) (a handle allow priority : ℕ) : Type 0 where
    pub listed : has_offset mem msg.offs (a - msg.data0) msg.offs_avail ≡ true
    pub typed : load 4 mem (a + abi.type_at) ≡ abi.type_handle
    pub held : load 4 mem (a + abi.handle_at) ≡ handle
    pub words : Holds mem (a + align4 abi.sizeof_object) (word allow ∷ word priority ∷ [])

  -- A request to add a service registers what the message holds.
  pub dispatch-Publishes :
      (ans : Answers) (m : Manager) (txn : TransactionSecctx) (msg : BinderIo) (reply : Parcel)
      (name : List ℕ) (handle allow priority : ℕ)
      → txn.transaction_data.code ≡ svc_mgr_add_service
      → Holds reply.mem msg.cursor (text name ∷ [])
      → Publishes reply.mem msg (msg.cursor + size_of (text name)) handle allow priority
      → size_of (text name) + align4 abi.sizeof_object + 8 ≤ msg.data_avail
      → dispatch sys abi ans m txn msg reply
        ≡ finish_add
            (do_add_service sys ans.fresh
              (map unit16 (c_string name))
              handle
              txn.transaction_data.sender_euid
              (ltb 0 (allow % 2 ^ 32))
              (priority % 2 ^ 32)
              txn.transaction_data.sender_pid
              txn.secctx
              m)
            reply
  unfolding handle_add
  dispatch-Publishes ans m txn msg reply name handle allow priority add ((len, units, _), _) p
        room =
      let after_name = advance (advance msg 4) (align4 (string16_bytes (length (c_string name)))) in
      let at : after_name.cursor ≡ msg.cursor + size_of (text name) = omega arith in
      let after_object = advance after_name (align4 abi.sizeof_object) in
      let object =
        bio_get_ref-found abi reply.mem after_name (rw at p.listed) (omega arith) (rw at p.typed) in
      let first = bio_get_uint32-room reply.mem after_object (omega arith) in
      let second = bio_get_uint32-room reply.mem (advance after_object 4) (omega arith) in
      let read = bio_get_string16-room reply.mem msg (rw len (omega arith)) in
      let read' : bio_get_string16 reply.mem msg
          ≡ (some (msg.cursor + 4), length (c_string name), after_name) =
        subst
          (λ n.
            bio_get_string16 reply.mem msg
            ≡ (some (msg.cursor + 4), n, advance (advance msg 4) (align4 (string16_bytes n))))
          len read in
      let held : load 4 reply.mem (after_name.cursor + abi.handle_at) ≡ handle = rw at p.held in
      let word1 : load 4 reply.mem after_object.cursor ≡ allow % 2 ^ 32 =
        ap (load 4 reply.mem) (omega arith) ∙ p.words.0 in
      let word2 : load 4 reply.mem (after_object.cursor + 4) ≡ priority % 2 ^ 32 =
        ap (load 4 reply.mem) (omega arith) ∙ p.words.1.0 in
      dispatch-add ans m txn msg reply add
      ∙ rw (read', handle_add) (rw (read', object, first, second, units, held, word1, word2) refl)
