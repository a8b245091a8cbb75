-- ===== src/Protocol.antt =====
-- The client of Demos/BinderCDemo/binder_client.c and the handler of
-- Demos/BinderCDemo/service_manager.c together: what one marshals, the other understands.
pub mod Replies
pub mod Exchange
pub mod Publishing
pub mod Registration
pub mod Registering
pub mod Finding
pub mod Publication
pub mod ListReply
pub mod Listing
pub mod Greeting
use mathlib.Core.Path.{subst}
use android_source_learn.Prelude.{
  ltb, ◌%◌, ◌^◌, ℕ, ◌+◌, ◌-◌, ◌≤◌, ◌<◌, ◌≡◌, sym, ◌∙◌, ap, ◌≢◌, some, List, [], ◌∷◌, map, length,
  arith,
}
use android_source_learn.Prelude.Int.{pos}
use android_source_learn.Memory.{Memory}
use android_source_learn.Memory.Frame.{Copied}
use android_source_learn.Memory.Units.{unit16}
use android_source_learn.Abi.{Abi, TransactionSecctx}
use android_source_learn.Bio.{BinderIo, Parcel, bio_init, c_string, max_units, align4}
use android_source_learn.Bio.Message.{
  Item, word, text, put_items, total_size, size_of, IsSendable, Holds,
}
use android_source_learn.Bio.Message.Writing.{put_items-Grows, bio_put_string16_x-eq}
use android_source_learn.Bio.Message.Copying.{Holds-Copied}
use android_source_learn.Binder.Parse.{blank}
use android_source_learn.ServiceManager.Access.{System}
use android_source_learn.ServiceManager.Registry.{Manager, do_find_service, do_add_service}
use android_source_learn.ServiceManager.Handler.{
  Answers, svcmgr_id, svc_mgr_check_service, svc_mgr_add_service, finish_add, refresh_sehandle,
  svcmgr_handler,
}
use android_source_learn.ServiceManager.Handler.Requests.{
  svcmgr_handler-dispatch, Publishes, dispatch-Publishes, dispatch-find, find_reply,
}
use android_source_learn.HelloServer.{put_header}
use android_source_learn.HelloClient.{lookup_message}

-- The items of a request that names a service.
abbrev pub request_items : List ℕ → List Item
request_items name = word 0 ∷ word 0 ∷ text svcmgr_id ∷ text name ∷ []

-- The parcel in the 512 bytes at `iodata`, with room for four objects.
abbrev pub fresh_parcel : ℕ → Memory → Parcel
fresh_parcel iodata mem = record { io = bio_init blank iodata 512 4; mem = mem }

pub lookup_message-eq :
    (iodata : ℕ) (name : List ℕ) (mem : Memory)
    → lookup_message iodata name mem ≡ put_items (request_items name) (fresh_parcel iodata mem)
unfolding lookup_message put_header
lookup_message-eq iodata name mem =
    bio_put_string16_x-eq name _
    ∙ ap (λ p. put_items (text name ∷ []) p) (bio_put_string16_x-eq svcmgr_id _)

pub fresh_parcel_lem :
    (iodata : ℕ) (mem : Memory)
    → ((fresh_parcel iodata mem).io.data_avail ≡ 480)
      × ((fresh_parcel iodata mem).io.cursor ≡ (fresh_parcel iodata mem).io.data0)
unfolding bio_init
fresh_parcel_lem iodata mem = ground arith

pub IsSendable-lookup :
    (name : List ℕ) → length (c_string name) < max_units → IsSendable (request_items name)
unfolding c_string
IsSendable-lookup name small = ((omega arith), (small, tt))

-- A message that holds a look-up is answered with what `do_find_service` finds.
svcmgr_handler-lookup :
    (sys : System) (abi : Abi) (ans : Answers) (m : Manager) (txn : TransactionSecctx)
    (msg : BinderIo) (reply : Parcel) (name : List ℕ) (handle : ℕ)
    → txn.transaction_data.target ≡ 0
    → txn.transaction_data.code ≡ svc_mgr_check_service
    → svc_mgr_check_service ≢ abi.ping_transaction
    → Holds reply.mem msg.cursor (request_items name)
    → total_size (request_items name) ≤ msg.data_avail
    → do_find_service sys
        (map unit16 (c_string name))
        txn.transaction_data.sender_euid
        txn.transaction_data.sender_pid
        txn.secctx
        (refresh_sehandle ans m)
      ≡ some handle
    → svcmgr_handler sys abi ans m txn msg reply
      ≡ some (refresh_sehandle ans m, find_reply sys abi handle reply, pos 0)
svcmgr_handler-lookup sys abi ans m txn msg reply name handle me check other holds room found =
    let (msg', dispatched, cur, av, _, _, _) =
      svcmgr_handler-dispatch sys abi ans m txn msg reply (text name ∷ []) me
        (λ ping. other (sym check ∙ ping)) holds room in
    dispatched
    ∙ dispatch-find sys abi ans (refresh_sehandle ans m) txn msg' reply name handle check
        (subst (λ a. Holds reply.mem a (text name ∷ [])) (sym cur) holds.1.1.1) (omega arith) found

-- A look-up that the client marshals for a name that fits into its buffer is answered with the
-- handle that `do_find_service` returns for that name, if it does not abort: the driver has copied
-- the message of `svcmgr_lookup`, all of it, to where the manager reads, and hands over
-- SVC_MGR_CHECK_SERVICE, which is not the ping.
pub svcmgr_handler-lookup_message :
    (sys : System) (abi : Abi) (ans : Answers) (m : Manager) (txn : TransactionSecctx)
    (msg : BinderIo) (reply : Parcel) (iodata : ℕ) (name : List ℕ) (mem : Memory) (handle : ℕ)
    → length (c_string name) < max_units
    → total_size (request_items name) ≤ 480
    → txn.transaction_data.target ≡ 0
    → txn.transaction_data.code ≡ svc_mgr_check_service
    → svc_mgr_check_service ≢ abi.ping_transaction
    → let sent = lookup_message iodata name mem in
      msg.data_avail ≡ sent.io.cursor - (fresh_parcel iodata mem).io.data0
      → Copied
          (total_size (request_items name))
          (lookup_message iodata name mem).mem
          (fresh_parcel iodata mem).io.data0
          reply.mem
          msg.cursor
      → do_find_service sys
          (map unit16 (c_string name))
          txn.transaction_data.sender_euid
          txn.transaction_data.sender_pid
          txn.secctx
          (refresh_sehandle ans m)
        ≡ some handle
      → svcmgr_handler sys abi ans m txn msg reply
        ≡ some (refresh_sehandle ans m, find_reply sys abi handle reply, pos 0)
svcmgr_handler-lookup_message sys abi ans m txn msg reply iodata name mem handle small fits me check
      other size copied found =
    let p = fresh_parcel iodata mem in
    let items = request_items name in
    let (avail, begins) = fresh_parcel_lem iodata mem in
    let sent = lookup_message-eq iodata name mem in
    let (grown, holds) =
      put_items-Grows items p (IsSendable-lookup name small) (omega (arith, avail)) in
    let written : (lookup_message iodata name mem).io.cursor ≡ p.io.cursor + total_size items =
      ap (λ q. q.io.cursor) sent ∙ grown.moved in
    let there =
      Holds-Copied items (put_items items p).mem p.io.cursor reply.mem msg.cursor
        (subst (λ q. Copied (total_size items) q.mem p.io.cursor reply.mem msg.cursor) sent
          (subst
            (λ a.
              Copied (total_size items) (lookup_message iodata name mem).mem a reply.mem msg.cursor)
            (sym begins) copied))
        holds in
    svcmgr_handler-lookup sys abi ans m txn msg reply name handle me check other there
      (omega (arith, size, written, begins)) found

-- A request to add a service registers what it says: in the memory of the manager the message holds
-- the header and the name, and behind them an object that the reader has an entry for, with a
-- handle, and the words for `allow_isolated` and for the priority. Then the outcome is that of
-- `do_add_service` with the name, the handle and these values, for the sender of the transaction.
-- The transaction is SVC_MGR_ADD_SERVICE, which is not the ping.
pub svcmgr_handler-Publishes :
    (sys : System) (abi : Abi) (ans : Answers) (m : Manager) (txn : TransactionSecctx)
    (msg : BinderIo) (reply : Parcel) (name : List ℕ) (handle allow priority : ℕ)
    → txn.transaction_data.target ≡ 0
    → txn.transaction_data.code ≡ svc_mgr_add_service
    → svc_mgr_add_service ≢ abi.ping_transaction
    → Holds reply.mem msg.cursor (request_items name)
    → Publishes sys abi reply.mem msg
        (msg.cursor + total_size (request_items name))
        handle
        allow
        priority
    → total_size (request_items name) + align4 abi.sizeof_object + 8 ≤ msg.data_avail
    → svcmgr_handler sys abi ans m txn msg reply
      ≡ finish_add
          (do_add_service sys ans.fresh
            (map unit16 (c_string name))
            handle
            txn.transaction_data.sender_euid
            (ltb 0 (allow % 2 ^ 32))
            (priority % 2 ^ 32)
            txn.transaction_data.sender_pid
            txn.secctx
            (refresh_sehandle ans m))
          reply
svcmgr_handler-Publishes sys abi ans m txn msg reply name handle allow priority me add other holds p
      room =
    let (msg', dispatched, cur, av, offs, entries, base) =
      svcmgr_handler-dispatch sys abi ans m txn msg reply (text name ∷ []) me
        (λ ping. other (sym add ∙ ping)) holds (omega arith) in
    let at : msg.cursor + total_size (request_items name) ≡ msg'.cursor + size_of (text name) =
      omega (arith, cur) in
    let behind : Publishes sys abi reply.mem msg' (msg'.cursor + size_of (text name)) handle allow
        priority =
      record {
        listed = rw (offs, entries, base, ← at) p.listed;
        typed = rw (← at) p.typed;
        held = rw (← at) p.held;
        words =
            subst
              (λ a.
                Holds reply.mem (a + align4 abi.sizeof_object) (word allow ∷ word priority ∷ []))
              at p.words;
      } in
    dispatched
    ∙ dispatch-Publishes sys abi ans (refresh_sehandle ans m) txn msg' reply name handle allow
        priority add (subst (λ a. Holds reply.mem a (text name ∷ [])) (sym cur) holds.1.1.1) behind
        (omega (arith, av))
