-- ===== src/Protocol/Registering.antt =====
-- A registration, from the message of `svcmgr_publish` to the registry of the manager, with the
-- driver between them.
use android_source_learn.Prelude.{
  ℕ, ◌+◌, ◌-◌, ◌*◌, ◌%◌, ◌^◌, ◌≤◌, ◌<◌, ◌≡◌, ◌≢◌, ◌⊎◌, ◌∙◌, ap, false, List, [], ◌∷◌, map, length,
  arith, inl, inr,
}
use android_source_learn.Memory.{Memory, load}
use android_source_learn.Memory.Frame.{Copied, load-Copied}
use android_source_learn.Memory.Units.{unit16}
use android_source_learn.Abi.{Abi, IsObjectLayout, TransactionSecctx}
use android_source_learn.Binder.Call.{CallTxn, call_txn}
use android_source_learn.Bio.{BinderIo, Parcel, align4, c_string, max_units}
use android_source_learn.Bio.Message.{word, total_size, Holds}
use android_source_learn.Bio.Message.Copying.{Holds-Copied}
use android_source_learn.Bio.Objects.{has_offset-entry}
use android_source_learn.Binder.Parse.{Service}
use android_source_learn.ServiceManager.Access.{System}
use android_source_learn.ServiceManager.Registry.{Manager, do_add_service}
use android_source_learn.ServiceManager.Handler.{
  Answers, svc_mgr_add_service, finish_add, refresh_sehandle, svcmgr_handler,
}
use android_source_learn.ServiceManager.Handler.Requests.{Publishes}
use android_source_learn.HelloServer.{publish_message}
use android_source_learn.Protocol.{request_items, svcmgr_handler-Publishes}
use android_source_learn.Protocol.Registration.{HoldsRequest, publish_message-HoldsRequest}

-- The driver hands the data of a BC_TRANSACTION to another process, which reads it with `msg`: the sizes and
-- the entries are the same, the bytes outside of the objects are copied, and an object that points
-- into the sender becomes a reference, with the handle that the receiver has for the pointer.
pub record Translates (abi : Abi) (handle_of : ℕ → ℕ) (t : CallTxn) (from : Memory) (msg : BinderIo)
    (mem : Memory) : Type 0 where
  pub size : msg.data_avail ≡ t.data_size
  pub based : msg.data0 ≡ msg.cursor
  pub entries_size : 8 * msg.offs_avail ≡ t.offsets_size
  pub entries : Copied t.offsets_size from t.offsets mem msg.offs
  pub copied :
      (i : ℕ)
      → i < t.data_size
      → ((k : ℕ)
          → 8 * k < t.offsets_size
          → let at = load 8 from (t.offsets + 8 * k) in
            (i < at) ⊎ (at + align4 abi.sizeof_object ≤ i))
      → mem (msg.cursor + i) ≡ from (t.buffer + i)
  pub typed :
      (k : ℕ)
      → 8 * k < t.offsets_size
      → let at = load 8 from (t.offsets + 8 * k) in
        load 4 from (t.buffer + at + abi.type_at) ≡ abi.type_binder
        → load 4 mem (msg.cursor + at + abi.type_at) ≡ abi.type_handle
  pub translated :
      (k : ℕ)
      → 8 * k < t.offsets_size
      → let at = load 8 from (t.offsets + 8 * k) in
        load 4 from (t.buffer + at + abi.type_at) ≡ abi.type_binder
        → load 4 mem (msg.cursor + at + abi.handle_at)
          ≡ handle_of (load 8 from (t.buffer + at + abi.handle_at))

module _ (sys : System) (abi : Abi) (handle_of : ℕ → ℕ) (name : List ℕ) (ptr : ℕ) (sent : Parcel)
    (msg : BinderIo) (mem : Memory) (h : HoldsRequest abi name ptr sent)
    (t : Translates abi handle_of (call_txn sent.io 0 svc_mgr_add_service) sent.mem msg mem) where
  -- The only entry is that of the object behind the header.
  only_entry :
      (k : ℕ)
      → 8 * k < sent.io.offs - sent.io.offs0
      → load 8 sent.mem (sent.io.offs0 + 8 * k) ≡ total_size (request_items name)
  only_entry k small = ap (load 8 sent.mem) (omega (arith, h.entries)) ∙ h.entry

  Translates-header : Holds mem msg.cursor (request_items name)
  Translates-header =
      Holds-Copied (request_items name) sent.mem sent.io.data0 mem msg.cursor
        (λ i inside.
          t.copied i (omega (arith, h.size)) (λ k small. inl (omega (arith, only_entry k small))))
        h.header

  Translates-words :
      Holds mem
        (msg.cursor + total_size (request_items name) + align4 abi.sizeof_object)
        (word 0 ∷ word 0 ∷ [])
  Translates-words =
      Holds-Copied (word 0 ∷ word 0 ∷ []) sent.mem
        (sent.io.data0 + total_size (request_items name) + align4 abi.sizeof_object) mem
        (msg.cursor + total_size (request_items name) + align4 abi.sizeof_object)
        (λ i inside.
          ap mem (omega arith)
          ∙ t.copied (total_size (request_items name) + align4 abi.sizeof_object + i)
              (omega (arith, h.size)) (λ k small. inr (omega (arith, only_entry k small)))
          ∙ ap sent.mem (omega arith))
        h.words

  Translates-Publishes :
      Publishes sys abi mem msg
        (msg.cursor + total_size (request_items name))
        (handle_of (ptr % 2 ^ 64))
        0
        0
  Translates-Publishes =
      let first : 8 * 0 < sent.io.offs - sent.io.offs0 = omega (arith, h.entries) in
      let at = only_entry 0 first in
      let points : load 4 sent.mem
            (sent.io.data0 + load 8 sent.mem (sent.io.offs0 + 8 * 0) + abi.type_at)
          ≡ abi.type_binder =
        ap (load 4 sent.mem) (omega (arith, at)) ∙ h.typed in
      record {
        listed =
            has_offset-entry mem msg.offs _ msg.offs_avail 0
              (omega (arith, t.entries_size, h.entries))
              (ap (load 8 mem) (omega arith)
                ∙ load-Copied 8 sent.mem sent.io.offs0 mem msg.offs
                    (λ i small. t.entries i (omega (arith, h.entries)))
                ∙ h.entry
                ∙ omega (arith, t.based));
        typed = ap (load 4 mem) (omega (arith, at)) ∙ t.typed 0 first points;
        held =
            ap (load 4 mem) (omega (arith, at))
            ∙ t.translated 0 first points
            ∙ ap handle_of (ap (load 8 sent.mem) (omega (arith, at)) ∙ h.pointed);
        words = Translates-words;
      }

-- What the server marshals in `svcmgr_publish` for a name that fits, the manager registers: if the
-- driver hands its message over, as `binder_call` writes it, with the pointer to the handler replaced by the manager's handle
-- for it, then the outcome of SVC_MGR_ADD_SERVICE, which is not the ping, is that of
-- `do_add_service` with that name and that handle, not for isolated callers and with no priority,
-- for the sender of the transaction.
pub svcmgr_handler-publish_message :
    {S : Type 0} (sys : System) (abi : Abi) (layout : IsObjectLayout abi) (svc : Service S)
    (rdata readbuf iodata : ℕ) (name : List ℕ) (ptr : ℕ) (mem : Memory) (handle_of : ℕ → ℕ)
    (ans : Answers) (m : Manager) (txn : TransactionSecctx) (msg : BinderIo) (reply : Parcel)
    → length (c_string name) < max_units
    → total_size (request_items name) + align4 abi.sizeof_object + 8 ≤ 480
    → txn.transaction_data.target ≡ 0
    → txn.transaction_data.code ≡ svc_mgr_add_service
    → svc_mgr_add_service ≢ abi.ping_transaction
    → let sent = publish_message abi svc rdata readbuf iodata name ptr mem in
      Translates abi handle_of (call_txn sent.io 0 svc_mgr_add_service) sent.mem msg reply.mem
      → svcmgr_handler sys abi ans m txn msg reply
        ≡ finish_add
            (do_add_service sys ans.fresh
              (map unit16 (c_string name))
              (handle_of (ptr % 2 ^ 64))
              txn.transaction_data.sender_euid
              false
              0
              txn.transaction_data.sender_pid
              txn.secctx
              (refresh_sehandle ans m))
            reply
svcmgr_handler-publish_message sys abi layout svc rdata readbuf iodata name ptr mem handle_of ans m
      txn msg reply small fits me add other t =
    let sent = publish_message abi svc rdata readbuf iodata name ptr mem in
    let h =
      publish_message-HoldsRequest abi layout svc rdata readbuf iodata name ptr mem small fits in
    svcmgr_handler-Publishes sys abi ans m txn msg reply name (handle_of (ptr % 2 ^ 64)) 0 0 me add
      other (Translates-header sys abi handle_of name ptr sent msg reply.mem h t)
      (Translates-Publishes sys abi handle_of name ptr sent msg reply.mem h t)
      (omega (arith, t.size, h.size))
