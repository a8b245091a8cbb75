-- ===== src/Protocol/Exchange.antt =====
-- A whole look-up: the client's request, the manager's handler, and the reply, with the driver
-- between them.
use android_source_learn.Prelude.{
  ℕ, ◌-◌, ◌^◌, ◌≤◌, ◌<◌, ◌≡◌, ◌≢◌, refl, sym, ◌∙◌, ap, false, some, List, ◌∷◌, ◌++◌, map, length,
  ◌==◌, if◌then◌else◌, arith,
}
use mathlib.Core.Path.{subst, subst₂}
use mathlib.Core.Option.{some-injective}
use android_source_learn.Prelude.Int.{ℤ, pos}
use android_source_learn.Memory.{Memory}
use android_source_learn.Memory.Frame.{Copied}
use android_source_learn.Memory.Units.{unit16}
use android_source_learn.Abi.{Abi, IsObjectLayout, TransactionData, TransactionSecctx}
use android_source_learn.Bio.{BinderIo, Parcel, align4, c_string, max_units, bio_init}
use android_source_learn.Bio.Message.{total_size}
use android_source_learn.Bio.Message.Writing.{put_items-Grows}
use android_source_learn.Binder.Commands.{reply_txn, free_buffer, acquire}
use android_source_learn.Binder.Parse.{Service}
use android_source_learn.Binder.Parse.Stream.{Sent, AreCodes}
use android_source_learn.Binder.Call.{Response, CallTxn, ended, call_txn}
use android_source_learn.Binder.Call.Replies.{first_reply, Delivers, AreQuiet, binder_call-replied}
use android_source_learn.ServiceManager.Access.{System}
use android_source_learn.ServiceManager.Registry.{Manager, do_find_service}
use android_source_learn.ServiceManager.Handler.{
  Answers, svc_mgr_check_service, refresh_sehandle, svcmgr_handler,
}
use android_source_learn.ServiceManager.Handler.Requests.{find_reply}
use android_source_learn.HelloClient.{lookup_message, svcmgr_lookup, lookup_result}
use android_source_learn.Protocol.{
  request_items, fresh_parcel, lookup_message-eq, fresh_parcel_lem, IsSendable-lookup,
  svcmgr_handler-lookup_message,
}
use android_source_learn.Protocol.Replies.{empty_reply, Conveys, lookup_result-find_reply}

-- The driver hands the request of a BC_TRANSACTION to the process that it names, the manager for the
-- handle 0: the transaction with its code, and a reader of a copy of its data.
pub record Hands (t : CallTxn) (from : Memory) (txn : TransactionSecctx) (msg : BinderIo)
    (mem : Memory) : Type 0 where
  pub target : t.handle ≡ 0 → txn.transaction_data.target ≡ 0
  pub coded : txn.transaction_data.code ≡ t.code
  pub size : msg.data_avail ≡ t.data_size
  pub copied : Copied t.data_size from t.buffer mem msg.cursor

-- What the marshalled message of a look-up is: the items behind the start of the data, without an
-- overflow.
lookup_message_lem :
    (iodata : ℕ) (name : List ℕ) (mem : Memory)
    → length (c_string name) < max_units
    → total_size (request_items name) ≤ 480
    → let sent = lookup_message iodata name mem in
      (sent.io.cursor - sent.io.data0 ≡ total_size (request_items name))
      × (sent.io.data0 ≡ (fresh_parcel iodata mem).io.data0)
      × (sent.io.flags.overflow ≡ false)
lookup_message_lem iodata name mem small fits =
    let p = fresh_parcel iodata mem in
    let (avail, begins) = fresh_parcel_lem iodata mem in
    let grown =
      (put_items-Grows (request_items name) p (IsSendable-lookup name small)
        (omega (arith, avail))).0 in
    let clean : p.io.flags.overflow ≡ false = unfold bio_init in refl in
    subst
      (λ (sent : Parcel).
        (sent.io.cursor - sent.io.data0 ≡ total_size (request_items name))
        × (sent.io.data0 ≡ p.io.data0)
        × (sent.io.flags.overflow ≡ false))
      (sym (lookup_message-eq iodata name mem))
      (
        omega (arith, grown.moved, grown.based, begins),
        grown.based,
        ap (λ f. f.overflow) grown.kept ∙ clean,
      )

-- The manager's side of the exchange.
module _ (sys : System) (abi : Abi) (ans : Answers) (m : Manager) (request : TransactionSecctx)
    (incoming : BinderIo) (answer : Parcel) (iodata : ℕ) (name : List ℕ) (mem : Memory) (handle : ℕ)
    (small : length (c_string name) < max_units) (fits : total_size (request_items name) ≤ 480)
    (other : svc_mgr_check_service ≢ abi.ping_transaction)
    (h : Hands
      (call_txn (lookup_message iodata name mem).io 0 svc_mgr_check_service)
      (lookup_message iodata name mem).mem
      request
      incoming
      answer.mem)
    (found : do_find_service sys
        (map unit16 (c_string name))
        request.transaction_data.sender_euid
        request.transaction_data.sender_pid
        request.secctx
        (refresh_sehandle ans m)
      ≡ some handle) where
  pub handler-found :
      svcmgr_handler sys abi ans m request incoming answer
      ≡ some (refresh_sehandle ans m, find_reply sys abi handle answer, pos 0)
  handler-found =
      let (size, based, clean) = lookup_message_lem iodata name mem small fits in
      svcmgr_handler-lookup_message sys abi ans m request incoming answer iodata name mem handle
        small fits (h.target refl) h.coded other (omega (arith, h.size, based))
        (subst₂ (λ n a. Copied n (lookup_message iodata name mem).mem a answer.mem incoming.cursor)
          size based h.copied)
        found

  handler-reply :
      (m' : Manager) (reply : Parcel) (z : ℤ)
      → svcmgr_handler sys abi ans m request incoming answer ≡ some (m', reply, z)
      → (find_reply sys abi handle answer ≡ reply) × (pos 0 ≡ z)
  handler-reply m' reply z ran =
      let same = some-injective _ _ (sym handler-found ∙ ran) in
      (ap (λ (o : Manager × Parcel × ℤ). o.1) same, ap (λ (o : Manager × Parcel × ℤ). o.2) same)

-- A whole look-up. The client's message fits, the driver hands what `binder_call` writes to the
-- manager, whose handler returns `reply` for it, and conveys what `binder_send_reply` writes for
-- that: after any number of answers with acknowledgements and reference counts alone it delivers one
-- whose first reply is a transaction with the reply of the manager. Then
-- `svcmgr_lookup` returns the number that the driver gives to the handle that the registry has for
-- the name, having acquired that handle and then given the buffer back; or, if the registry has
-- none, it returns 0, having given the buffer back.
pub svcmgr_lookup-exchange :
    {S : Type 0} (sys : System) (abi : Abi) (layout : IsObjectLayout abi) (codes : AreCodes abi)
    (svc : Service S) (rdata readbuf iodata : ℕ) (driver : CallTxn → Memory → List Response)
    (name : List ℕ) (s : S) (mem : Memory) (ans : Answers) (m m' : Manager)
    (request : TransactionSecctx) (incoming : BinderIo) (replies : ℕ) (mem' : Memory)
    (reply : Parcel) (z : ℤ) (handle : ℕ) (translate : ℕ → ℕ) (quiet : List Response)
    (resp : Response) (rest : List Response) (is : List Sent) (txn : TransactionData)
    → length (c_string name) < max_units
    → total_size (request_items name) ≤ 480
    → align4 abi.sizeof_object ≤ 224
    → svc_mgr_check_service ≢ abi.ping_transaction
    → let sent = lookup_message iodata name mem in
      Hands (call_txn sent.io 0 svc_mgr_check_service) sent.mem request incoming mem'
      → do_find_service sys
          (map unit16 (c_string name))
          request.transaction_data.sender_euid
          request.transaction_data.sender_pid
          request.secctx
          (refresh_sehandle ans m)
        ≡ some handle
      → handle < 2 ^ 32
      → svcmgr_handler sys abi ans m request incoming (empty_reply replies mem')
        ≡ some (m', reply, z)
      → driver
          (call_txn (lookup_message iodata name mem).io 0 svc_mgr_check_service)
          (lookup_message iodata name mem).mem
        ≡ quiet ++ resp ∷ rest
      → AreQuiet abi readbuf quiet
      → Delivers abi readbuf resp is
      → first_reply is ≡ some txn
      → Conveys abi translate (reply_txn abi reply.io z) reply.mem txn resp.mem
      → (0 < handle → 0 < translate handle)
      → svcmgr_lookup abi svc rdata readbuf iodata driver 0 name s mem ≡ (
          if handle == 0
          then ended 0 (svc.with_trace (free_buffer txn.buffer ∷ svc.trace s) s) resp.mem
          else ended
              (translate handle)
              (svc.with_trace (free_buffer txn.buffer ∷ acquire (translate handle) ∷ svc.trace s) s)
              resp.mem)
unfolding svcmgr_lookup
svcmgr_lookup-exchange sys abi layout codes svc rdata readbuf iodata driver name s mem ans m m'
      request incoming replies mem' reply z handle translate quiet resp rest is txn small fits room
      other handed found small_handle ran answers q d first conveyed live =
    let (_, _, clean) = lookup_message_lem iodata name mem small fits in
    let (same, ok) =
      handler-reply sys abi ans m request incoming (empty_reply replies mem') iodata name mem handle
        small fits other handed found m' reply z ran in
    let called =
      binder_call-replied abi svc rdata readbuf codes driver (lookup_message iodata name mem).io 0
        svc_mgr_check_service s (lookup_message iodata name mem).mem quiet resp rest is txn clean
        answers q d first in
    ap (lookup_result abi svc rdata readbuf iodata) called
    ∙ lookup_result-find_reply abi layout sys svc rdata readbuf iodata translate handle replies txn
        s mem' resp.mem small_handle room live
        (subst₂ (λ r n. Conveys abi translate (reply_txn abi r.io n) r.mem txn resp.mem) (sym same)
          (sym ok) conveyed)
