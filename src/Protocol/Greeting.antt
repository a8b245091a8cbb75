-- ===== src/Protocol/Greeting.antt =====
-- The whole run of the client: the look-up of the service at the manager, and the call of it.
use mathlib.Core.Path.{subst}
use android_source_learn.Bio.Message.{total_size}
use android_source_learn.Protocol.{request_items}
use android_source_learn.Prelude.{
  length, sym, ℕ, ◌*◌, ◌-◌, ◌^◌, ◌≤◌, ◌<◌, ◌≡◌, ◌≢◌, refl, ◌∙◌, ap, false, none, some, List, [],
  ◌∷◌, ◌++◌, map, ◌==◌, Option-cases, inl, inr, arith,
}
use android_source_learn.Prelude.Int.{ℤ, pos}
use android_source_learn.Memory.{Memory}
use android_source_learn.Memory.Units.{unit16}
use android_source_learn.Abi.{Abi, IsObjectLayout, TransactionData, TransactionSecctx}
use android_source_learn.Bio.{
  BinderIo, Parcel, align4, c_string, max_units, bio_init, bio_alloc, bio_put_uint32,
  bio_put_string16_x, put_payload, bio_init_from_txn,
}
use android_source_learn.Binder.Commands.{
  reply_txn, Trace, free_buffer, acquire, binder_done, binder_write,
}
use android_source_learn.Binder.Parse.Stream.{Sent, AreCodes}
use android_source_learn.Binder.Call.{Response, CallTxn, ended, call_txn}
use android_source_learn.Binder.Call.Replies.{first_reply, Delivers, AreQuiet, binder_call-replied}
use android_source_learn.Binder.Open.{Held, OpenAnswers, binder_open}
use android_source_learn.ServiceManager.Access.{System}
use android_source_learn.ServiceManager.Registry.{Manager, do_find_service}
use android_source_learn.ServiceManager.Handler.{
  Answers, svc_mgr_check_service, refresh_sehandle, svcmgr_handler,
}
use android_source_learn.HelloServer.{hello_svr_cmd_sayhello}
use android_source_learn.HelloServer.Main.{hello_name, binder_service_manager}
use android_source_learn.HelloClient.{
  lookup_message, svcmgr_lookup, sayhello_message, sayhello_result, sayhello,
}
use android_source_learn.HelloClient.Main.{
  hello_client, exited, after_sayhello, after_lookup, client_main,
}
use android_source_learn.Protocol.Exchange.{Hands, svcmgr_lookup-exchange}
use android_source_learn.Protocol.Replies.{empty_reply, Conveys}

-- A BC_TRANSACTION is a synchronous call with this code of what this handle refers to, with the data
-- and the offsets of this parcel.
pub record IsCall (t : CallTxn) (to what : ℕ) (io : BinderIo) : Type 0 where
  pub handle : t.handle ≡ to
  pub code : t.code ≡ what
  pub flags : t.flags ≡ 0
  pub data_size : t.data_size ≡ io.cursor - io.data0
  pub offsets_size : t.offsets_size ≡ io.offs - io.offs0
  pub buffer : t.buffer ≡ io.data0
  pub offsets : t.offsets ≡ io.offs0

-- The answers of the driver to a call: after any number with acknowledgements
-- and reference counts alone one whose first reply is
-- this transaction, with this memory.
pub record Replies (abi : Abi) (readbuf : ℕ) (responses : List Response) (txn : TransactionData)
    (mem : Memory) : Type 0 where
  pub quiet : List Response
  pub resp : Response
  pub rest : List Response
  pub commands : List Sent
  pub answers : responses ≡ quiet ++ resp ∷ rest
  pub are_quiet : AreQuiet abi readbuf quiet
  pub delivers : Delivers abi readbuf resp commands
  pub first : first_reply commands ≡ some txn
  pub memory : resp.mem ≡ mem

module _ (abi : Abi) (codes : AreCodes abi) (rdata readbuf iodata : ℕ)
    (driver : CallTxn → Memory → List Response) where
  sayhello_message_clean : (mem : Memory) → (sayhello_message iodata mem).io.flags.overflow ≡ false
  unfolding sayhello_message bio_init bio_put_uint32 bio_put_string16_x put_payload bio_alloc
      c_string
  sayhello_message_clean mem = refl

  -- A call that is replied to is over, and the buffer of the reply has been given back.
  sayhello-Replies :
      (g_handle : ℕ) (s : Trace) (mem mem' : Memory) (txn : TransactionData)
      → let msg = sayhello_message iodata mem in
        Replies abi readbuf
          (driver (call_txn msg.io g_handle hello_svr_cmd_sayhello) msg.mem)
          txn
          mem'
        → sayhello abi hello_client rdata readbuf iodata driver g_handle s mem
          ≡ ended tt (free_buffer txn.buffer ∷ s) mem'
  unfolding sayhello binder_done binder_write bio_init_from_txn
  sayhello-Replies g_handle s mem mem' txn r =
      let msg = sayhello_message iodata mem in
      rw (← r.memory) (
        ap (sayhello_result abi hello_client rdata readbuf iodata) (
          binder_call-replied abi hello_client rdata readbuf codes driver msg.io g_handle
            hello_svr_cmd_sayhello s msg.mem r.quiet r.resp r.rest r.commands txn
            (sayhello_message_clean mem) r.answers r.are_quiet r.delivers r.first))

hello_fits :
    (length (c_string hello_name) < max_units) × (total_size (request_items hello_name) ≤ 480)
unfolding c_string
hello_fits = (omega arith, omega arith)

-- The whole run of the client. The driver opens; it hands the client's look-up of "hello" to the
-- manager, whose registry has a handle for that name, and conveys the manager's reply; and
-- with a reply it answers a synchronous call of HELLO_SVR_CMD_SAYHELLO of the number that the handle
-- has for the client, with the message of `sayhello`.
-- Then `main` ends with 0: it has acquired that handle, made the call with it, and given back the
-- buffers of the two replies, the manager's after the handle was acquired, and nothing else.
pub client_main-greets :
    (sys : System) (abi : Abi) (layout : IsObjectLayout abi) (codes : AreCodes abi)
    (rdata readbuf iodata : ℕ) (driver : CallTxn → Memory → List Response)
    (open_answers : OpenAnswers) (h : Held) (mem mem' mem2 mem3 : Memory) (ans : Answers)
    (m m' : Manager) (request : TransactionSecctx) (incoming : BinderIo) (replies : ℕ)
    (reply : Parcel) (z : ℤ) (handle : ℕ) (translate : ℕ → ℕ) (found greeted : TransactionData)
    → (binder_open abi open_answers (128 * 1024) h).0 ≢ none
    → align4 abi.sizeof_object ≤ 224
    → svc_mgr_check_service ≢ abi.ping_transaction
    → let sent = lookup_message iodata hello_name mem in
      let call = sayhello_message iodata mem2 in
      Hands
        (call_txn sent.io binder_service_manager svc_mgr_check_service)
        sent.mem
        request
        incoming
        mem'
      → do_find_service sys
          (map unit16 (c_string hello_name))
          request.transaction_data.sender_euid
          request.transaction_data.sender_pid
          request.secctx
          (refresh_sehandle ans m)
        ≡ some handle
      → 0 < handle
      → handle < 2 ^ 32
      → 0 < translate handle
      → svcmgr_handler sys abi ans m request incoming (empty_reply replies mem')
        ≡ some (m', reply, z)
      → Replies abi readbuf
          (driver (call_txn sent.io binder_service_manager svc_mgr_check_service) sent.mem)
          found
          mem2
      → Conveys abi translate (reply_txn abi reply.io z) reply.mem found mem2
      → ((t : CallTxn)
          → IsCall t (translate handle) hello_svr_cmd_sayhello call.io
          → Replies abi readbuf (driver t call.mem) greeted mem3)
      → client_main abi rdata readbuf iodata driver open_answers mem h
        ≡ exited (pos 0) (
            free_buffer greeted.buffer ∷ free_buffer found.buffer ∷ acquire (translate handle) ∷ [])
unfolding client_main
client_main-greets sys abi layout codes rdata readbuf iodata driver open_answers h mem mem' mem2
      mem3 ans m m' request incoming replies reply z handle translate found greeted open_ok room
      other handed has live small live' ran r conveyed r' =
    elim (Option-cases (binder_open abi open_answers (128 * 1024) h).0) [
      | inl closed ↦ absurd (open_ok closed)
      | inr (bs, opened) ↦
          rw (opened, client_main)
            (ap (after_lookup abi rdata readbuf iodata driver) looked_up
              ∙ (let acquired : (translate handle == 0) ≡ false = ground arith in
                  rw acquired (
                    ap after_sayhello (
                      sayhello-Replies abi codes rdata readbuf iodata driver (translate handle) _
                        mem2 mem3 greeted (r' _ is_call)))))
    ]
  where
    is_call :
        let io = (sayhello_message iodata mem2).io in
        IsCall
          (call_txn io (translate handle) hello_svr_cmd_sayhello)
          (translate handle)
          hello_svr_cmd_sayhello
          io
    is_call = record {
      handle = refl;
      code = refl;
      flags = refl;
      data_size = refl;
      offsets_size = refl;
      buffer = refl;
      offsets = refl;
    }

    looked_up :
        svcmgr_lookup abi hello_client rdata readbuf iodata driver binder_service_manager hello_name
          [] mem
        ≡ ended (translate handle) (free_buffer found.buffer ∷ acquire (translate handle) ∷ []) mem2
    looked_up =
        let missing : (handle == 0) ≡ false = ground arith in
        svcmgr_lookup-exchange sys abi layout codes hello_client rdata readbuf iodata driver
          hello_name [] mem ans m m' request incoming replies mem' reply z handle translate r.quiet
          r.resp r.rest r.commands found hello_fits.0 hello_fits.1 room other handed has small ran
          r.answers r.are_quiet r.delivers r.first
          (subst
            (λ (k : Memory). Conveys abi translate (reply_txn abi reply.io z) reply.mem found k)
            (sym r.memory) conveyed)
          (λ l. live')
        ∙ rw missing (
            ap
              (λ (k : Memory).
                ended (translate handle)
                  (free_buffer found.buffer ∷ acquire (translate handle) ∷ []) k)
              r.memory)
