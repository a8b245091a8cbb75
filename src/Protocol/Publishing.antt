-- ===== src/Protocol/Publishing.antt =====
-- The result of a registration, from the manager's handler to the return value of `svcmgr_publish`.
use android_source_learn.Prelude.{
  ℕ, ◌+◌, ◌%◌, ◌^◌, ◌≤◌, ◌<◌, ◌≡◌, refl, sym, ◌∙◌, ◌⊎◌, inl, inr, false, Option, none, some, ◌∷◌,
  ◌≢◌, ◌==◌, Bool-cases, Option-cases, arith,
}
use mathlib.Core.Path.{subst, subst₂}
use android_source_learn.Prelude.Int.{ℤ, pos, negsuc, minus_one, is_nonzero, word_of, signed32}
use android_source_learn.Memory.{Memory, load}
use android_source_learn.Memory.Frame.{Copied, load-Copied, load4-store}
use android_source_learn.Abi.{Abi, TransactionData, TransactionSecctx}
use android_source_learn.Bio.{
  BinderIo, Parcel, bio_get_string16, bio_init, bio_init_from_txn, bio_put_uint32, bio_alloc,
}
use android_source_learn.Bio.Reads.{bio_get_uint32-room}
use android_source_learn.Binder.Commands.{
  Payload, status, buffers, ReplyTxn, reply_txn, free_buffer, binder_write, binder_done,
}
use android_source_learn.Binder.Parse.{Service, blank}
use android_source_learn.Binder.Call.{finished, ended}
use android_source_learn.ServiceManager.Registry.{Manager}
use android_source_learn.ServiceManager.Access.{System}
use android_source_learn.ServiceManager.Handler.{
  Answers, Outcome, svc_mgr_add_service, finish_add, handle_add, refresh_sehandle, svcmgr_handler,
}
use android_source_learn.ServiceManager.Handler.Effects.{enforce_cases}
use android_source_learn.ServiceManager.Handler.Requests.{dispatch-add}
use android_source_learn.HelloServer.{publish_status}
use android_source_learn.Protocol.Replies.{empty_reply}

-- The bytes of the data of a reply, where the receiver has them.
abbrev pub Holds4 : Payload → ℕ → Memory → ℕ → Memory → Type 0
Holds4 (status w) n mem to mem' = load 4 mem' to ≡ w % 2 ^ 32
Holds4 (buffers b o) n mem to mem' = Copied n mem b mem' to

-- The driver carries the data of a reply without objects to the receiver.
pub record Carries (t : ReplyTxn) (mem : Memory) (txn : TransactionData) (mem' : Memory)
    : Type 0 where
  pub size : txn.data_size ≡ t.data_size
  pub held : Holds4 t.payload t.data_size mem txn.buffer mem'

-- An `int` survives its way through a 32-bit word.
abbrev pub IsInt : ℤ → Type 0
IsInt (pos n) = n < 2 ^ 31
IsInt (negsuc n) = n < 2 ^ 31

signed32-word_of : (z : ℤ) → IsInt z → signed32 (word_of z) ≡ z
signed32-word_of (pos n) small = ground arith
signed32-word_of (negsuc n) small = ground arith

module _ {S : Type 0} (abi : Abi) (svc : Service S) (rdata readbuf iodata : ℕ) where
  -- A reply with a word is read as its status, and its buffer is given back.
  publish_status-word :
      (txn : TransactionData) (z : ℤ) (s : S) (mem : Memory)
      → IsInt z
      → 4 ≤ txn.data_size
      → load 4 mem txn.buffer ≡ word_of z
      → publish_status abi svc rdata readbuf iodata
          (finished (pos 0) (bio_init_from_txn blank txn) s mem)
        ≡ ended z (svc.with_trace (free_buffer txn.buffer ∷ svc.trace s) s) mem
  unfolding binder_done binder_write bio_init_from_txn
  publish_status-word txn z s mem int room held =
      rw (bio_get_uint32-room mem (bio_init_from_txn blank txn) room, held, signed32-word_of z int)
        refl

-- What the handler makes of SVC_MGR_ADD_SERVICE: 0 and the word 0, or -1.
abbrev AddOutcome : Parcel → Outcome → Type 0
AddOutcome reply none = Unit {0}
AddOutcome reply (some (m, reply', z)) =
    ((z ≡ pos 0) × (reply' ≡ bio_put_uint32 0 reply)) ⊎ (z ≡ minus_one)

finish_add-AddOutcome :
    (o : Option (Manager × ℤ)) (reply : Parcel) → AddOutcome reply (finish_add o reply)
unfolding finish_add
finish_add-AddOutcome none reply = tt
finish_add-AddOutcome (some (m, z)) reply = elim (Bool-cases (is_nonzero z)) [
  | inl refused ↦ rw (refused, finish_add) (inr refl)
  | inr added ↦ rw (added, finish_add) (inl (refl, refl))
]

module _ (sys : System) (abi : Abi) where
  handle_add-AddOutcome :
      (ans : Answers) (m : Manager) (txn : TransactionSecctx) (msg : BinderIo) (reply : Parcel)
      → AddOutcome reply (handle_add sys abi ans m txn msg reply)
  unfolding handle_add
  handle_add-AddOutcome ans m txn msg reply =
      elim (Option-cases (bio_get_string16 reply.mem msg).0) [
        | inl bad ↦ rw (bad, handle_add) (inr refl)
        | inr (a, good) ↦ rw (good, handle_add) (finish_add-AddOutcome _ reply)
      ]

  svcmgr_handler-AddOutcome :
      (ans : Answers) (m : Manager) (txn : TransactionSecctx) (msg : BinderIo) (reply : Parcel)
      → txn.transaction_data.code ≡ svc_mgr_add_service
      → svc_mgr_add_service ≢ abi.ping_transaction
      → AddOutcome reply (svcmgr_handler sys abi ans m txn msg reply)
  unfolding svcmgr_handler
  svcmgr_handler-AddOutcome ans m txn msg reply add other =
      let not_ping : (txn.transaction_data.code == abi.ping_transaction) ≡ false = ground arith in
      elim (Bool-cases (txn.transaction_data.target == 0)) [
        | inr other_target ↦ rw (other_target, svcmgr_handler) (inr refl)
        | inl me ↦
            rw (me, not_ping, svcmgr_handler)
              (enforce_cases sys abi (AddOutcome reply) ans m txn _ reply (inr refl) (λ msg'.
                subst (AddOutcome reply)
                  (sym (dispatch-add sys abi ans (refresh_sehandle ans m) txn msg' reply add))
                  (handle_add-AddOutcome ans (refresh_sehandle ans m) txn msg' reply)))
      ]

module _ {S : Type 0} (sys : System) (abi : Abi) (svc : Service S) (rdata readbuf iodata : ℕ) where
  -- The word 0 of an accepted registration.
  accepted-Carries :
      (replies : ℕ) (mem : Memory) (txn : TransactionData) (mem' : Memory)
      → let reply = bio_put_uint32 0 (empty_reply replies mem) in
        Carries (reply_txn abi reply.io (pos 0)) reply.mem txn mem'
        → (4 ≤ txn.data_size) × (load 4 mem' txn.buffer ≡ 0)
  unfolding bio_put_uint32 bio_init bio_alloc
  accepted-Carries replies mem txn mem' c = (
    omega (arith, c.size),
    load-Copied 4 _ (replies + 32) mem' txn.buffer (λ i small. c.held i (omega (arith, small)))
        ∙ load4-store mem (replies + 32) 0
        ∙ omega arith,
  )

  -- The result that the manager's handler returns for a request to add a service is the result of
  -- `svcmgr_publish`: the handler has returned `z` and `reply`, `binder_send_reply` has sent the
  -- status or the parcel, and the driver has carried it to the server, which waits in
  -- `binder_call`. The buffer of the reply is given back.
  pub publish_status-handler :
      (ans : Answers) (m m' : Manager) (request : TransactionSecctx) (incoming : BinderIo)
      (replies : ℕ) (mem : Memory) (reply : Parcel) (z : ℤ) (txn : TransactionData) (s : S)
      (mem' : Memory)
      → request.transaction_data.code ≡ svc_mgr_add_service
      → svc_mgr_add_service ≢ abi.ping_transaction
      → svcmgr_handler sys abi ans m request incoming (empty_reply replies mem)
        ≡ some (m', reply, z)
      → Carries (reply_txn abi reply.io z) reply.mem txn mem'
      → publish_status abi svc rdata readbuf iodata
          (finished (pos 0) (bio_init_from_txn blank txn) s mem')
        ≡ ended z (svc.with_trace (free_buffer txn.buffer ∷ svc.trace s) s) mem'
  publish_status-handler ans m m' request incoming replies mem reply z txn s mem' add other ran c =
      elim (subst (AddOutcome (empty_reply replies mem)) ran (
        svcmgr_handler-AddOutcome sys abi ans m request incoming (empty_reply replies mem) add
          other)) [
            | inl (zero_result, same) ↦
                let (room, held) = accepted-Carries replies mem txn mem' (
                  subst₂ (λ r n. Carries (reply_txn abi r.io n) r.mem txn mem') same zero_result
                    c) in
                rw zero_result (
                  publish_status-word abi svc rdata readbuf iodata txn (pos 0) s mem' (omega arith)
                    room held)
            | inr refused ↦
                let c' =
                  subst (λ n. Carries (reply_txn abi reply.io n) reply.mem txn mem') refused c in
                rw refused (
                  publish_status-word abi svc rdata readbuf iodata txn minus_one s mem'
                    (omega arith) (omega (arith, c'.size)) c'.held)
          ]
