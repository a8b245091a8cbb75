-- ===== src/Binder/Parse/Answers.antt =====
-- Every transaction that a handler takes is answered once, and its buffer is given back.
use Prim.Native.Nat.{bit_and}
use android_source_learn.Prelude.{
  ℕ, ◌≡◌, Bool, true, false, not, Option, none, some, ◌∷◌, ltb, Bool-cases, inl, inr, if◌then◌else◌,
  arith,
}
use android_source_learn.Prelude.Int.{ℤ}
use android_source_learn.Abi.{Abi, TransactionSecctx}
use android_source_learn.Bio.{BinderIo, Parcel, bio_init, bio_init_from_txn}
use android_source_learn.Binder.Commands.{
  Command, free_buffer, free_and_reply, Trace, reply_txn, binder_free_buffer, binder_send_reply,
}
use android_source_learn.Binder.Parse.{Service, Scan, blank, answer, run_handler}

-- The commands of a process are part of its state, and can be replaced.
pub record IsService {S : Type 0} (svc : Service S) : Type 0 where
  pub trace-with_trace : (t : Trace) (s : S) → svc.trace (svc.with_trace t s) ≡ t

-- The buffer that a command gives back to the driver.
abbrev pub frees : Command → Option ℕ
frees (free_buffer b) = some b
frees (free_and_reply b _) = some b
frees _ = none

abbrev pub is_reply : Command → Bool
is_reply (free_and_reply _ _) = true
is_reply _ = false

module _ {S : Type 0} (abi : Abi) (svc : Service S) where
  -- The call of the handler by `binder_parse`.
  abbrev pub called :
      (S → TransactionSecctx → BinderIo → Parcel → Option (S × Parcel × ℤ))
      → ℕ
      → TransactionSecctx
      → Scan S
      → Option (S × Parcel × ℤ)
  called func rdata txn sc =
      func sc.state txn (bio_init_from_txn blank txn.transaction_data)
        (record { io = bio_init blank rdata 256 4; mem = sc.mem })

  abbrev answer_command : TransactionSecctx → BinderIo → ℤ → Command
  answer_command txn reply res =
      if ltb 0 (bit_and txn.transaction_data.flags abi.tf_one_way)
      then free_buffer txn.transaction_data.buffer
      else free_and_reply txn.transaction_data.buffer (reply_txn abi reply res)

  answer-trace :
      (txn : TransactionSecctx) (reply : BinderIo) (res : ℤ) (s : S)
      → IsService svc
      → svc.trace (answer abi svc txn.transaction_data reply res s)
        ≡ answer_command txn reply res ∷ svc.trace s
  unfolding answer binder_free_buffer binder_send_reply
  answer-trace txn reply res s laws =
      elim (Bool-cases (ltb 0 (bit_and txn.transaction_data.flags abi.tf_one_way))) [
        | inl one_way ↦ rw one_way (laws.trace-with_trace _ s)
        | inr two_way ↦ rw two_way (laws.trace-with_trace _ s)
      ]

  -- After a handler that returns, one command more is written than the handler wrote: it gives the
  -- buffer of the transaction back, and it is a reply exactly if the transaction is not one-way.
  pub run_handler-answers :
      (func : S → TransactionSecctx → BinderIo → Parcel → Option (S × Parcel × ℤ)) (rdata : ℕ)
      (txn : TransactionSecctx) (sc : Scan S) (s : S) (reply : Parcel) (res : ℤ)
      → IsService svc
      → svc.handler ≡ some func
      → called func rdata txn sc ≡ some (s, reply, res)
      → (sc' : Scan S) × (c : Command) × (run_handler abi svc rdata txn sc ≡ some sc')
        × (svc.trace sc'.state ≡ c ∷ svc.trace s)
        × (frees c ≡ some txn.transaction_data.buffer)
        × (is_reply c ≡ not (ltb 0 (bit_and txn.transaction_data.flags abi.tf_one_way)))
  unfolding run_handler answer
  run_handler-answers func rdata txn sc s reply res laws has ran = (
    record sc { state = answer abi svc txn.transaction_data reply.io res s; mem = reply.mem },
    answer_command txn reply.io res,
    rw (has, run_handler) (rw ran),
    answer-trace txn reply.io res s laws,
    ground arith,
    ground arith,
  )
