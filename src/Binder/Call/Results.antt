-- ===== src/Binder/Call/Results.antt =====
-- What `binder_call` leaves in its reply.
use android_source_learn.Prelude.{
  ℕ, zero, suc, ◌≡◌, refl, ◌⊎◌, inl, inr, Option, none, some, List, [], ◌∷◌, Bool-cases,
}
use android_source_learn.Prelude.Int.{ℤ, pos, negsuc, minus_one}
use android_source_learn.Memory.{Memory}
use android_source_learn.Abi.{Abi, TransactionData}
use android_source_learn.Bio.{BinderIo, bio_init_from_txn, no_flags}
use android_source_learn.Binder.Commands.{Trace, free_buffer, binder_done}
use android_source_learn.Binder.Parse.{Service, Parsed, returned, aborted, out_of_fuel, blank}
use android_source_learn.Binder.Parse.Replies.{Got, ZeroGot, binder_parse-ZeroGot}
use android_source_learn.Binder.Call.{
  Response, CallTxn, Called, finished, waiting, died, failed_reply, received_or, no_handler,
  after_parse, call_loop, binder_call,
}

-- The result of a call is 0, with a reply that was set from a transaction, or -1, with the empty
-- reply that is marked as failed.
abbrev pub IsAnswered : {S : Type 0} → Called S → Type 0
IsAnswered (finished z reply s mem) =
    ((z ≡ pos 0) × ((txn : TransactionData) × (reply ≡ bio_init_from_txn blank txn)))
    ⊎ ((z ≡ minus_one) × (reply ≡ failed_reply))
IsAnswered (waiting s mem) = Unit {0}
IsAnswered died = Unit {0}

received-Got :
    (d : BinderIo) (o : Option BinderIo)
    → Got o
    → (txn : TransactionData) × (received_or d o ≡ bio_init_from_txn blank txn)
received-Got d none g = absurd g
received-Got d (some io) g = g

module _ {S : Type 0} (abi : Abi) (svc : Service S) (rdata readbuf : ℕ) where
  after_parse-IsAnswered :
      (next : BinderIo → S → Memory → Called S) (reply : BinderIo) (p : Parsed S)
      → ZeroGot p
      → ((reply' : BinderIo) (s : S) (mem : Memory) → IsAnswered (next reply' s mem))
      → IsAnswered (after_parse abi svc rdata readbuf next reply p)
  after_parse-IsAnswered next reply (returned (pos zero) sc) got h =
      inl (refl, received-Got reply sc.received (got refl))
  after_parse-IsAnswered next reply (returned (pos (suc n)) sc) got h = h _ _ _
  after_parse-IsAnswered next reply (returned (negsuc n) sc) got h = inr (refl, refl)
  after_parse-IsAnswered next reply aborted got h = tt
  after_parse-IsAnswered next reply out_of_fuel got h = tt

  call_loop-IsAnswered :
      (responses : List Response) (reply : BinderIo) (s : S) (mem : Memory)
      → IsAnswered (call_loop abi svc rdata readbuf responses reply s mem)
  unfolding call_loop
  call_loop-IsAnswered [] reply s mem = tt
  call_loop-IsAnswered (resp ∷ rest) reply s mem = elim (Bool-cases resp.failed) [
    | inl bad ↦ rw bad (inr (refl, refl))
    | inr good ↦ rw good (
        after_parse-IsAnswered _ reply _
          (binder_parse-ZeroGot abi (no_handler abi svc rdata readbuf) rdata readbuf
            resp.read_consumed s resp.mem)
          (λ reply' s' mem'. call_loop-IsAnswered rest reply' s' mem'))
  ]

  -- Whatever the driver answers, a `binder_call` that ends returns 0 with a reply that was set from
  -- a transaction that it received, or -1 with the empty reply that is marked as failed.
  pub binder_call-IsAnswered :
      (driver : CallTxn → Memory → List Response) (msg : BinderIo) (target code : ℕ) (s : S)
      (mem : Memory)
      → IsAnswered (binder_call abi svc rdata readbuf driver msg target code s mem)
  unfolding binder_call
  binder_call-IsAnswered driver msg target code s mem = elim (Bool-cases msg.flags.overflow) [
    | inl over ↦ rw over (inr (refl, refl))
    | inr fits ↦ rw fits (call_loop-IsAnswered _ blank s mem)
  ]

-- `binder_done` after a call gives the received buffer back exactly if the call returned 0: then it
-- writes one BC_FREE_BUFFER for the buffer of the reply, and after a failure it does nothing.
pub binder_done-IsAnswered :
    {S : Type 0} (z : ℤ) (reply : BinderIo) (s : S) (mem : Memory) (bs : Trace)
    → IsAnswered (finished z reply s mem)
    → ((z ≡ pos 0)
        × (binder_done reply bs
            ≡ (record reply { flags = no_flags }, free_buffer reply.data0 ∷ bs)))
      ⊎ ((z ≡ minus_one) × (binder_done reply bs ≡ (reply, bs)))
unfolding binder_done bio_init_from_txn
binder_done-IsAnswered z reply s mem bs (inl (ok, (txn, e))) = inl (ok, rw e)
binder_done-IsAnswered z reply s mem bs (inr (bad, e)) = inr (bad, rw e)
