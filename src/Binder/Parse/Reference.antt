-- ===== src/Binder/Parse/Reference.antt =====
-- A plain interpreter of the commands in a read buffer, to which `binder_parse` of
-- Demos/BinderCDemo/binder4Server.c is compared, and where its handlers may write.
use android_source_learn.Prelude.{
  ℕ, ◌+◌, ◌≡◌, refl, ap, Option, none, some, List, [], ◌∷◌, Option-cases, inl, inr, arith,
}
use android_source_learn.Prelude.Int.{ℤ, minus_one}
use android_source_learn.Memory.{Memory}
use android_source_learn.Memory.Frame.{Outside}
use android_source_learn.Abi.{Abi, TransactionData, TransactionSecctx}
use android_source_learn.Bio.{BinderIo, Parcel}
use android_source_learn.Bio.Safety.{InBuffer, bio_init-InBuffer}
use android_source_learn.Binder.Parse.{
  Service, Scan, Parsed, returned, aborted, blank, notify, finish_transaction, run_handler,
}
use android_source_learn.Binder.Parse.Stream.{
  counted, noop, complete, reply, take_reply, take_reply-mem,
}
use android_source_learn.Binder.Parse.Incoming.{
  Incoming, sent, transaction, transaction_sec_ctx, dead_binder, reply_failed, reply_dead,
}

module _ {S : Type 0} (abi : Abi) (svc : Service S) where
  -- What a process does about one command: nothing, or its handler, or the call of its death; a
  -- reply or the lack of one sets the result.
  abbrev pub react : ℕ → Incoming → Scan S → Option (Scan S)
  react rdata (sent noop) sc = some sc
  react rdata (sent complete) sc = some sc
  react rdata (sent (reply txn)) sc = some (take_reply txn sc)
  react rdata (sent (counted c)) sc = some sc
  react rdata (transaction txn) sc =
      run_handler abi svc rdata (record { transaction_data = txn; secctx = 0 }) sc
  react rdata (transaction_sec_ctx txn) sc = run_handler abi svc rdata txn sc
  react rdata (dead_binder p) sc = notify abi svc sc (svc.on_death p sc.state)
  react rdata reply_failed sc = some (record sc { r = minus_one })
  react rdata reply_dead sc = some (record sc { r = minus_one })

  abbrev pub and_then : (Scan S → Option (Scan S)) → Option (Scan S) → Option (Scan S)
  and_then next none = none
  and_then next (some sc) = next sc

  -- The commands one after another, up to an `abort()`.
  abbrev pub run : ℕ → List Incoming → Scan S → Option (Scan S)
  run rdata [] sc = some sc
  run rdata (i ∷ is) sc = and_then (λ sc'. run rdata is sc') (react rdata i sc)

  abbrev pub parsed_as : Option (Scan S) → Parsed S
  parsed_as none = aborted
  parsed_as (some sc) = returned sc.r sc

  -- A handler that returns has changed no byte outside of the 256 bytes of its reply.
  abbrev pub Spared : ℕ → Memory → Option (S × Parcel × ℤ) → Type 0
  Spared lo mem none = Unit {0}
  Spared lo mem (some (s, out, res)) = (q : ℕ) → Outside lo 256 q → out.mem q ≡ mem q

  abbrev pub Spares : Type 0
  Spares =
      (func : S → TransactionSecctx → BinderIo → Parcel → Option (S × Parcel × ℤ)) (s : S)
      (txn : TransactionSecctx) (msg : BinderIo) (reply : Parcel) (lo : ℕ)
      → svc.handler ≡ some func
      → InBuffer lo (lo + 256) reply.io
      → Spared lo reply.mem (func s txn msg reply)

  abbrev pub SameBut : ℕ → Memory → Option (Scan S) → Type 0
  SameBut lo mem none = Unit {0}
  SameBut lo mem (some sc) = (q : ℕ) → Outside lo 256 q → sc.mem q ≡ mem q

  module _ (spares : Spares) where
    finish-SameBut :
        (lo : ℕ) (txn : TransactionData) (sc : Scan S) (o : Option (S × Parcel × ℤ))
        → Spared lo sc.mem o
        → SameBut lo sc.mem (finish_transaction abi svc sc txn o)
    finish-SameBut lo txn sc none h = tt
    finish-SameBut lo txn sc (some (s, out, res)) h = h

    run_handler-SameBut :
        (rdata : ℕ) (txn : TransactionSecctx) (sc : Scan S)
        → SameBut rdata sc.mem (run_handler abi svc rdata txn sc)
    unfolding run_handler
    run_handler-SameBut rdata txn sc = elim (Option-cases svc.handler) [
      | inl silent ↦ rw (silent, run_handler) (λ q o. refl)
      | inr (func, has) ↦
          rw (has, run_handler)
            (finish-SameBut rdata txn.transaction_data sc _ (
              spares func sc.state txn _ _ rdata has
                (bio_init-InBuffer blank rdata 256 4 (omega arith) (omega arith))))
    ]

    notify-SameBut : (lo : ℕ) (sc : Scan S) (o : Option S) → SameBut lo sc.mem (notify abi svc sc o)
    notify-SameBut lo sc none = tt
    notify-SameBut lo sc (some s) = λ q o. refl

    pub react-SameBut :
        (rdata : ℕ) (i : Incoming) (sc : Scan S) → SameBut rdata sc.mem (react rdata i sc)
    react-SameBut rdata (sent noop) sc = λ q o. refl
    react-SameBut rdata (sent complete) sc = λ q o. refl
    react-SameBut rdata (sent (reply txn)) sc =
        λ q o. ap (λ (m : Memory). m q) (take_reply-mem txn sc)
    react-SameBut rdata (sent (counted c)) sc = λ q o. refl
    react-SameBut rdata (transaction txn) sc =
        run_handler-SameBut rdata (record { transaction_data = txn; secctx = 0 }) sc
    react-SameBut rdata (transaction_sec_ctx txn) sc = run_handler-SameBut rdata txn sc
    react-SameBut rdata (dead_binder p) sc = notify-SameBut rdata sc (svc.on_death p sc.state)
    react-SameBut rdata reply_failed sc = λ q o. refl
    react-SameBut rdata reply_dead sc = λ q o. refl
