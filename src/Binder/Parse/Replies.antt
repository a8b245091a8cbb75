-- ===== src/Binder/Parse/Replies.antt =====
-- A result of 0 of `binder_parse` comes with a reply, if the caller asked for one.
use android_source_learn.Prelude.{
  ℕ, zero, suc, ◌+◌, ◌≡◌, refl, ◌⊎◌, inl, inr, true, Option, none, some, ltb, ◌==◌, Bool-cases,
  Option-cases, arith,
}
use mathlib.Core.Path.{subst}
use android_source_learn.Prelude.Int.{ℤ, pos, minus_one}
use android_source_learn.Memory.{Memory, load}
use android_source_learn.Abi.{Abi, TransactionData, TransactionSecctx}
use android_source_learn.Bio.{BinderIo, Parcel, bio_init_from_txn}
use android_source_learn.Binder.Parse.{
  notify, Service, Scan, Round, go, fail, abort, Parsed, returned, aborted, out_of_fuel, blank,
  left, after_handler, finish_transaction, run_handler, on_transaction, on_reply, parse_command,
  loop_on, parse_loop, binder_parse,
}

-- The `binder_io` of a reply that was received.
abbrev pub Got : Option BinderIo → Type 0
Got none = ⊥
Got (some io) = (txn : TransactionData) × (io ≡ bio_init_from_txn blank txn)

module _ {S : Type 0} where
  -- A reply is still wanted or there, and it is there if the result would be 0.
  record Awaits (sc : Scan S) : Type 0 where
    open_or_got : (sc.wants_reply ≡ true) ⊎ Got sc.received
    zero_got : sc.r ≡ pos 0 → Got sc.received

  abbrev AwaitsNext : Round S → Type 0
  AwaitsNext (go ptr sc) = Awaits sc
  AwaitsNext (fail sc) = Unit {0}
  AwaitsNext abort = Unit {0}

  -- A parse that returns 0 has received a reply.
  abbrev pub ZeroGot : Parsed S → Type 0
  ZeroGot (returned z sc) = z ≡ pos 0 → Got sc.received
  ZeroGot aborted = Unit {0}
  ZeroGot out_of_fuel = Unit {0}

  Awaits-same :
      {sc sc' : Scan S}
      → sc'.wants_reply ≡ sc.wants_reply
      → sc'.received ≡ sc.received
      → sc'.r ≡ sc.r
      → Awaits sc
      → Awaits sc'
  Awaits-same w g r a = record {
    open_or_got = rw (w, g) a.open_or_got;
    zero_got = rw (g, r) a.zero_got;
  }

module _ {S : Type 0} (abi : Abi) (svc : Service S) where
  finish-Awaits :
      (ptr : ℕ) (txn : TransactionData) (sc : Scan S) (o : Option (S × Parcel × ℤ))
      → Awaits sc
      → AwaitsNext (after_handler abi svc ptr (finish_transaction abi svc sc txn o))
  finish-Awaits ptr txn sc none a = tt
  finish-Awaits ptr txn sc (some (s, reply, res)) a = Awaits-same refl refl refl a

  notify-Awaits :
      (ptr : ℕ) (sc : Scan S) (o : Option S)
      → Awaits sc
      → AwaitsNext (after_handler abi svc ptr (notify abi svc sc o))
  notify-Awaits ptr sc none a = tt
  notify-Awaits ptr sc (some s) a = Awaits-same refl refl refl a

  run_handler-Awaits :
      (ptr rdata : ℕ) (txn : TransactionSecctx) (sc : Scan S)
      → Awaits sc
      → AwaitsNext (after_handler abi svc ptr (run_handler abi svc rdata txn sc))
  unfolding run_handler
  run_handler-Awaits ptr rdata txn sc a = elim (Option-cases (svc.handler)) [
    | inl no_func ↦ rw (no_func, run_handler) a
    | inr (func, has) ↦ rw (has, run_handler) (finish-Awaits ptr txn.transaction_data sc _ a)
  ]

  on_transaction-Awaits :
      (rdata cmd ptr end : ℕ) (sc : Scan S)
      → Awaits sc
      → AwaitsNext (on_transaction abi svc rdata cmd ptr end sc)
  unfolding on_transaction
  on_transaction-Awaits rdata cmd ptr end sc a =
      elim (Bool-cases (cmd == abi.br_transaction_sec_ctx)) [
        | inl sec ↦ rw sec (elim (Bool-cases (ltb (left abi svc end ptr) abi.sizeof_txn_secctx)) [
          | inl small ↦ rw small tt
          | inr enough ↦ rw enough (run_handler-Awaits _ rdata _ sc a)
        ])
        | inr plain ↦ rw plain (elim (Bool-cases (ltb (left abi svc end ptr) abi.sizeof_txn)) [
          | inl small ↦ rw small tt
          | inr enough ↦ rw enough (run_handler-Awaits _ rdata _ sc a)
        ])
      ]

  on_reply-Awaits :
      (ptr end : ℕ) (sc : Scan S) → Awaits sc → AwaitsNext (on_reply abi svc ptr end sc)
  unfolding on_reply
  on_reply-Awaits ptr end sc a = elim (Bool-cases (ltb (left abi svc end ptr) abi.sizeof_txn)) [
    | inl small ↦ rw small tt
    | inr enough ↦ rw enough (elim (Bool-cases sc.wants_reply) [
      | inl wants ↦ rw wants (record {
        open_or_got = inr (abi.read_txn sc.mem ptr, refl);
        zero_got = λ z. (abi.read_txn sc.mem ptr, refl);
      })
      | inr has ↦
          let got : Got sc.received = elim (a.open_or_got) [ inl o ↦ absurd (cc) | inr g ↦ g ] in
          rw has (record { open_or_got = inr got; zero_got = λ z. got })
    ])
  ]

  parse_command-Awaits :
      (rdata cmd ptr end : ℕ) (sc : Scan S)
      → Awaits sc
      → AwaitsNext (parse_command abi svc rdata cmd ptr end sc)
  unfolding parse_command
  parse_command-Awaits rdata cmd ptr end sc a =
      let handled = on_transaction-Awaits rdata cmd ptr end sc a in
      let replied = on_reply-Awaits ptr end sc a in
      let died = notify-Awaits (ptr + 8) sc (svc.on_death (load 8 sc.mem ptr) sc.state) a in
      let failed : Awaits (record sc { r = minus_one }) = record {
        open_or_got = a.open_or_got;
        zero_got = λ z. absurd (ground arith);
      } in
      ground arith

  loop_on-ZeroGot :
      (next : ℕ → Scan S → Parsed S) (r : Round S)
      → AwaitsNext r
      → ((ptr : ℕ) (sc : Scan S) → Awaits sc → ZeroGot (next ptr sc))
      → ZeroGot (loop_on abi svc next r)
  loop_on-ZeroGot next (go ptr sc) a h = h ptr sc a
  loop_on-ZeroGot next (fail sc) a h = λ z. absurd (ground arith)
  loop_on-ZeroGot next abort a h = tt

  parse_loop-ZeroGot :
      (fuel rdata ptr end : ℕ) (sc : Scan S)
      → Awaits sc
      → ZeroGot (parse_loop abi svc fuel rdata ptr end sc)
  unfolding parse_loop
  parse_loop-ZeroGot zero rdata ptr end sc a = tt
  parse_loop-ZeroGot (suc fuel) rdata ptr end sc a = elim (Bool-cases (ltb ptr end)) [
    | inl more ↦
        rw (more, parse_loop)
          (loop_on-ZeroGot _ _ (parse_command-Awaits rdata (load 4 sc.mem ptr) (ptr + 4) end sc a)
            (λ ptr' sc' a'. parse_loop-ZeroGot fuel rdata ptr' end sc' a'))
    | inr done ↦ rw (done, parse_loop) a.zero_got
  ]

  -- The result of a `binder_parse` that was given a `bio`.
  pub binder_parse-ZeroGot :
      (rdata ptr size : ℕ) (s : S) (mem : Memory)
      → ZeroGot (binder_parse abi svc rdata true ptr size s mem)
  unfolding binder_parse
  binder_parse-ZeroGot rdata ptr size s mem =
      parse_loop-ZeroGot (size + 1) rdata ptr (ptr + size) _
        (record { open_or_got = inl refl; zero_got = λ z. absurd (ground arith) })

  -- A `binder_parse` that was given a `bio` and returns 0 has set it from a transaction.
  pub binder_parse-Got :
      (rdata ptr size : ℕ) (s : S) (mem : Memory) (sc : Scan S)
      → binder_parse abi svc rdata true ptr size s mem ≡ returned (pos 0) sc
      → Got sc.received
  binder_parse-Got rdata ptr size s mem sc e =
      subst ZeroGot e (binder_parse-ZeroGot rdata ptr size s mem) refl
