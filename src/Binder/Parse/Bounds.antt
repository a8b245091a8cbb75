-- ===== src/Binder/Parse/Bounds.antt =====
-- `binder_parse` ends, and a result of 0 comes with a reply.
use android_source_learn.Prelude.{
  ℕ, zero, suc, ◌+◌, ◌-◌, ◌≤◌, ◌<◌, ◌≢◌, inl, inr, Bool, Option, none, some, ltb, ◌==◌, Bool-cases,
  arith,
}
use android_source_learn.Memory.{Memory, load}
use android_source_learn.Abi.{Abi}
use android_source_learn.Binder.Parse.{
  Service, Scan, Round, go, fail, abort, Parsed, out_of_fuel, after_handler, left, loop_on,
  on_transaction, on_reply, parse_command, parse_loop, binder_parse,
}

module _ {S : Type 0} where
  -- A round that goes on does not go back.
  abbrev Forward : ℕ → Round S → Type 0
  Forward ptr (go ptr' sc) = ptr ≤ ptr'
  Forward ptr (fail sc) = Unit {0}
  Forward ptr abort = Unit {0}

module _ {S : Type 0} (abi : Abi) (svc : Service S) where
  after_handler-Forward :
      (ptr n : ℕ) (o : Option (Scan S)) → Forward ptr (after_handler abi svc (ptr + n) o)
  after_handler-Forward ptr n none = tt
  after_handler-Forward ptr n (some sc) = omega arith

  on_transaction-Forward :
      (rdata cmd ptr end : ℕ) (sc : Scan S)
      → Forward ptr (on_transaction abi svc rdata cmd ptr end sc)
  unfolding on_transaction
  on_transaction-Forward rdata cmd ptr end sc =
      elim (Bool-cases (cmd == abi.br_transaction_sec_ctx)) [
        | inl sec ↦ rw sec (elim (Bool-cases (ltb (left abi svc end ptr) abi.sizeof_txn_secctx)) [
          | inl small ↦ rw small tt
          | inr enough ↦ rw enough (after_handler-Forward ptr abi.sizeof_txn_secctx _)
        ])
        | inr plain ↦ rw plain (elim (Bool-cases (ltb (left abi svc end ptr) abi.sizeof_txn)) [
          | inl small ↦ rw small tt
          | inr enough ↦ rw enough (after_handler-Forward ptr abi.sizeof_txn _)
        ])
      ]

  parse_command-Forward :
      (rdata cmd ptr end : ℕ) (sc : Scan S)
      → Forward ptr (parse_command abi svc rdata cmd ptr end sc)
  unfolding parse_command on_reply
  parse_command-Forward rdata cmd ptr end sc =
      ground (arith, on_transaction-Forward rdata cmd ptr end sc)

  loop_on-ends :
      (fuel ptr end : ℕ) (next : ℕ → Scan S → Parsed S) (r : Round S)
      → Forward ptr r
      → ((ptr' : ℕ) (sc : Scan S) → ptr ≤ ptr' → next ptr' sc ≢ out_of_fuel)
      → loop_on abi svc next r ≢ out_of_fuel
  loop_on-ends fuel ptr end next (go ptr' sc) f h = h ptr' sc f
  loop_on-ends fuel ptr end next (fail sc) f h = λ e. cc
  loop_on-ends fuel ptr end next abort f h = λ e. cc

  parse_loop-ends :
      (fuel rdata ptr end : ℕ) (sc : Scan S)
      → end - ptr < fuel
      → parse_loop abi svc fuel rdata ptr end sc ≢ out_of_fuel
  unfolding parse_loop
  parse_loop-ends zero rdata ptr end sc enough = absurd (omega arith)
  parse_loop-ends (suc fuel) rdata ptr end sc enough = elim (Bool-cases (ltb ptr end)) [
    | inl more ↦
        rw (more, parse_loop)
          (loop_on-ends fuel (ptr + 4) end _ _
            (parse_command-Forward rdata (load 4 sc.mem ptr) (ptr + 4) end sc)
            (λ ptr' sc' forward. parse_loop-ends fuel rdata ptr' end sc' (ground arith)))
    | inr done ↦ rw (done, parse_loop) (λ e. cc)
  ]

  -- `binder_parse` ends on every read buffer: it returns or a handler aborts.
  pub binder_parse-ends :
      (rdata : ℕ) (wants_reply : Bool) (ptr size : ℕ) (s : S) (mem : Memory)
      → binder_parse abi svc rdata wants_reply ptr size s mem ≢ out_of_fuel
  unfolding binder_parse
  binder_parse-ends rdata wants_reply ptr size s mem =
      parse_loop-ends (size + 1) rdata ptr (ptr + size) _ (omega arith)
