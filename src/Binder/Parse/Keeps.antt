-- ===== src/Binder/Parse/Keeps.antt =====
-- What every handler and every death notification keeps, whole read buffers keep. `D` is what is
-- said where a handler aborts: ⊥ if none does.
use android_source_learn.Prelude.{
  ℕ, zero, suc, ◌+◌, ◌≡◌, refl, ◌≢◌, Bool, Option, none, some, List, [], ◌∷◌, ltb, Bool-cases,
  Option-cases, inl, inr, arith,
}
use android_source_learn.Prelude.Int.{ℤ}
use android_source_learn.Memory.{Memory, load}
use android_source_learn.Abi.{Abi, TransactionData, TransactionSecctx}
use android_source_learn.Bio.{BinderIo, Parcel}
use android_source_learn.Binder.Commands.{Trace, free_buffer, free_and_reply}
use android_source_learn.Binder.Parse.{
  Service, Scan, Round, go, fail, abort, Parsed, returned, aborted, out_of_fuel, answer, notify,
  after_handler, finish_transaction, run_handler, on_transaction, on_reply, parse_command, loop_on,
  parse_loop, binder_parse,
}
use android_source_learn.Binder.Parse.Bounds.{binder_parse-ends}

-- The buffers that a process has given back, newest first.
abbrev pub freed : Trace → List ℕ
freed [] = []
freed (free_buffer b ∷ bs) = b ∷ freed bs
freed (free_and_reply b _ ∷ bs) = b ∷ freed bs
freed (_ ∷ bs) = freed bs

-- The state after a death notification, or a crash.
abbrev pub Notified : {S : Type 0} → (S → Type 0) → Type 0 → Option S → Type 0
Notified P D none = D
Notified P D (some s) = P s

module _ {S : Type 0} (abi : Abi) (svc : Service S) (P : S → Type 0) (D : Type 0) where
  -- A handler returns, and after the answer to its transaction the state is in `P`.
  abbrev pub Answered : TransactionData → Option (S × Parcel × ℤ) → Type 0
  Answered txn none = D
  Answered txn (some (s, reply, res)) = P (answer abi svc txn reply.io res s)

  -- The two things that happen to the state of a process, under `P`.
  pub record IsKept : Type 0 where
    pub handled :
        (func : S → TransactionSecctx → BinderIo → Parcel → Option (S × Parcel × ℤ)) (s : S)
        (txn : TransactionSecctx) (msg : BinderIo) (reply : Parcel)
        → svc.handler ≡ some func
        → P s
        → Answered txn.transaction_data (func s txn msg reply)
    pub notified : (p : ℕ) (s : S) → P s → Notified P D (svc.on_death p s)

  abbrev RoundKept : Round S → Type 0
  RoundKept (go ptr sc) = P sc.state
  RoundKept (fail sc) = P sc.state
  RoundKept abort = D

  abbrev LoopKept : Parsed S → Type 0
  LoopKept (returned z sc) = P sc.state
  LoopKept aborted = D
  LoopKept out_of_fuel = Unit {0}

  -- A parse returns with a state in `P`.
  abbrev pub ParsedKept : Parsed S → Type 0
  ParsedKept (returned z sc) = P sc.state
  ParsedKept aborted = D
  ParsedKept out_of_fuel = ⊥

  finish-Kept :
      (ptr : ℕ) (txn : TransactionData) (sc : Scan S) (o : Option (S × Parcel × ℤ))
      → Answered txn o
      → RoundKept (after_handler abi svc ptr (finish_transaction abi svc sc txn o))
  finish-Kept ptr txn sc none a = a
  finish-Kept ptr txn sc (some (s, reply, res)) a = a

  notify-Kept :
      (ptr : ℕ) (sc : Scan S) (o : Option S)
      → Notified P D o
      → RoundKept (after_handler abi svc ptr (notify abi svc sc o))
  notify-Kept ptr sc none n = n
  notify-Kept ptr sc (some s) n = n

  module _ (k : IsKept) where
    run_handler-Kept :
        (ptr rdata : ℕ) (txn : TransactionSecctx) (sc : Scan S)
        → P sc.state
        → RoundKept (after_handler abi svc ptr (run_handler abi svc rdata txn sc))
    unfolding run_handler
    run_handler-Kept ptr rdata txn sc p = elim (Option-cases svc.handler) [
      | inl silent ↦ rw (silent, run_handler) p
      | inr (func, has) ↦
          rw (has, run_handler)
            (finish-Kept ptr txn.transaction_data sc _ (k.handled func sc.state txn _ _ has p))
    ]

    on_transaction-Kept :
        (rdata cmd ptr end : ℕ) (sc : Scan S)
        → P sc.state
        → RoundKept (on_transaction abi svc rdata cmd ptr end sc)
    unfolding on_transaction
    on_transaction-Kept rdata cmd ptr end sc p = ground (
      arith,
      run_handler-Kept (ptr + abi.sizeof_txn_secctx) rdata (abi.read_txn_secctx sc.mem ptr) sc p,
      run_handler-Kept (ptr + abi.sizeof_txn) rdata
          (record { transaction_data = abi.read_txn sc.mem ptr; secctx = 0 }) sc p,
    )

    on_reply-Kept :
        (ptr end : ℕ) (sc : Scan S) → P sc.state → RoundKept (on_reply abi svc ptr end sc)
    unfolding on_reply
    on_reply-Kept ptr end sc p = ground arith

    parse_command-Kept :
        (rdata cmd ptr end : ℕ) (sc : Scan S)
        → P sc.state
        → RoundKept (parse_command abi svc rdata cmd ptr end sc)
    unfolding parse_command
    parse_command-Kept rdata cmd ptr end sc p = ground (
      arith,
      on_transaction-Kept rdata cmd ptr end sc p,
      on_reply-Kept ptr end sc p,
      notify-Kept (ptr + 8) sc (svc.on_death (load 8 sc.mem ptr) sc.state)
          (k.notified (load 8 sc.mem ptr) sc.state p),
    )

    loop_on-Kept :
        (next : ℕ → Scan S → Parsed S) (r : Round S)
        → RoundKept r
        → ((ptr : ℕ) (sc : Scan S) → P sc.state → LoopKept (next ptr sc))
        → LoopKept (loop_on abi svc next r)
    loop_on-Kept next (go ptr sc) p h = h ptr sc p
    loop_on-Kept next (fail sc) p h = p
    loop_on-Kept next abort p h = p

    parse_loop-Kept :
        (fuel rdata ptr end : ℕ) (sc : Scan S)
        → P sc.state
        → LoopKept (parse_loop abi svc fuel rdata ptr end sc)
    unfolding parse_loop
    parse_loop-Kept zero rdata ptr end sc p = tt
    parse_loop-Kept (suc fuel) rdata ptr end sc p = elim (Bool-cases (ltb ptr end)) [
      | inl more ↦
          rw (more, parse_loop)
            (loop_on-Kept _ _ (parse_command-Kept rdata (load 4 sc.mem ptr) (ptr + 4) end sc p)
              (λ ptr' sc' p'. parse_loop-Kept fuel rdata ptr' end sc' p'))
      | inr done ↦ rw (done, parse_loop) p
    ]

    -- A whole read buffer is parsed: it returns, with a state in `P`.
    pub binder_parse-Kept :
        (rdata : ℕ) (wants_reply : Bool) (ptr size : ℕ) (s : S) (mem : Memory)
        → P s
        → ParsedKept (binder_parse abi svc rdata wants_reply ptr size s mem)
    unfolding binder_parse
    binder_parse-Kept rdata wants_reply ptr size s mem p =
        ended (binder_parse abi svc rdata wants_reply ptr size s mem)
          (binder_parse-ends abi svc rdata wants_reply ptr size s mem)
          (parse_loop-Kept (size + 1) rdata ptr (ptr + size) _ p)
      where
        ended : (r : Parsed S) → r ≢ out_of_fuel → LoopKept r → ParsedKept r
        ended (returned z sc) e h = h
        ended aborted e h = h
        ended out_of_fuel e h = e refl
