-- ===== src/Binder/Parse/Dispatch.antt =====
-- One round of the loop of `binder_parse` in Demos/BinderCDemo/binder4Server.c, for each command.
use android_source_learn.Prelude.{ℕ, ◌+◌, ◌^◌, ◌≤◌, ◌<◌, ◌≡◌, refl, ap, false, ltb, arith}
use android_source_learn.Prelude.Int.{minus_one}
use android_source_learn.Memory.{load}
use android_source_learn.Abi.{Abi, TransactionData, TransactionSecctx}
use android_source_learn.Binder.Parse.{
  Service, Scan, go, left, after_handler, notify, run_handler, on_transaction, parse_command,
}
use android_source_learn.Binder.Parse.Stream.{
  noop, complete, counted, reply, parse_command-counted, take_reply, on_reply-room,
  parse_command-reply, parse_command-noop, parse_command_complete,
}
use android_source_learn.Binder.Parse.Incoming.{
  Incoming, sent, transaction, transaction_sec_ctx, dead_binder, reply_failed, reply_dead,
  AreAllCodes, incoming_size, HoldsIncoming,
}
use android_source_learn.Binder.Parse.Reference.{react}

module _ {S : Type 0} (abi : Abi) (svc : Service S) (codes : AreAllCodes abi) where
  on_transaction-plain :
      (rdata ptr end : ℕ) (txn : TransactionData) (sc : Scan S)
      → ptr + abi.sizeof_txn ≤ end
      → end < 2 ^ 64
      → abi.read_txn sc.mem ptr ≡ txn
      → on_transaction abi svc rdata abi.br_transaction ptr end sc
        ≡ after_handler abi svc
            (ptr + abi.sizeof_txn)
            (run_handler abi svc rdata (record { transaction_data = txn; secctx = 0 }) sc)
  unfolding on_transaction
  on_transaction-plain rdata ptr end txn sc room small held =
      let enough : ltb (left abi svc end ptr) abi.sizeof_txn ≡ false = ground arith in
      let other = codes.plain.0 in rw (enough, held, on_transaction) (ground arith)

  on_transaction-sec_ctx :
      (rdata ptr end : ℕ) (txn : TransactionSecctx) (sc : Scan S)
      → ptr + abi.sizeof_txn_secctx ≤ end
      → end < 2 ^ 64
      → abi.read_txn_secctx sc.mem ptr ≡ txn
      → on_transaction abi svc rdata abi.br_transaction_sec_ctx ptr end sc
        ≡ after_handler abi svc (ptr + abi.sizeof_txn_secctx) (run_handler abi svc rdata txn sc)
  unfolding on_transaction
  on_transaction-sec_ctx rdata ptr end txn sc room small held =
      let enough : ltb (left abi svc end ptr) abi.sizeof_txn_secctx ≡ false = ground arith in
      rw (enough, held, on_transaction) (ground arith)

  parse_command-plain :
      (rdata ptr end : ℕ) (sc : Scan S)
      → parse_command abi svc rdata abi.br_transaction ptr end sc
        ≡ on_transaction abi svc rdata abi.br_transaction ptr end sc
  unfolding parse_command
  parse_command-plain rdata ptr end sc = ground (arith, codes.plain)

  parse_command-sec_ctx :
      (rdata ptr end : ℕ) (sc : Scan S)
      → parse_command abi svc rdata abi.br_transaction_sec_ctx ptr end sc
        ≡ on_transaction abi svc rdata abi.br_transaction_sec_ctx ptr end sc
  unfolding parse_command
  parse_command-sec_ctx rdata ptr end sc = ground (arith, codes.sec_ctx)

  parse_command-dead :
      (rdata ptr end : ℕ) (sc : Scan S)
      → parse_command abi svc rdata abi.br_dead_binder ptr end sc
        ≡ after_handler abi svc
            (ptr + 8)
            (notify abi svc sc (svc.on_death (load 8 sc.mem ptr) sc.state))
  unfolding parse_command
  parse_command-dead rdata ptr end sc = ground (arith, codes.dead)

  parse_command-failed :
      (rdata ptr end : ℕ) (sc : Scan S)
      → parse_command abi svc rdata abi.br_failed_reply ptr end sc
        ≡ go ptr (record sc { r = minus_one })
  unfolding parse_command
  parse_command-failed rdata ptr end sc = ground (arith, codes.failed)

  parse_command-lost :
      (rdata ptr end : ℕ) (sc : Scan S)
      → parse_command abi svc rdata abi.br_dead_reply ptr end sc
        ≡ go ptr (record sc { r = minus_one })
  unfolding parse_command
  parse_command-lost rdata ptr end sc = ground (arith, codes.lost)

  -- The round of a command that lies in the buffer with its payload.
  pub step :
      (i : Incoming) (rdata ptr end : ℕ) (sc : Scan S)
      → HoldsIncoming abi sc.mem ptr i
      → ptr + incoming_size abi i ≤ end
      → end < 2 ^ 64
      → parse_command abi svc rdata (load 4 sc.mem ptr) (ptr + 4) end sc
        ≡ after_handler abi svc (ptr + incoming_size abi i) (react abi svc rdata i sc)
  step (sent noop) rdata ptr end sc h room small =
      rw (h, parse_command-noop abi svc codes.replies rdata (ptr + 4) end sc) refl
  step (sent complete) rdata ptr end sc h room small =
      rw (h, parse_command_complete abi svc codes.replies rdata (ptr + 4) end sc) refl
  step (sent (reply txn)) rdata ptr end sc (h, held) room small =
      rw
        (
          h,
          parse_command-reply abi svc codes.replies rdata (ptr + 4) end sc,
          on_reply-room abi svc codes.replies (ptr + 4) end txn sc (omega arith) small held,
        )
        (ap (λ (p : ℕ). go p (take_reply txn sc)) (omega arith))
  step (sent (counted c)) rdata ptr end sc h room small =
      rw (h, parse_command-counted abi svc codes.replies c rdata (ptr + 4) end sc)
        (ap (λ (p : ℕ). go p sc) (omega arith))
  step (transaction txn) rdata ptr end sc (h, held) room small =
      rw
        (
          h,
          parse_command-plain rdata (ptr + 4) end sc,
          on_transaction-plain rdata (ptr + 4) end txn sc (omega arith) small held,
        )
        (ap (λ (p : ℕ). after_handler abi svc p (react abi svc rdata (transaction txn) sc))
          (omega arith))
  step (transaction_sec_ctx txn) rdata ptr end sc (h, held) room small =
      rw
        (
          h,
          parse_command-sec_ctx rdata (ptr + 4) end sc,
          on_transaction-sec_ctx rdata (ptr + 4) end txn sc (omega arith) small held,
        )
        (ap (λ (p : ℕ). after_handler abi svc p (react abi svc rdata (transaction_sec_ctx txn) sc))
          (omega arith))
  step (dead_binder d) rdata ptr end sc (h, held) room small =
      rw (h, parse_command-dead rdata (ptr + 4) end sc, held)
        (ap (λ (p : ℕ). after_handler abi svc p (react abi svc rdata (dead_binder d) sc))
          (omega arith))
  step reply_failed rdata ptr end sc h room small =
      rw (h, parse_command-failed rdata (ptr + 4) end sc) refl
  step reply_dead rdata ptr end sc h room small =
      rw (h, parse_command-lost rdata (ptr + 4) end sc) refl

  pub incoming_size_bound : (i : Incoming) → 4 ≤ incoming_size abi i
  incoming_size_bound (sent noop) = omega arith
  incoming_size_bound (sent complete) = omega arith
  incoming_size_bound (sent (reply txn)) = omega arith
  incoming_size_bound (sent (counted c)) = omega arith
  incoming_size_bound (transaction txn) = omega arith
  incoming_size_bound (transaction_sec_ctx txn) = omega arith
  incoming_size_bound (dead_binder p) = omega arith
  incoming_size_bound reply_failed = omega arith
  incoming_size_bound reply_dead = omega arith
