-- ===== src/Binder/Call/Verdicts.antt =====
-- Which commands end `binder_loop` of Demos/BinderCDemo/binder4Server.c, by the result that
-- `binder_parse` has after them.
use mathlib.Core.Path.{subst}
use android_source_learn.Prelude.{
  ℕ, zero, suc, ◌≡◌, refl, sym, ap, Bool, true, false, Option, none, some, List, [], ◌∷◌,
  Option-cases, inl, inr, arith,
}
use android_source_learn.Prelude.Int.{ℤ, pos, negsuc}
use android_source_learn.Memory.{Memory}
use android_source_learn.Abi.{Abi, TransactionData, TransactionSecctx}
use android_source_learn.Bio.{Parcel}
use android_source_learn.Binder.Parse.{
  notify, Service, Scan, returned, finish_transaction, run_handler,
}
use android_source_learn.Binder.Parse.Stream.{counted, noop, complete, reply, take_reply}
use android_source_learn.Binder.Parse.Incoming.{
  Incoming, sent, transaction, transaction_sec_ctx, dead_binder, reply_failed, reply_dead,
}
use android_source_learn.Binder.Parse.Reference.{run, and_then, parsed_as}
use android_source_learn.Binder.Call.{Looped, left_loop, after_round}
use android_source_learn.Binder.Call.Deliveries.{continues, after_run}

module _ {S : Type 0} (abi : Abi) (svc : Service S) (rdata : ℕ) where
  abbrev pub IsEnding : ℤ → Type 0
  IsEnding (pos zero) = Unit {0}
  IsEnding (pos (suc n)) = ⊥
  IsEnding (negsuc n) = Unit {0}

  -- The result after the commands: that before them, or one that ends the loop.
  abbrev pub Judged : Bool → ℤ → Option (Scan S) → Type 0
  Judged b z none = Unit {0}
  Judged true z (some sc) = sc.r ≡ z
  Judged false z (some sc) = IsEnding sc.r

  Judged-false :
      (b : Bool) (z : ℤ) (o : Option (Scan S)) → IsEnding z → Judged b z o → Judged false z o
  Judged-false b z none e j = tt
  Judged-false true z (some sc) e j = subst IsEnding (sym j) e
  Judged-false false z (some sc) e j = j

  finish-Judged :
      (txn : TransactionData) (sc : Scan S) (o : Option (S × Parcel × ℤ))
      → Judged true sc.r (finish_transaction abi svc sc txn o)
  finish-Judged txn sc none = tt
  finish-Judged txn sc (some (s, out, res)) = refl

  run_handler-Judged :
      (txn : TransactionSecctx) (sc : Scan S) → Judged true sc.r (run_handler abi svc rdata txn sc)
  unfolding run_handler
  run_handler-Judged txn sc = elim (Option-cases svc.handler) [
    | inl silent ↦ rw (silent, run_handler) refl
    | inr (func, has) ↦ rw (has, run_handler) (finish-Judged txn.transaction_data sc _)
  ]

  notify-Judged : (sc : Scan S) (o : Option S) → Judged true sc.r (notify abi svc sc o)
  notify-Judged sc none = tt
  notify-Judged sc (some s) = refl

  handled-Judged :
      (is : List Incoming) (z : ℤ) (o : Option (Scan S))
      → Judged true z o
      → ((sc : Scan S) → Judged (continues is) sc.r (run abi svc rdata is sc))
      → Judged (continues is) z (and_then abi svc (λ sc. run abi svc rdata is sc) o)
  handled-Judged is z none j h = tt
  handled-Judged is z (some sc) j h =
      subst (λ z'. Judged (continues is) z' (run abi svc rdata is sc)) j (h sc)

  take_reply-r : (txn : TransactionData) (sc : Scan S) → (take_reply txn sc).r ≡ pos 0
  take_reply-r txn sc = ground arith

  pub run-Judged :
      (is : List Incoming) (sc : Scan S) → Judged (continues is) sc.r (run abi svc rdata is sc)
  run-Judged [] sc = refl
  run-Judged (sent noop ∷ is) sc = run-Judged is sc
  run-Judged (sent complete ∷ is) sc = run-Judged is sc
  run-Judged (sent (reply txn) ∷ is) sc =
      Judged-false (continues is) _ _ (subst IsEnding (sym (take_reply-r txn sc)) tt)
        (run-Judged is (take_reply txn sc))
  run-Judged (sent (counted c) ∷ is) sc = run-Judged is sc
  run-Judged (transaction txn ∷ is) sc =
      handled-Judged is sc.r _
        (run_handler-Judged (record { transaction_data = txn; secctx = 0 }) sc)
        (λ sc'. run-Judged is sc')
  run-Judged (transaction_sec_ctx txn ∷ is) sc =
      handled-Judged is sc.r _ (run_handler-Judged txn sc) (λ sc'. run-Judged is sc')
  run-Judged (dead_binder p ∷ is) sc =
      handled-Judged is sc.r _ (notify-Judged sc (svc.on_death p sc.state))
        (λ sc'. run-Judged is sc')
  run-Judged (reply_failed ∷ is) sc = Judged-false (continues is) _ _ tt (run-Judged is _)
  run-Judged (reply_dead ∷ is) sc = Judged-false (continues is) _ _ tt (run-Judged is _)

  -- What the loop does with the result of a parse, by the commands.
  pub after_round-parsed_as :
      (readbuf : ℕ) (b : Bool) (next : S → Memory → Looped S) (o : Option (Scan S))
      → Judged b (pos 1) o
      → after_round abi svc rdata readbuf next (parsed_as abi svc o)
        ≡ after_run abi svc rdata b next o
  after_round-parsed_as readbuf b next none j = refl
  after_round-parsed_as readbuf true next (some sc) j =
      ap (λ (z : ℤ). after_round abi svc rdata readbuf next (returned z sc)) j
  after_round-parsed_as readbuf false next (some sc) j = ends (sc.r) j
    where
      ends :
          (z : ℤ)
          → IsEnding z
          → after_round abi svc rdata readbuf next (returned z sc) ≡ left_loop sc.state sc.mem
      ends (pos zero) e = refl
      ends (pos (suc n)) e = absurd e
      ends (negsuc n) e = refl
