-- ===== src/ServiceManager/Main/Handling.antt =====
-- The service manager as a service whose state is followed through its transactions.
use mathlib.Core.Path.{subst}
use mathlib.Core.Option.{some-injective}
use Prim.Native.Nat.{bit_and}
use android_source_learn.Prelude.{
  ℕ, ◌+◌, ◌≡◌, refl, ap, ◌∙◌, Option, none, some, List, ◌∷◌, ltb, Bool-cases, inl, inr,
}
use android_source_learn.Prelude.Int.{ℤ}
use android_source_learn.Abi.{Abi, TransactionData, TransactionSecctx, IsObjectLayout}
use android_source_learn.Bio.{BinderIo, Parcel}
use android_source_learn.Binder.Parse.{answer}
use android_source_learn.Binder.Parse.Keeps.{Answered}
use android_source_learn.Binder.Parse.Reference.{Spared, Spares}
use android_source_learn.Binder.Call.Handled.{AnsweredIn, IsFollowed}
use android_source_learn.ServiceManager.Access.{System}
use android_source_learn.ServiceManager.Handler.{Outcome}
use android_source_learn.ServiceManager.Handler.Changes.{After}
use android_source_learn.ServiceManager.Handler.Ignored.{
  replied-Ignores, svcinfo_death-Ignores, svcmgr_handler-Ignores,
}
use android_source_learn.Binder.Parse.Replied.{replied, awaiting, buffers_of, replied-answer}
use android_source_learn.ServiceManager.Handler.Staying.{StaysIn, svcmgr_handler-StaysIn}
use android_source_learn.ServiceManager.Main.{
  Environment, Process, answers_at, after_handler, handle, manager_service,
}
use android_source_learn.ServiceManager.Main.Serving.{IsMalloc, IsServing, manager_service-IsKept}

module _ (abi : Abi) where
  -- The manager serves, has handled these transactions and no others, and has replied to those that
  -- are not one-way and to no others, once each and in order.
  pub record HasHandled (past : List TransactionData) (p : Process) : Type 0 where
    pub serving : IsServing p
    pub handled : p.handled ≡ buffers_of past
    pub answered : replied p.manager.written ≡ buffers_of (awaiting abi past)

module _ (sys : System) (abi : Abi) (env : Environment) where
  after_handler-Spared :
      (lo buffer : ℕ) (handled : List ℕ) (out : Parcel) (o : Outcome)
      → StaysIn lo (lo + 256) out o
      → Spared abi (manager_service sys abi env) lo out.mem (after_handler buffer handled o)
  after_handler-Spared lo buffer handled out none s = tt
  after_handler-Spared lo buffer handled out (some (m, out', z)) s = s.same

  pub manager_service-Spares : IsObjectLayout abi → Spares abi (manager_service sys abi env)
  unfolding handle
  manager_service-Spares layout func p txn msg out lo has v =
      subst
        (λ (f : Process → TransactionSecctx → BinderIo → Parcel → Option (Process × Parcel × ℤ)).
          Spared abi (manager_service sys abi env) lo out.mem (f p txn msg out))
        (some-injective _ _ has)
        (after_handler-Spared lo txn.transaction_data.buffer p.handled out _
          (svcmgr_handler-StaysIn sys abi layout (answers_at env p) p.manager txn msg out v))

  answer-handled :
      (txn : TransactionData) (io : BinderIo) (res : ℤ) (p : Process)
      → (answer abi (manager_service sys abi env) txn io res p).handled ≡ p.handled
  unfolding answer
  answer-handled txn io res p = elim (Bool-cases (ltb 0 (bit_and txn.flags abi.tf_one_way))) [
    | inl one_way ↦ rw one_way refl
    | inr two_way ↦ rw two_way refl
  ]

  after_handler-AnsweredIn :
      (past : List TransactionData) (txn : TransactionData) (p : Process) (o : Outcome)
      → HasHandled abi past p
      → After (λ m'. replied m'.written ≡ replied p.manager.written) o
      → Answered abi
          (manager_service sys abi env)
          IsServing
          ⊥
          txn
          (after_handler txn.buffer p.handled o)
      → AnsweredIn abi
          (manager_service sys abi env)
          (handle sys abi env)
          (HasHandled abi)
          (λ t. ⊥)
          (λ q. ⊥)
          past
          txn
          (after_handler txn.buffer p.handled o)
  after_handler-AnsweredIn past txn p none v same a = a
  after_handler-AnsweredIn past txn p (some (m, out, res)) v same a = record {
    serving = a;
    handled = answer-handled txn out.io res _ ∙ ap (λ bs. txn.buffer ∷ bs) v.handled;
    answered =
        replied-answer abi (manager_service sys abi env) txn out.io res _ past (λ t. refl)
          (same ∙ v.answered);
  }

  pub manager_service-IsFollowed :
      IsMalloc env
      → IsFollowed abi
          (manager_service sys abi env)
          (handle sys abi env)
          (HasHandled abi)
          (λ t. ⊥)
          (λ q. ⊥)
  unfolding handle
  manager_service-IsFollowed malloc =
      let kept = manager_service-IsKept sys abi env malloc in
      record {
        has = refl;
        handled = λ past p txn msg out v.
            after_handler-AnsweredIn past txn.transaction_data p _ v
              (svcmgr_handler-Ignores sys replied replied-Ignores abi (answers_at env p) p.manager
                txn msg out)
              (kept.handled (handle sys abi env) p txn msg out refl v.serving);
        notified = λ past q p v. record {
          serving = kept.notified q p v.serving;
          handled = v.handled;
          answered = svcinfo_death-Ignores replied replied-Ignores q p.manager ∙ v.answered;
        };
      }
