-- ===== src/ServiceManager/Main/Serving.antt =====
-- What holds while the service manager runs.
use android_source_learn.Prelude.{ℕ, ◌≡◌, ◌≢◌, Option, none, some, List, ◌∷◌, arith, ap, ◌∙◌}
use android_source_learn.Prelude.{Bool-cases, ltb, inl, inr}
use Prim.Native.Nat.{bit_and}
use android_source_learn.Prelude.Int.{ℤ}
use android_source_learn.Memory.{Memory}
use android_source_learn.Abi.{Abi, TransactionData, TransactionSecctx}
use android_source_learn.Bio.{BinderIo, Parcel}
use android_source_learn.Binder.Commands.{
  free_buffer, free_and_reply, ReplyTxn, binder_write, binder_free_buffer, binder_send_reply,
  reply_txn,
}
use android_source_learn.Binder.Parse.{answer}
use android_source_learn.Binder.Parse.Keeps.{IsKept, Answered, freed}
use android_source_learn.Binder.Call.{Response, binder_loop}
use android_source_learn.Binder.Call.Loops.{LoopedKept, binder_loop-Kept}
use android_source_learn.ServiceManager.Access.{System}
use mathlib.Core.Path.{subst}
use mathlib.Core.Option.{some-injective}
use android_source_learn.ServiceManager.Registry.{Svcinfo, Manager, svcinfo_death}
use android_source_learn.ServiceManager.Handler.Changes.{After}
use android_source_learn.ServiceManager.Registry.Lookup.{IsFresh}
use android_source_learn.ServiceManager.Handler.{Outcome}
use android_source_learn.ServiceManager.Handler.Progress.{Serves, svcmgr_handler-Serves}
use android_source_learn.ServiceManager.Histories.{IsSound, death-IsSound, svcmgr_handler-IsSound}
use android_source_learn.ServiceManager.Specification.{
  Event, Story, after, handles, death-Event, svcmgr_handler-Event,
}
use android_source_learn.ServiceManager.Handler.Ignored.{
  freed-Ignores, svcinfo_death-Ignores, svcmgr_handler-Ignores,
}
use android_source_learn.ServiceManager.Main.{
  Environment, Process, answers_at, after_handler, handle, manager_service,
}

-- `malloc` gives no address of a node that is allocated.
abbrev pub IsMalloc : Environment → Type 0
IsMalloc env = (l : List Svcinfo) → IsFresh (env.malloc l) l

-- The registry is sound, the handles by name have the history of the specification, the service
-- contexts are there, and the buffers of the handled transactions, and no others, have been given
-- back, each once and in the same order.
pub record IsServing (p : Process) : Type 0 where
  pub sound : IsSound p.manager
  pub story : Story (handles p.manager)
  pub ready : p.manager.sehandle ≢ none
  pub returned : freed p.manager.written ≡ p.handled

-- Commands that give buffers back leave a manager sound.
IsSound-freed :
    (m : Manager) (b : ℕ) → IsSound m → IsSound (record m { written = free_buffer b ∷ m.written })
IsSound-freed m b v = record { distinct = v.distinct; names = v.names; balanced = v.balanced }

IsSound-replied :
    (m : Manager) (b : ℕ) (t : ReplyTxn)
    → IsSound m
    → IsSound (record m { written = free_and_reply b t ∷ m.written })
IsSound-replied m b t v = record { distinct = v.distinct; names = v.names; balanced = v.balanced }

svcinfo_death-sehandle : (q : ℕ) (m : Manager) → (svcinfo_death q m).sehandle ≡ m.sehandle
unfolding svcinfo_death
svcinfo_death-sehandle q m = ground arith

module _ (sys : System) where
  module _ (abi : Abi) (env : Environment) where
    after_handler-Answered :
        (txn : TransactionData) (p : Process) (o : Outcome)
        → IsServing p
        → After IsSound o
        → After (λ m'. Event (handles p.manager) (handles m')) o
        → Serves o
        → After (λ m'. freed m'.written ≡ freed p.manager.written) o
        → Answered abi
            (manager_service sys abi env)
            IsServing
            ⊥
            txn
            (after_handler txn.buffer p.handled o)
    unfolding answer binder_free_buffer binder_send_reply binder_write
    after_handler-Answered txn p none v sound event ready same = ready
    after_handler-Answered txn p (some (m, reply, res)) v sound event ready same =
        elim (Bool-cases (ltb 0 (bit_and txn.flags abi.tf_one_way))) [
          | inl one_way ↦
              rw (one_way, answer)
                (record {
                  sound = IsSound-freed m txn.buffer sound;
                  story = after v.story event;
                  ready = ready;
                  returned = ap (λ bs. txn.buffer ∷ bs) (same ∙ v.returned);
                })
          | inr two_way ↦
              rw (two_way, answer)
                (record {
                  sound = IsSound-replied m txn.buffer (reply_txn abi reply.io res) sound;
                  story = after v.story event;
                  ready = ready;
                  returned = ap (λ bs. txn.buffer ∷ bs) (same ∙ v.returned);
                })
        ]

    pub manager_service-IsKept : IsMalloc env → IsKept abi (manager_service sys abi env) IsServing ⊥
    unfolding handle
    manager_service-IsKept malloc = record {
      handled = λ func p txn msg reply has v.
          subst
            (λ (f : Process
                → TransactionSecctx
                → BinderIo
                → Parcel
                → Option (Process × Parcel × ℤ)).
              Answered abi (manager_service sys abi env) IsServing ⊥ txn.transaction_data
                (f p txn msg reply))
            (some-injective _ _ has)
            (after_handler-Answered txn.transaction_data p _ v
              (svcmgr_handler-IsSound sys abi (answers_at env p) p.manager txn msg reply
                (malloc p.manager.svclist) v.sound)
              (svcmgr_handler-Event sys abi (answers_at env p) p.manager txn msg reply
                (malloc p.manager.svclist) v.sound)
              (svcmgr_handler-Serves sys abi (answers_at env p) p.manager txn msg reply v.ready)
              (svcmgr_handler-Ignores sys freed freed-Ignores abi (answers_at env p) p.manager txn
                msg reply));
      notified = λ q p v. record {
        sound = death-IsSound q p.manager v.sound;
        story = after v.story (death-Event q p.manager v.sound);
        ready = rw (svcinfo_death-sehandle q p.manager) v.ready;
        returned = svcinfo_death-Ignores freed freed-Ignores q p.manager ∙ v.returned;
      };
    }

    -- The manager serves for ever: from a state in `IsServing`, however the driver answers, its loop
    -- never aborts, and where it waits or is left the state is in `IsServing` again.
    pub binder_loop-IsServing :
        (rdata readbuf : ℕ) (responses : List Response) (p : Process) (mem : Memory)
        → IsMalloc env
        → IsServing p
        → LoopedKept abi
            (manager_service sys abi env)
            IsServing
            ⊥
            (binder_loop abi (manager_service sys abi env) rdata readbuf responses p mem)
    unfolding binder_write
    binder_loop-IsServing rdata readbuf responses p mem malloc v =
        binder_loop-Kept abi (manager_service sys abi env) IsServing ⊥ rdata readbuf
          (manager_service-IsKept malloc) responses p mem
          (record {
            sound = record {
              distinct = v.sound.distinct;
              names = v.sound.names;
              balanced = v.sound.balanced;
            };
            story = v.story;
            ready = v.ready;
            returned = v.returned;
          })
