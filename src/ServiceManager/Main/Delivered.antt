-- ===== src/ServiceManager/Main/Delivered.antt =====
-- `main` of the service manager, for what the driver delivers to it.
use android_source_learn.Prelude.{
  inl, inr, ◌∷◌, ℕ, ◌*◌, ◌≡◌, refl, ◌≢◌, Bool, true, false, Option, none, some, List, [],
}
use android_source_learn.Prelude.Int.{is_nonzero}
use android_source_learn.Memory.{Memory}
use android_source_learn.Abi.{Abi, TransactionData, IsObjectLayout}
use android_source_learn.Binder.Commands.{binder_write, enter_looper}
use android_source_learn.Binder.Parse.{writes}
use android_source_learn.Binder.Parse.Incoming.{
  Incoming, sent, transaction, transaction_sec_ctx, dead_binder, reply_failed, reply_dead,
  AreAllCodes, ReadsStructs,
}
use android_source_learn.Binder.Call.{Looped, left_loop, waiting, died, binder_loop}
use android_source_learn.Binder.Call.Deliveries.{Delivery, responses, AreDelivered}
use android_source_learn.Binder.Call.Rounds.{binder_loop-serve_rounds}
use android_source_learn.Binder.Call.Handled.{LoopedIn, serve_rounds-LoopedIn}
use android_source_learn.Binder.Call.Taken.{
  AnyDeath, AnyDeliveredDeath, Any, all_taken, all_continue,
}
use android_source_learn.Binder.Open.{Held, BinderState, binder_open, binder_become_context_manager}
use android_source_learn.ServiceManager.Access.{System}
use android_source_learn.ServiceManager.Main.{
  Environment, Process, handle, manager_service, first_process, StartAnswers, Ran, exited, served,
  waits, aborts, after_loop, serve, become_manager, svcmgr_main,
}
use android_source_learn.ServiceManager.Main.Serving.{IsMalloc}
use android_source_learn.ServiceManager.Main.Starting.{first-IsServing}
use android_source_learn.ServiceManager.Main.Handling.{
  HasHandled, manager_service-Spares, manager_service-IsFollowed,
}

-- `main` waits for the driver if `b`, and otherwise its loop has been left; it has handled these
-- transactions, and replied to those that are not one-way.
abbrev pub IsServed : Abi → Bool → List TransactionData → Ran → Type 0
IsServed abi b past (exited z h) = ⊥
IsServed abi true past (served p h) = ⊥
IsServed abi false past (served p h) = HasHandled abi past p
IsServed abi true past (waits p) = HasHandled abi past p
IsServed abi false past (waits p) = ⊥
IsServed abi b past aborts = ⊥

never_dead : (is : List Incoming) → AnyDeath (λ q. ⊥) is → ⊥
never_dead [] a = a
never_dead (sent i ∷ is) a = never_dead is a
never_dead (transaction txn ∷ is) a = never_dead is a
never_dead (transaction_sec_ctx txn ∷ is) a = never_dead is a
never_dead (dead_binder q ∷ is) (inl e) = e
never_dead (dead_binder q ∷ is) (inr a) = never_dead is a
never_dead (reply_failed ∷ is) a = never_dead is a
never_dead (reply_dead ∷ is) a = never_dead is a

never_notified : (ds : List Delivery) → AnyDeliveredDeath (λ q. ⊥) ds → ⊥
never_notified [] a = a
never_notified (d ∷ ds) (inl a) = never_dead d.commands a
never_notified (d ∷ ds) (inr a) = never_notified ds a

never : (txns : List TransactionData) → Any (λ t. ⊥) txns → ⊥
never [] a = a
never (txn ∷ txns) (inl e) = e
never (txn ∷ txns) (inr a) = never txns a

-- The start-up succeeds.
pub record StartsUp (abi : Abi) (ans : StartAnswers) (h : Held) : Type 0 where
  pub opened : (binder_open abi ans.open_answers (128 * 1024) h).0 ≢ none
  pub became : is_nonzero (binder_become_context_manager ans.set_ext ans.set_original).0 ≡ false
  pub contexts : ans.service_contexts ≢ none
  pub own : ans.own_context ≢ none

module _ (sys : System) (abi : Abi) (env : Environment) where
  after_loop-IsServed :
      (h : Held) (ds : List Delivery) (b : Bool) (past : List TransactionData) (l : Looped Process)
      → LoopedIn abi
          (manager_service sys abi env)
          (handle sys abi env)
          (HasHandled abi)
          (λ t. ⊥)
          (λ q. ⊥)
          (AnyDeliveredDeath (λ q. ⊥) ds)
          b
          past
          l
      → IsServed abi b past (after_loop h l)
  after_loop-IsServed h ds true past (left_loop p mem) v = v
  after_loop-IsServed h ds false past (left_loop p mem) v = v
  after_loop-IsServed h ds true past (waiting p mem) v = v
  after_loop-IsServed h ds false past (waiting p mem) v = v
  after_loop-IsServed h ds true past died (inl v) = never past v
  after_loop-IsServed h ds true past died (inr n) = never_notified ds n
  after_loop-IsServed h ds false past died (inl v) = never past v
  after_loop-IsServed h ds false past died (inr n) = never_notified ds n

  pub binder_loop-HasHandled :
      (rdata readbuf : ℕ) (ds : List Delivery) (past : List TransactionData) (p : Process)
      (mem : Memory)
      → IsMalloc env
      → AreAllCodes abi
      → ReadsStructs abi
      → IsObjectLayout abi
      → AreDelivered abi rdata readbuf ds
      → HasHandled abi past p
      → LoopedIn abi
          (manager_service sys abi env)
          (handle sys abi env)
          (HasHandled abi)
          (λ t. ⊥)
          (λ q. ⊥)
          (AnyDeliveredDeath (λ q. ⊥) ds)
          (all_continue ds)
          (all_taken ds past)
          (binder_loop abi (manager_service sys abi env) rdata readbuf (responses ds) p mem)
  unfolding binder_write
  binder_loop-HasHandled rdata readbuf ds past p mem malloc codes structs layout delivered v =
      let svc = manager_service sys abi env in
      let sound = v.serving.sound in
      let entered : HasHandled abi past (writes abi svc (binder_write enter_looper) p) = record {
        serving = record {
          sound = record {
            distinct = sound.distinct;
            names = sound.names;
            balanced = sound.balanced;
          };
          story = v.serving.story;
          ready = v.serving.ready;
          returned = v.serving.returned;
        };
        handled = v.handled;
        answered = v.answered;
      } in
      rw
        (binder_loop-serve_rounds abi svc rdata readbuf codes structs
          (manager_service-Spares sys abi env layout) ds p mem delivered)
        (serve_rounds-LoopedIn abi svc (handle sys abi env) (HasHandled abi) (λ t. ⊥) (λ q. ⊥)
          (manager_service-IsFollowed sys abi env malloc) rdata ds past _ mem entered)

become_manager-IsServed :
    (abi : Abi) (ans : StartAnswers) (next : Held → Ran) (b : Bool) (past : List TransactionData)
    (o : Option BinderState × Held)
    → o.0 ≢ none
    → is_nonzero (binder_become_context_manager ans.set_ext ans.set_original).0 ≡ false
    → ((h : Held) → IsServed abi b past (next h))
    → IsServed abi b past (become_manager ans next o)
become_manager-IsServed abi ans next b past (none, h) opened became v = absurd (opened refl)
become_manager-IsServed abi ans next b past (some bs, h) opened became v = rw became (v h)

module _ (sys : System) (abi : Abi) (env : Environment) (rdata readbuf : ℕ) (ds : List Delivery)
    (malloc : IsMalloc env) (codes : AreAllCodes abi) (structs : ReadsStructs abi)
    (layout : IsObjectLayout abi) (delivered : AreDelivered abi rdata readbuf ds) where
  serve-IsServed :
      (mem : Memory) (h : Held) (contexts own : Option ℕ)
      → contexts ≢ none
      → own ≢ none
      → IsServed abi
          (all_continue ds)
          (all_taken ds [])
          (serve sys abi env rdata readbuf (responses ds) mem h contexts own)
  serve-IsServed mem h none own c o = absurd (c refl)
  serve-IsServed mem h (some contexts) none c o = absurd (o refl)
  serve-IsServed mem h (some contexts) (some own) c o =
      let sys' = record sys { service_manager_context = own } in
      after_loop-IsServed sys' abi env h ds (all_continue ds) (all_taken ds []) _ (
        binder_loop-HasHandled sys' abi env rdata readbuf ds [] (first_process contexts) mem malloc
          codes structs layout delivered
          record { serving = first-IsServing contexts; handled = refl; answered = refl })

  -- If the start-up succeeds and the driver delivers read buffers that are full of commands, `main`
  -- of the service manager handles every transaction in them, up to the first buffer with a reply or
  -- a failure: it then has handled these transactions and no others, in order, the buffer of each has
  -- been given back once, those that are not one-way and no others have been replied to, once each
  -- and in order, and it serves. It waits for the driver if there is no such buffer, and ends
  -- after it if there is one.
  pub svcmgr_main-IsServed :
      (ans : StartAnswers) (mem : Memory) (h : Held)
      → StartsUp abi ans h
      → IsServed abi
          (all_continue ds)
          (all_taken ds [])
          (svcmgr_main sys abi env ans rdata readbuf (responses ds) mem h)
  unfolding svcmgr_main
  svcmgr_main-IsServed ans mem h up =
      become_manager-IsServed abi ans _ (all_continue ds) (all_taken ds []) _ up.opened up.became
        (λ h'. serve-IsServed mem h' ans.service_contexts ans.own_context up.contexts up.own)
