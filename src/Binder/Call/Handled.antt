-- ===== src/Binder/Call/Handled.antt =====
-- How the state of a process follows what the driver delivers to `binder_loop` of
-- Demos/BinderCDemo/binder4Server.c.
use android_source_learn.Prelude.{
  ℕ, ◌≡◌, Bool, true, false, ◌&&◌, if◌then◌else◌, Option, none, some, List, [], ◌∷◌, arith, ◌⊎◌,
  inl, inr,
}
use android_source_learn.Prelude.Int.{ℤ}
use android_source_learn.Memory.{Memory}
use android_source_learn.Abi.{Abi, TransactionData, TransactionSecctx}
use android_source_learn.Bio.{BinderIo, Parcel}
use android_source_learn.Binder.Parse.{
  notify, Service, Scan, answer, finish_transaction, run_handler,
}
use android_source_learn.Binder.Parse.Stream.{counted, noop, complete, reply, take_reply}
use android_source_learn.Binder.Parse.Incoming.{
  Incoming, sent, transaction, transaction_sec_ctx, dead_binder, reply_failed, reply_dead,
}
use android_source_learn.Binder.Parse.Reference.{and_then, run}
use android_source_learn.Binder.Call.{Looped, left_loop, waiting, died}
use android_source_learn.Binder.Call.Deliveries.{
  continues, Delivery, fresh_scan, after_run, serve_rounds,
}
use android_source_learn.Binder.Call.Taken.{
  taken, all_taken, all_continue, Any, Any-taken, Any-all_taken, AnyDeath, AnyDeliveredDeath,
}

take_reply-state :
    {S : Type 0} (txn : TransactionData) (sc : Scan S) → (take_reply txn sc).state ≡ sc.state
take_reply-state txn sc = ground arith

module _ {S : Type 0} (abi : Abi) (svc : Service S)
    (func : S → TransactionSecctx → BinderIo → Parcel → Option (S × Parcel × ℤ))
    (P : List TransactionData → S → Type 0) (D : TransactionData → Type 0) (E : ℕ → Type 0) where
  -- A handler returns, and after the answer to its transaction the state fits the past with it; it
  -- aborts only on a transaction in `D`.
  abbrev pub AnsweredIn : List TransactionData → TransactionData → Option (S × Parcel × ℤ) → Type 0
  AnsweredIn past txn none = D txn
  AnsweredIn past txn (some (s, out, res)) = P (txn ∷ past) (answer abi svc txn out.io res s)

  -- A death notification leaves a state that fits the past; it crashes the process only if it is in
  -- `E`.
  abbrev pub NotifiedIn : List TransactionData → ℕ → Option S → Type 0
  NotifiedIn past q none = E q
  NotifiedIn past q (some s) = P past s

  -- The state of a process fits its past.
  pub record IsFollowed : Type 0 where
    pub has : svc.handler ≡ some func
    pub handled :
        (past : List TransactionData) (s : S) (txn : TransactionSecctx) (msg : BinderIo)
        (out : Parcel)
        → P past s
        → AnsweredIn past txn.transaction_data (func s txn msg out)
    pub notified :
        (past : List TransactionData) (p : ℕ) (s : S)
        → P past s
        → NotifiedIn past p (svc.on_death p s)

  abbrev RunIn : Type 0 → List TransactionData → Option (Scan S) → Type 0
  RunIn N past none = Any D past ⊎ N
  RunIn N past (some sc) = P past sc.state

  -- The loop waits or is left, with a state that fits the past, or has died on a transaction of it,
  -- or on a death notification, of which `N` is said.
  abbrev pub LoopedIn : Type 0 → Bool → List TransactionData → Looped S → Type 0
  LoopedIn N true past (waiting s mem) = P past s
  LoopedIn N true past (left_loop s mem) = ⊥
  LoopedIn N false past (waiting s mem) = ⊥
  LoopedIn N false past (left_loop s mem) = P past s
  LoopedIn N b past died = Any D past ⊎ N

  module _ (follows : IsFollowed) (rdata : ℕ) where
    finish-RunIn :
        (N : Type 0) (past : List TransactionData) (txn : TransactionData) (sc : Scan S)
        (o : Option (S × Parcel × ℤ))
        → AnsweredIn past txn o
        → RunIn N (txn ∷ past) (finish_transaction abi svc sc txn o)
    finish-RunIn N past txn sc none a = inl (inl a)
    finish-RunIn N past txn sc (some (s, out, res)) a = a

    run_handler-RunIn :
        (N : Type 0) (past : List TransactionData) (txn : TransactionSecctx) (sc : Scan S)
        → P past sc.state
        → RunIn N (txn.transaction_data ∷ past) (run_handler abi svc rdata txn sc)
    unfolding run_handler
    run_handler-RunIn N past txn sc p =
        rw (follows.has, run_handler)
          (finish-RunIn N past txn.transaction_data sc _ (follows.handled past sc.state txn _ _ p))

    and_then-RunIn :
        (N : Type 0) (past past' : List TransactionData) (next : Scan S → Option (Scan S))
        (o : Option (Scan S))
        → RunIn N past o
        → (Any D past → Any D past')
        → ((sc : Scan S) → P past sc.state → RunIn N past' (next sc))
        → RunIn N past' (and_then abi svc next o)
    and_then-RunIn N past past' next none (inl r) later h = inl (later r)
    and_then-RunIn N past past' next none (inr n) later h = inr n
    and_then-RunIn N past past' next (some sc) r later h = h sc r

    more-RunIn :
        (M N : Type 0) (past : List TransactionData) (o : Option (Scan S))
        → (M → N)
        → RunIn M past o
        → RunIn N past o
    more-RunIn M N past none f (inl r) = inl r
    more-RunIn M N past none f (inr m) = inr (f m)
    more-RunIn M N past (some sc) f r = r

    notify-RunIn :
        (N : Type 0) (q : ℕ) (past : List TransactionData) (sc : Scan S) (o : Option S)
        → NotifiedIn past q o
        → RunIn (E q ⊎ N) past (notify abi svc sc o)
    notify-RunIn N q past sc none n = inr (inl n)
    notify-RunIn N q past sc (some s) n = n

    run-RunIn :
        (is : List Incoming) (past : List TransactionData) (sc : Scan S)
        → P past sc.state
        → RunIn (AnyDeath E is) (taken is past) (run abi svc rdata is sc)
    run-RunIn [] past sc p = p
    run-RunIn (sent noop ∷ is) past sc p = run-RunIn is past sc p
    run-RunIn (sent complete ∷ is) past sc p = run-RunIn is past sc p
    run-RunIn (sent (reply txn) ∷ is) past sc p =
        run-RunIn is past (take_reply txn sc) (rw (take_reply-state txn sc) p)
    run-RunIn (sent (counted c) ∷ is) past sc p = run-RunIn is past sc p
    run-RunIn (transaction txn ∷ is) past sc p =
        and_then-RunIn _ (txn ∷ past) _ _ _
          (run_handler-RunIn (AnyDeath E is) past (record { transaction_data = txn; secctx = 0 }) sc
            p)
          (Any-taken D is (txn ∷ past)) (λ sc' p'. run-RunIn is (txn ∷ past) sc' p')
    run-RunIn (transaction_sec_ctx txn ∷ is) past sc p =
        and_then-RunIn _ (txn.transaction_data ∷ past) _ _ _
          (run_handler-RunIn (AnyDeath E is) past txn sc p)
          (Any-taken D is (txn.transaction_data ∷ past))
          (λ sc' p'. run-RunIn is (txn.transaction_data ∷ past) sc' p')
    run-RunIn (dead_binder d ∷ is) past sc p =
        and_then-RunIn _ past _ _ _
          (notify-RunIn (AnyDeath E is) d past sc (svc.on_death d sc.state)
            (follows.notified past d sc.state p))
          (Any-taken D is past)
          (λ sc' p'.
            more-RunIn (AnyDeath E is) (E d ⊎ AnyDeath E is) _ _ (λ n. inr n)
              (run-RunIn is past sc' p'))
    run-RunIn (reply_failed ∷ is) past sc p = run-RunIn is past _ p
    run-RunIn (reply_dead ∷ is) past sc p = run-RunIn is past _ p

    more-LoopedIn :
        (M N : Type 0) (b : Bool) (past : List TransactionData) (l : Looped S)
        → (M → N)
        → LoopedIn M b past l
        → LoopedIn N b past l
    more-LoopedIn M N true past (waiting s mem) f v = v
    more-LoopedIn M N true past (left_loop s mem) f v = v
    more-LoopedIn M N false past (waiting s mem) f v = v
    more-LoopedIn M N false past (left_loop s mem) f v = v
    more-LoopedIn M N true past died f (inl a) = inl a
    more-LoopedIn M N true past died f (inr m) = inr (f m)
    more-LoopedIn M N false past died f (inl a) = inl a
    more-LoopedIn M N false past died f (inr m) = inr (f m)

    after_run-LoopedIn :
        (N : Type 0) (past past' : List TransactionData) (b c : Bool) (next : S → Memory → Looped S)
        (o : Option (Scan S))
        → RunIn N past o
        → (Any D past → Any D past')
        → ((s : S) (mem : Memory) → P past s → LoopedIn N c past' (next s mem))
        → LoopedIn N (b && c) (if b then past' else past) (after_run abi svc rdata b next o)
    after_run-LoopedIn N past past' true true next none (inl r) later h = inl (later r)
    after_run-LoopedIn N past past' true true next none (inr n) later h = inr n
    after_run-LoopedIn N past past' true false next none (inl r) later h = inl (later r)
    after_run-LoopedIn N past past' true false next none (inr n) later h = inr n
    after_run-LoopedIn N past past' false c next none r later h = r
    after_run-LoopedIn N past past' true c next (some sc) r later h = h sc.state sc.mem r
    after_run-LoopedIn N past past' false c next (some sc) r later h = r

    -- After what the driver delivers, the state fits the transactions of all buffers up to the one
    -- that ends the loop.
    pub serve_rounds-LoopedIn :
        (ds : List Delivery) (past : List TransactionData) (s : S) (mem : Memory)
        → P past s
        → LoopedIn
            (AnyDeliveredDeath E ds)
            (all_continue ds)
            (all_taken ds past)
            (serve_rounds abi svc rdata ds s mem)
    serve_rounds-LoopedIn [] past s mem p = p
    serve_rounds-LoopedIn (d ∷ ds) past s mem p =
        after_run-LoopedIn _ (taken d.commands past) _ (continues d.commands) _ _ _
          (more-RunIn (AnyDeath E d.commands) (AnyDeliveredDeath E (d ∷ ds)) _ _ (λ n. inl n)
            (run-RunIn d.commands past (fresh_scan s d.response.mem) p))
          (Any-all_taken D ds (taken d.commands past))
          (λ s' mem' p'.
            more-LoopedIn (AnyDeliveredDeath E ds) (AnyDeliveredDeath E (d ∷ ds)) _ _ _ (λ n. inr n)
              (serve_rounds-LoopedIn ds (taken d.commands past) s' mem' p'))
