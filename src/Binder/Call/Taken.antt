-- ===== src/Binder/Call/Taken.antt =====
-- What the driver delivers to `binder_loop` of Demos/BinderCDemo/binder4Server.c: the transactions, the
-- death notifications, and whether a buffer ends the loop.
use android_source_learn.Prelude.{
  ℕ, Bool, true, ◌&&◌, if◌then◌else◌, List, [], ◌∷◌, ◌⊎◌, inl, inr, Bool-cases,
}
use android_source_learn.Abi.{TransactionData}
use android_source_learn.Binder.Parse.Incoming.{
  Incoming, sent, transaction, transaction_sec_ctx, dead_binder, reply_failed, reply_dead,
}
use android_source_learn.Binder.Call.Deliveries.{continues, Delivery}

-- The transactions of a read buffer, newest first, before those of the past.
abbrev pub taken : List Incoming → List TransactionData → List TransactionData
taken [] past = past
taken (transaction txn ∷ is) past = taken is (txn ∷ past)
taken (transaction_sec_ctx txn ∷ is) past = taken is (txn.transaction_data ∷ past)
taken (_ ∷ is) past = taken is past

-- Those of all buffers up to the one that ends the loop.
abbrev pub all_taken : List Delivery → List TransactionData → List TransactionData
all_taken [] past = past
all_taken (d ∷ ds) past =
    let more = all_taken ds (taken d.commands past) in
    if continues d.commands then more else taken d.commands past

-- No buffer ends the loop.
abbrev pub all_continue : List Delivery → Bool
all_continue [] = true
all_continue (d ∷ ds) = continues d.commands && all_continue ds

-- One of the transactions has the property.
abbrev pub Any : (TransactionData → Type 0) → List TransactionData → Type 0
Any D [] = ⊥
Any D (txn ∷ txns) = D txn ⊎ Any D txns

pub Any-taken :
    (D : TransactionData → Type 0) (is : List Incoming) (past : List TransactionData)
    → Any D past
    → Any D (taken is past)
Any-taken D [] past a = a
Any-taken D (sent i ∷ is) past a = Any-taken D is past a
Any-taken D (transaction txn ∷ is) past a = Any-taken D is (txn ∷ past) (inr a)
Any-taken D (transaction_sec_ctx txn ∷ is) past a =
    Any-taken D is (txn.transaction_data ∷ past) (inr a)
Any-taken D (dead_binder p ∷ is) past a = Any-taken D is past a
Any-taken D (reply_failed ∷ is) past a = Any-taken D is past a
Any-taken D (reply_dead ∷ is) past a = Any-taken D is past a

pub Any-all_taken :
    (D : TransactionData → Type 0) (ds : List Delivery) (past : List TransactionData)
    → Any D past
    → Any D (all_taken ds past)
Any-all_taken D [] past a = a
Any-all_taken D (d ∷ ds) past a =
    let now = Any-taken D d.commands past a in
    let later = Any-all_taken D ds (taken d.commands past) now in
    elim (Bool-cases (continues d.commands)) [ inl on ↦ rw on later | inr off ↦ rw off now ]

-- One of the death notifications among the commands has the property.
abbrev pub AnyDeath : (ℕ → Type 0) → List Incoming → Type 0
AnyDeath E [] = ⊥
AnyDeath E (dead_binder q ∷ is) = E q ⊎ AnyDeath E is
AnyDeath E (_ ∷ is) = AnyDeath E is

abbrev pub AnyDeliveredDeath : (ℕ → Type 0) → List Delivery → Type 0
AnyDeliveredDeath E [] = ⊥
AnyDeliveredDeath E (d ∷ ds) = AnyDeath E d.commands ⊎ AnyDeliveredDeath E ds
