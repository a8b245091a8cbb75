-- ===== src/Binder/Parse/Incoming.antt =====
-- The commands that the driver can put into a read buffer, as the `switch` of `binder_parse` in
-- Demos/BinderCDemo/binder4Server.c tells them apart, and how they lie in memory.
use android_source_learn.Prelude.{ℕ, ◌+◌, ◌≤◌, ◌≡◌, sym, ◌∙◌, List, [], ◌∷◌, ◌++◌, arith}
use android_source_learn.Memory.{Memory, load}
use android_source_learn.Memory.Frame.{Agree, load-Agree}
use android_source_learn.Abi.{Abi, TransactionData, TransactionSecctx}
use android_source_learn.Binder.Parse.Stream.{
  counted, Unlike, empty_codes, Sent, noop, complete, reply, AreCodes, sent_size, HoldsSent,
}

pub data Incoming : Type 0 where
  sent : Sent → Incoming
  transaction : TransactionData → Incoming
  transaction_sec_ctx : TransactionSecctx → Incoming
  dead_binder : ℕ → Incoming
  reply_failed reply_dead : Incoming

module _ (abi : Abi) where
  abbrev pub silent_codes : List ℕ
  silent_codes =
      empty_codes abi ++ abi.br_increfs ∷ abi.br_acquire ∷ abi.br_release ∷ abi.br_decrefs ∷ []

  abbrev pub carrying_codes : List ℕ
  carrying_codes =
      silent_codes ++ abi.br_transaction_sec_ctx ∷ abi.br_transaction ∷ abi.br_reply ∷ []

  -- The codes are different numbers, as far as the switch has to tell them apart.
  pub record AreAllCodes : Type 0 where
    pub replies : AreCodes abi
    pub sec_ctx : Unlike abi.br_transaction_sec_ctx silent_codes
    pub plain : Unlike abi.br_transaction (abi.br_transaction_sec_ctx ∷ silent_codes)
    pub dead : Unlike abi.br_dead_binder carrying_codes
    pub failed : Unlike abi.br_failed_reply (abi.br_dead_binder ∷ carrying_codes)
    pub lost : Unlike abi.br_dead_reply (abi.br_dead_binder ∷ carrying_codes)

  -- A transaction is read from the bytes of its struct.
  pub record ReadsStructs : Type 0 where
    pub plain :
        (m m' : Memory) (p : ℕ) → Agree p abi.sizeof_txn m m' → abi.read_txn m p ≡ abi.read_txn m' p
    pub sec_ctx :
        (m m' : Memory) (p : ℕ)
        → Agree p abi.sizeof_txn_secctx m m'
        → abi.read_txn_secctx m p ≡ abi.read_txn_secctx m' p

  -- The bytes of a command with its payload.
  abbrev pub incoming_size : Incoming → ℕ
  incoming_size (sent i) = sent_size abi i
  incoming_size (transaction txn) = 4 + abi.sizeof_txn
  incoming_size (transaction_sec_ctx txn) = 4 + abi.sizeof_txn_secctx
  incoming_size (dead_binder p) = 12
  incoming_size reply_failed = 4
  incoming_size reply_dead = 4

  abbrev pub total_size : List Incoming → ℕ
  total_size [] = 0
  total_size (i ∷ is) = incoming_size i + total_size is

  abbrev pub HoldsIncoming : Memory → ℕ → Incoming → Type 0
  HoldsIncoming m p (sent i) = HoldsSent abi m p i
  HoldsIncoming m p (transaction txn) =
      (load 4 m p ≡ abi.br_transaction) × (abi.read_txn m (p + 4) ≡ txn)
  HoldsIncoming m p (transaction_sec_ctx txn) =
      (load 4 m p ≡ abi.br_transaction_sec_ctx) × (abi.read_txn_secctx m (p + 4) ≡ txn)
  HoldsIncoming m p (dead_binder q) = (load 4 m p ≡ abi.br_dead_binder) × (load 8 m (p + 4) ≡ q)
  HoldsIncoming m p reply_failed = load 4 m p ≡ abi.br_failed_reply
  HoldsIncoming m p reply_dead = load 4 m p ≡ abi.br_dead_reply

  -- The commands lie in memory from `p` on, one after another.
  abbrev pub HoldsAll : Memory → ℕ → List Incoming → Type 0
  HoldsAll m p [] = Unit {0}
  HoldsAll m p (i ∷ is) = HoldsIncoming m p i × HoldsAll m (p + incoming_size i) is

  module _ (structs : ReadsStructs) where
    word_same :
        (m m' : Memory) (p size c : ℕ)
        → Agree p size m m'
        → 4 ≤ size
        → load 4 m p ≡ c
        → load 4 m' p ≡ c
    word_same m m' p size c same fits e =
        sym (load-Agree 4 m m' p (λ q a b. same q a (omega arith))) ∙ e

    HoldsSent-same :
        (i : Sent) (m m' : Memory) (p : ℕ)
        → Agree p (sent_size abi i) m m'
        → HoldsSent abi m p i
        → HoldsSent abi m' p i
    HoldsSent-same noop m m' p same e = word_same m m' p 4 _ same (omega arith) e
    HoldsSent-same complete m m' p same e = word_same m m' p 4 _ same (omega arith) e
    HoldsSent-same (counted c) m m' p same e =
        word_same m m' p (4 + abi.sizeof_ptr_cookie) _ same (omega arith) e
    HoldsSent-same (reply txn) m m' p same (e, r) = (
      word_same m m' p (4 + abi.sizeof_txn) _ same (omega arith) e,
      sym (structs.plain m m' (p + 4) (λ q a b. same q (omega arith) (omega arith))) ∙ r,
    )

    HoldsIncoming-same :
        (i : Incoming) (m m' : Memory) (p : ℕ)
        → Agree p (incoming_size i) m m'
        → HoldsIncoming m p i
        → HoldsIncoming m' p i
    HoldsIncoming-same (sent i) m m' p same h = HoldsSent-same i m m' p same h
    HoldsIncoming-same (transaction txn) m m' p same (e, r) = (
      word_same m m' p (4 + abi.sizeof_txn) _ same (omega arith) e,
      sym (structs.plain m m' (p + 4) (λ q a b. same q (omega arith) (omega arith))) ∙ r,
    )
    HoldsIncoming-same (transaction_sec_ctx txn) m m' p same (e, r) = (
      word_same m m' p (4 + abi.sizeof_txn_secctx) _ same (omega arith) e,
      sym (structs.sec_ctx m m' (p + 4) (λ q a b. same q (omega arith) (omega arith))) ∙ r,
    )
    HoldsIncoming-same (dead_binder d) m m' p same (e, r) = (
      word_same m m' p 12 _ same (omega arith) e,
      sym (load-Agree 8 m m' (p + 4) (λ q a b. same q (omega arith) (omega arith))) ∙ r,
    )
    HoldsIncoming-same reply_failed m m' p same e = word_same m m' p 4 _ same (omega arith) e
    HoldsIncoming-same reply_dead m m' p same e = word_same m m' p 4 _ same (omega arith) e

    -- Commands that lie in one memory lie in every memory with the same bytes there.
    pub HoldsAll-same :
        (is : List Incoming) (m m' : Memory) (p : ℕ)
        → Agree p (total_size is) m m'
        → HoldsAll m p is
        → HoldsAll m' p is
    HoldsAll-same [] m m' p same h = tt
    HoldsAll-same (i ∷ is) m m' p same (h, hs) = (
      HoldsIncoming-same i m m' p (λ q a b. same q a (omega arith)) h,
      HoldsAll-same is m m' (p + incoming_size i) (λ q a b. same q (omega arith) (omega arith)) hs,
    )
