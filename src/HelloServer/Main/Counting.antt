-- ===== src/HelloServer/Main/Counting.antt =====
-- The server as a service whose state is followed through its transactions.
use Prim.Native.Nat.{bit_and}
use android_source_learn.Prelude.{
  ℕ, ◌+◌, ◌%◌, ◌^◌, ◌≡◌, ◌≢◌, refl, ◌∙◌, ap, ◌⊎◌, none, some, List, [], ◌∷◌, map, ltb, ◌==◌,
  if◌then◌else◌, Bool-cases, inl, inr, arith,
}
use android_source_learn.Prelude.Int.{ℤ}
use android_source_learn.Abi.{Abi, TransactionData, TransactionSecctx}
use android_source_learn.Bio.{BinderIo, Parcel}
use android_source_learn.Binder.Parse.{answer}
use android_source_learn.Binder.Parse.Keeps.{Answered}
use android_source_learn.Binder.Parse.Replied.{replied, awaiting, buffers_of, replied-answer}
use android_source_learn.Binder.Call.Handled.{AnsweredIn, IsFollowed}
use android_source_learn.HelloServer.{
  Hello, Handled, hello_svr_cmd_sayhello, hello_svr_cmd_sayhello_to, sayhello, sayhello_to,
  handle_sayhello_to, hello_service_handler, test_server_handler,
}
use android_source_learn.HelloServer.Main.{
  Handling, Session, remember, function_at, serve_hello, hello_server,
}
use android_source_learn.HelloServer.Main.Serving.{
  IsSaying, hits, Counts, test_server_handler-Counts, hello_server-IsKept,
}

-- The transactions with a code.
abbrev pub calls : ℕ → List TransactionData → ℕ
calls code [] = 0
calls code (txn ∷ txns) = (if txn.code == code then 1 else 0) + calls code txns

-- A transaction that can make the server crash: it names another function than the server's
-- handler, or it passes a name.
abbrev pub MayCrash : ℕ → TransactionData → Type 0
MayCrash ptr txn = (txn.target ≢ ptr) ⊎ (txn.code ≡ hello_svr_cmd_sayhello_to)

-- The server serves, it has handled these transactions and no others, it has replied to those that
-- are not one-way and to no others, and its first counter is the number of those with the code
-- HELLO_SVR_CMD_SAYHELLO, modulo 2^32.
pub record HasSaid (abi : Abi) (past : List TransactionData) (s : Session) : Type 0 where
  pub saying : IsSaying s
  pub handled : map (λ (c : Handling). c.txn) s.handled ≡ past
  pub counted : s.hello.hellos ≡ calls hello_svr_cmd_sayhello past % 2 ^ 32
  pub answered : replied s.hello.written ≡ buffers_of (awaiting abi past)

abbrev SameHellos : Hello → Handled → Type 0
SameHellos h none = Unit {0}
SameHellos h (some (h', out, z)) = h'.hellos ≡ h.hellos

-- The outcome of a transaction after `n` calls of HELLO_SVR_CMD_SAYHELLO.
abbrev Greets : ℕ → ℕ → TransactionData → Handled → Type 0
Greets ptr n txn none = MayCrash ptr txn
Greets ptr n txn (some (h, out, z)) =
    h.hellos ≡ ((if txn.code == hello_svr_cmd_sayhello then 1 else 0) + n) % 2 ^ 32

handle_sayhello_to-SameHellos :
    (h : Hello) (msg : BinderIo) (out : Parcel) → SameHellos h (handle_sayhello_to h msg out)
unfolding handle_sayhello_to sayhello_to
handle_sayhello_to-SameHellos h msg out = ground arith

to-Greets :
    (ptr n : ℕ) (h : Hello) (txn : TransactionData) (o : Handled)
    → txn.code ≡ hello_svr_cmd_sayhello_to
    → h.hellos ≡ n % 2 ^ 32
    → SameHellos h o
    → Greets ptr n txn o
to-Greets ptr n h txn none code e same = inr code
to-Greets ptr n h txn (some (h', out, z)) code e same = rw code (omega (arith, same, e))

hello_service_handler-Greets :
    (ptr n : ℕ) (h : Hello) (txn : TransactionSecctx) (msg : BinderIo) (out : Parcel)
    → h.hellos ≡ n % 2 ^ 32
    → Greets ptr n txn.transaction_data (hello_service_handler h txn msg out)
unfolding hello_service_handler sayhello
hello_service_handler-Greets ptr n h txn msg out e =
    elim (Bool-cases (txn.transaction_data.code == hello_svr_cmd_sayhello)) [
      | inl one ↦ rw (one, hello_service_handler) (rw one (omega (arith, e)))
      | inr other ↦ elim (Bool-cases (txn.transaction_data.code == hello_svr_cmd_sayhello_to)) [
        | inl to ↦
            rw (other, to, hello_service_handler)
              (to-Greets ptr n h txn.transaction_data _ (ground arith) e
                (handle_sayhello_to-SameHellos h _ out))
        | inr neither ↦ rw (other, neither, hello_service_handler) (rw other (omega (arith, e)))
      ]
    ]

test_server_handler-Greets :
    (ptr n : ℕ) (h : Hello) (txn : TransactionSecctx) (msg : BinderIo) (out : Parcel)
    → h.hellos ≡ n % 2 ^ 32
    → Greets ptr n txn.transaction_data (test_server_handler (function_at ptr) h txn msg out)
unfolding test_server_handler
test_server_handler-Greets ptr n h txn msg out e =
    elim (Bool-cases (txn.transaction_data.target == ptr)) [
      | inl here ↦
          rw (here, test_server_handler) (hello_service_handler-Greets ptr n h txn msg out e)
      | inr elsewhere ↦ rw (elsewhere, test_server_handler) (inl (ground arith))
    ]

module _ (abi : Abi) (ptr : ℕ) where
  answer_same :
      (txn : TransactionData) (io : BinderIo) (res : ℤ) (s : Session)
      → let s' = answer abi (hello_server ptr) txn io res s in
        (s'.handled ≡ s.handled) × (s'.hello.hellos ≡ s.hello.hellos)
  unfolding answer
  answer_same txn io res s = elim (Bool-cases (ltb 0 (bit_and txn.flags abi.tf_one_way))) [
    | inl one_way ↦ rw one_way (refl, refl)
    | inr two_way ↦ rw two_way (refl, refl)
  ]

  remember-AnsweredIn :
      (past : List TransactionData) (txn : TransactionData) (s : Session) (o : Handled)
      → HasSaid abi past s
      → Greets ptr (calls hello_svr_cmd_sayhello past) txn o
      → Counts s.hello txn
          (hits hello_svr_cmd_sayhello s.handled)
          (hits hello_svr_cmd_sayhello_to s.handled)
          o
      → Answered abi (hello_server ptr) IsSaying (Unit {0}) txn (remember txn s.handled o)
      → AnsweredIn abi
          (hello_server ptr)
          (serve_hello ptr)
          (HasSaid abi)
          (MayCrash ptr)
          (λ q. Unit {0})
          past
          txn
          (remember txn s.handled o)
  remember-AnsweredIn past txn s none v g c a = g
  remember-AnsweredIn past txn s (some (h, out, res)) v g (unwritten, c) a =
      let same = answer_same txn out.io res _ in
      record {
        saying = a;
        handled =
            ap (λ cs. map (λ (c : Handling). c.txn) cs) same.0 ∙ ap (λ ts. txn ∷ ts) v.handled;
        counted = same.1 ∙ g;
        answered =
            replied-answer abi (hello_server ptr) txn out.io res _ past (λ t. refl)
              (ap replied unwritten ∙ v.answered);
      }

  pub hello_server-IsFollowed :
      IsFollowed abi
        (hello_server ptr)
        (serve_hello ptr)
        (HasSaid abi)
        (MayCrash ptr)
        (λ q. Unit {0})
  unfolding serve_hello
  hello_server-IsFollowed =
      let kept = hello_server-IsKept abi ptr in
      record {
        has = refl;
        handled = λ past s txn msg out v.
            remember-AnsweredIn past txn.transaction_data s _ v
              (test_server_handler-Greets ptr _ s.hello txn msg out v.counted)
              (test_server_handler-Counts ptr s.hello txn msg out _ _ v.saying.counting)
              (kept.handled (serve_hello ptr) s txn msg out refl v.saying);
        notified = λ past q s v. tt;
      }
