-- ===== src/HelloServer/Main/Staying.antt =====
-- Where the handlers of Demos/BinderCDemo/binder_server.c write.
use mathlib.Core.Path.{subst}
use mathlib.Core.Option.{some-injective}
use android_source_learn.Prelude.{
  ℕ, ◌+◌, Option, none, some, List, ◌==◌, Bool-cases, Option-cases, inl, inr, arith,
}
use android_source_learn.Prelude.Int.{ℤ}
use android_source_learn.Memory.{load_units}
use android_source_learn.Abi.{Abi, TransactionData, TransactionSecctx}
use android_source_learn.Bio.{BinderIo, Parcel, bio_get_string16, bio_get_uint32}
use android_source_learn.Bio.Safety.{InBuffer, Stays, Stays-trans, stay, bio_put_uint32-Stays}
use android_source_learn.Binder.Parse.Reference.{Spared, Spares}
use android_source_learn.HelloServer.{
  Hello, Handled, copy_name, handle_sayhello_to, hello_service_handler, test_server_handler,
}
use android_source_learn.HelloServer.Main.{
  Handling, Session, remember, function_at, serve_hello, hello_server,
}

-- The reply of an outcome that is no crash is in its buffer, and nothing else has been written.
abbrev HelloStays : ℕ → ℕ → Parcel → Handled → Type 0
HelloStays lo hi out none = Unit {0}
HelloStays lo hi out (some (h, out', z)) = Stays lo hi out out'

handle_sayhello_to-HelloStays :
    {lo hi : ℕ} (h : Hello) (msg : BinderIo) (out : Parcel)
    → InBuffer lo hi out.io
    → HelloStays lo hi out (handle_sayhello_to h msg out)
unfolding handle_sayhello_to
handle_sayhello_to-HelloStays h msg out v =
    let first = bio_put_uint32-Stays 0 out v in
    elim (Option-cases (bio_get_string16 out.mem (bio_get_string16 out.mem msg).2).0) [
      | inl bad ↦ rw (bad, handle_sayhello_to) (stay out v)
      | inr (a, good) ↦
          rw (good, handle_sayhello_to)
            (elim (Option-cases (
              copy_name (
                load_units out.mem a
                  (bio_get_string16 out.mem (bio_get_string16 out.mem msg).2).1))) [
                    | inl over ↦ rw over tt
                    | inr (name, copied) ↦
                        rw copied (Stays-trans first (bio_put_uint32-Stays _ _ first.inside))
                  ])
    ]

hello_service_handler-HelloStays :
    {lo hi : ℕ} (h : Hello) (txn : TransactionSecctx) (msg : BinderIo) (out : Parcel)
    → InBuffer lo hi out.io
    → HelloStays lo hi out (hello_service_handler h txn msg out)
unfolding hello_service_handler
hello_service_handler-HelloStays {lo} {hi} h txn msg out v =
    let same = stay out v in
    let word = bio_put_uint32-Stays 0 out v in
    let greeted = handle_sayhello_to-HelloStays h (bio_get_uint32 out.mem msg).1 out v in
    ground arith

test_server_handler-HelloStays :
    {lo hi : ℕ} (ptr : ℕ) (h : Hello) (txn : TransactionSecctx) (msg : BinderIo) (out : Parcel)
    → InBuffer lo hi out.io
    → HelloStays lo hi out (test_server_handler (function_at ptr) h txn msg out)
unfolding test_server_handler
test_server_handler-HelloStays ptr h txn msg out v =
    elim (Bool-cases (txn.transaction_data.target == ptr)) [
      | inl here ↦ rw (here, test_server_handler) (hello_service_handler-HelloStays h txn msg out v)
      | inr elsewhere ↦ rw (elsewhere, test_server_handler) tt
    ]

module _ (abi : Abi) (ptr : ℕ) where
  remember-Spared :
      (lo : ℕ) (txn : TransactionData) (past : List Handling) (out : Parcel) (o : Handled)
      → HelloStays lo (lo + 256) out o
      → Spared abi (hello_server ptr) lo out.mem (remember txn past o)
  remember-Spared lo txn past out none s = tt
  remember-Spared lo txn past out (some (h, out', z)) s = s.same

  pub hello_server-Spares : Spares abi (hello_server ptr)
  unfolding serve_hello
  hello_server-Spares func s txn msg out lo has v =
      subst
        (λ (f : Session → TransactionSecctx → BinderIo → Parcel → Option (Session × Parcel × ℤ)).
          Spared abi (hello_server ptr) lo out.mem (f s txn msg out))
        (some-injective _ _ has)
        (remember-Spared lo txn.transaction_data s.handled out _
          (test_server_handler-HelloStays ptr s.hello txn msg out v))
