-- ===== src/HelloServer/Main/Serving.antt =====
-- What holds while the server says hello.
use mathlib.Core.Path.{subst}
use mathlib.Core.Option.{some-injective}
use Prim.Native.Nat.{bit_and}
use android_source_learn.Prelude.{
  ℕ, ◌+◌, ◌%◌, ◌^◌, ◌≡◌, refl, ◌∙◌, ap, Option, none, some, List, [], ◌∷◌, ◌++◌, map, ltb, not,
  ◌==◌, ◌&&◌, if◌then◌else◌, Bool-cases, Option-cases, inl, inr, arith,
}
use android_source_learn.Prelude.Int.{ℤ, is_nonzero}
use android_source_learn.Memory.{load_units}
use android_source_learn.Abi.{Abi, TransactionData, TransactionSecctx}
use android_source_learn.Bio.{BinderIo, Parcel, bio_get_string16}
use android_source_learn.Binder.Commands.{binder_write, binder_free_buffer, binder_send_reply}
use android_source_learn.Binder.Parse.{answer}
use android_source_learn.Binder.Parse.Keeps.{IsKept, Answered, freed}
use android_source_learn.HelloServer.{
  Hello, Handled, hello_svr_cmd_sayhello, hello_svr_cmd_sayhello_to, sayhello, sayhello_to,
  copy_name, handle_sayhello_to, hello_service_handler, test_server_handler,
}
use android_source_learn.HelloServer.Main.{
  Handling, Session, remember, function_at, serve_hello, hello_server,
}

-- One if the transaction is a call of this command that succeeded.
abbrev pub hit : ℕ → TransactionData → ℤ → ℕ
hit code txn z = if txn.code == code && not (is_nonzero z) then 1 else 0

-- The calls of a command that succeeded.
abbrev pub hits : ℕ → List Handling → ℕ
hits code [] = 0
hits code (c ∷ cs) = hit code c.txn c.result + hits code cs

-- The two counters count the calls that succeeded, as 32-bit numbers.
pub record IsCounting (h : Hello) (n n_to : ℕ) : Type 0 where
  pub hellos : h.hellos ≡ n % 2 ^ 32
  pub hellos_to : h.hellos_to ≡ n_to % 2 ^ 32

-- Each handled transaction is counted by its command, and its buffer has been given back, before
-- them that of the manager's reply; no other buffer has.
pub record IsSaying (s : Session) : Type 0 where
  pub counting :
      IsCounting
        (s.hello)
        (hits hello_svr_cmd_sayhello s.handled)
        (hits hello_svr_cmd_sayhello_to s.handled)
  pub returned : (b : ℕ) × (freed s.hello.written ≡ map (λ c. c.txn.buffer) s.handled ++ b ∷ [])

-- A handler writes no command, and counts the calls that succeed.
abbrev pub Counts : Hello → TransactionData → ℕ → ℕ → Handled → Type 0
Counts h txn n n_to none = Unit {0}
Counts h txn n n_to (some (h', reply, z)) =
    (h'.written ≡ h.written)
    × IsCounting h' (hit hello_svr_cmd_sayhello txn z + n)
        (hit hello_svr_cmd_sayhello_to txn z + n_to)

handle_sayhello_to-Counts :
    (h : Hello) (txn : TransactionData) (msg : BinderIo) (reply : Parcel) (n n_to : ℕ)
    → txn.code ≡ hello_svr_cmd_sayhello_to
    → IsCounting h n n_to
    → Counts h txn n n_to (handle_sayhello_to h msg reply)
unfolding handle_sayhello_to sayhello_to
handle_sayhello_to-Counts h txn msg reply n n_to code v =
    elim (Option-cases (bio_get_string16 reply.mem (bio_get_string16 reply.mem msg).2).0) [
      | inl bad ↦
          rw (bad, handle_sayhello_to)
            (rw code (
              refl,
              record { hellos = ground (arith, v.hellos); hellos_to = ground (arith, v.hellos_to) },
            ))
      | inr (a, good) ↦
          rw (good, handle_sayhello_to)
            (elim (Option-cases (
              copy_name (
                load_units reply.mem a
                  (bio_get_string16 reply.mem (bio_get_string16 reply.mem msg).2).1))) [
                    | inl over ↦ rw over tt
                    | inr (name, copied) ↦ rw copied (
                        rw code (
                          refl,
                          record {
                            hellos = ground (arith, v.hellos);
                            hellos_to = ground (arith, v.hellos_to);
                          },
                        ))
                  ])
    ]

hello_service_handler-Counts :
    (h : Hello) (txn : TransactionSecctx) (msg : BinderIo) (reply : Parcel) (n n_to : ℕ)
    → IsCounting h n n_to
    → Counts h txn.transaction_data n n_to (hello_service_handler h txn msg reply)
unfolding hello_service_handler sayhello
hello_service_handler-Counts h txn msg reply n n_to v =
    elim (Bool-cases (txn.transaction_data.code == hello_svr_cmd_sayhello)) [
      | inl one ↦
          let code : txn.transaction_data.code ≡ 1 = ground arith in
          rw (code, hello_service_handler)
            (
              refl,
              record { hellos = ground (arith, v.hellos); hellos_to = ground (arith, v.hellos_to) },
            )
      | inr other ↦ elim (Bool-cases (txn.transaction_data.code == hello_svr_cmd_sayhello_to)) [
        | inl to ↦
            rw (other, to, hello_service_handler)
              (handle_sayhello_to-Counts h txn.transaction_data _ reply n n_to (ground arith) v)
        | inr neither ↦
            rw (other, neither, hello_service_handler)
              (
                refl,
                record {
                  hellos = ground (arith, v.hellos);
                  hellos_to = ground (arith, v.hellos_to);
                },
              )
      ]
    ]

pub test_server_handler-Counts :
    (ptr : ℕ) (h : Hello) (txn : TransactionSecctx) (msg : BinderIo) (reply : Parcel) (n n_to : ℕ)
    → IsCounting h n n_to
    → Counts h txn.transaction_data n n_to (test_server_handler (function_at ptr) h txn msg reply)
unfolding test_server_handler
test_server_handler-Counts ptr h txn msg reply n n_to v =
    elim (Bool-cases (txn.transaction_data.target == ptr)) [
      | inl here ↦
          rw (here, test_server_handler) (hello_service_handler-Counts h txn msg reply n n_to v)
      | inr elsewhere ↦ rw (elsewhere, test_server_handler) tt
    ]

module _ (abi : Abi) (ptr : ℕ) where
  remember-Answered :
      (txn : TransactionData) (s : Session) (o : Handled)
      → IsSaying s
      → Counts s.hello txn
          (hits hello_svr_cmd_sayhello s.handled)
          (hits hello_svr_cmd_sayhello_to s.handled)
          o
      → Answered abi (hello_server ptr) IsSaying (Unit {0}) txn (remember txn s.handled o)
  unfolding answer binder_free_buffer binder_send_reply binder_write
  remember-Answered txn s none v c = tt
  remember-Answered txn s (some (h, reply, res)) v (same, counting) =
      let (b, returned) = v.returned in
      elim (Bool-cases (ltb 0 (bit_and txn.flags abi.tf_one_way))) [
        | inl one_way ↦
            rw (one_way, answer)
              (record {
                counting = record { hellos = counting.hellos; hellos_to = counting.hellos_to };
                returned = (b, ap (λ bs. txn.buffer ∷ bs) (ap freed same ∙ returned));
              })
        | inr two_way ↦
            rw (two_way, answer)
              (record {
                counting = record { hellos = counting.hellos; hellos_to = counting.hellos_to };
                returned = (b, ap (λ bs. txn.buffer ∷ bs) (ap freed same ∙ returned));
              })
      ]

  pub hello_server-IsKept : IsKept abi (hello_server ptr) IsSaying (Unit {0})
  unfolding serve_hello
  hello_server-IsKept = record {
    handled = λ func s txn msg reply has v.
        subst
          (λ (f : Session → TransactionSecctx → BinderIo → Parcel → Option (Session × Parcel × ℤ)).
            Answered abi (hello_server ptr) IsSaying (Unit {0}) txn.transaction_data
              (f s txn msg reply))
          (some-injective _ _ has)
          (remember-Answered txn.transaction_data s _ v
            (test_server_handler-Counts ptr s.hello txn msg reply _ _ v.counting));
    notified = λ q s v. tt;
  }
