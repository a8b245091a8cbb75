-- ===== src/Binder/Parse/Replied.antt =====
-- Which transactions a process has replied to.
use Prim.Native.Nat.{bit_and}
use android_source_learn.Prelude.{
  ℕ, ◌≡◌, ap, ◌∙◌, List, [], ◌∷◌, map, ltb, if◌then◌else◌, Bool-cases, inl, inr,
}
use android_source_learn.Prelude.Int.{ℤ}
use android_source_learn.Abi.{Abi, TransactionData}
use android_source_learn.Bio.{BinderIo}
use android_source_learn.Binder.Commands.{
  Trace, free_and_reply, binder_write, binder_free_buffer, binder_send_reply,
}
use android_source_learn.Binder.Parse.{Service, answer}

-- The buffers of the transactions that a process has replied to, newest first.
abbrev pub replied : Trace → List ℕ
replied [] = []
replied (free_and_reply b _ ∷ bs) = b ∷ replied bs
replied (_ ∷ bs) = replied bs

abbrev pub buffers_of : List TransactionData → List ℕ
buffers_of txns = map (λ (t : TransactionData). t.buffer) txns

module _ (abi : Abi) where
  -- The transactions whose senders wait for a reply.
  abbrev pub awaiting : List TransactionData → List TransactionData
  awaiting [] = []
  awaiting (txn ∷ txns) =
      let rest = awaiting txns in
      if ltb 0 (bit_and txn.flags abi.tf_one_way) then rest else txn ∷ rest

  -- The answer to a transaction is a reply to it exactly if its sender waits for one.
  pub replied-answer :
      {S : Type 0} (svc : Service S) (txn : TransactionData) (io : BinderIo) (res : ℤ) (s : S)
      (past : List TransactionData)
      → ((t : Trace) → svc.trace (svc.with_trace t s) ≡ t)
      → replied (svc.trace s) ≡ buffers_of (awaiting past)
      → replied (svc.trace (answer abi svc txn io res s)) ≡ buffers_of (awaiting (txn ∷ past))
  unfolding answer binder_free_buffer binder_send_reply binder_write
  replied-answer svc txn io res s past written e =
      elim (Bool-cases (ltb 0 (bit_and txn.flags abi.tf_one_way))) [
        | inl one_way ↦ rw one_way (ap replied (written _) ∙ e)
        | inr two_way ↦ rw two_way (ap replied (written _) ∙ ap (λ bs. txn.buffer ∷ bs) e)
      ]
