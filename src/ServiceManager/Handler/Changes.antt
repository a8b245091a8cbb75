-- ===== src/ServiceManager/Handler/Changes.antt =====
-- What a transaction does to the manager: nothing, or one registration.
use android_source_learn.Prelude.{
  ℕ, ◌≡◌, refl, ◌∙◌, Bool, Option, none, some, List, Option-cases, inl, inr, arith,
}
use android_source_learn.Prelude.Int.{ℤ}
use android_source_learn.Abi.{Abi, TransactionSecctx}
use android_source_learn.Bio.{BinderIo, Parcel, bio_get_string16}
use android_source_learn.ServiceManager.Access.{System}
use android_source_learn.ServiceManager.Registry.{Manager, do_add_service}
use android_source_learn.ServiceManager.Handler.{
  Answers, Outcome, refresh_sehandle, finish_add, handle_add, dispatch, svcmgr_handler,
}
use android_source_learn.ServiceManager.Handler.Effects.{
  Leaves, svcmgr_handler_cases, handle_find-Leaves, handle_list-Leaves, refresh_same,
}

-- The manager that an outcome leaves, if it is no abort.
abbrev pub After : (Manager → Type 0) → Outcome → Type 0
After Q none = Unit {0}
After Q (some (m, _, _)) = Q m

finish_add-After :
    (Q : Manager → Type 0) (o : Option (Manager × ℤ)) (reply : Parcel)
    → ((m' : Manager) (z : ℤ) → o ≡ some (m', z) → Q m')
    → After Q (finish_add o reply)
unfolding finish_add
finish_add-After Q none reply v = tt
finish_add-After Q (some (m', z)) reply v = let k = v m' z refl in ground arith

Leaves-After :
    (Q : Manager → Type 0) (m : Manager) (o : Outcome)
    → ((m' : Manager) → m'.svclist ≡ m.svclist → m'.written ≡ m.written → Q m')
    → Leaves m o
    → After Q o
Leaves-After Q m none same l = tt
Leaves-After Q m (some (m', _, _)) same l = same m' l.0 l.1

module _ (sys : System) (abi : Abi) (Q : Manager → Type 0) where
  -- A registration from `m` with the address `fresh`, whatever it is asked to register.
  abbrev pub Registers : Option ℕ → Manager → Type 0
  Registers fresh m =
      (s : List ℕ) (handle uid : ℕ) (allow : Bool) (priority spid sid : ℕ) (m' : Manager) (z : ℤ)
      → do_add_service sys fresh s handle uid allow priority spid sid m ≡ some (m', z)
      → Q m'

  handle_add-After :
      (ans : Answers) (m : Manager) (txn : TransactionSecctx) (msg : BinderIo) (reply : Parcel)
      → Q m
      → Registers ans.fresh m
      → After Q (handle_add sys abi ans m txn msg reply)
  unfolding handle_add
  handle_add-After ans m txn msg reply v registers =
      elim (Option-cases (bio_get_string16 reply.mem msg).0) [
        | inl bad ↦ rw (bad, handle_add) v
        | inr (a, good) ↦
            rw (good, handle_add)
              (finish_add-After Q _ reply (λ m' z e. registers _ _ _ _ _ _ _ m' z e))
      ]

  dispatch-After :
      (ans : Answers) (m : Manager) (txn : TransactionSecctx) (msg : BinderIo) (reply : Parcel)
      → ((m' : Manager) → m'.svclist ≡ m.svclist → m'.written ≡ m.written → Q m')
      → Registers ans.fresh m
      → After Q (dispatch sys abi ans m txn msg reply)
  unfolding dispatch
  dispatch-After ans m txn msg reply same registers =
      let v = same m refl refl in
      let found = Leaves-After Q m _ same (handle_find-Leaves sys abi m txn msg reply) in
      let listed = Leaves-After Q m _ same (handle_list-Leaves sys abi m txn msg reply) in
      let added = handle_add-After ans m txn msg reply v registers in ground arith

  -- What holds of every manager with the same services and commands, and after every registration
  -- from such a manager, holds after a transaction.
  pub svcmgr_handler-After :
      (ans : Answers) (m : Manager) (txn : TransactionSecctx) (msg : BinderIo) (reply : Parcel)
      → ((m' : Manager) → m'.svclist ≡ m.svclist → m'.written ≡ m.written → Q m')
      → ((n : Manager) → n.svclist ≡ m.svclist → n.written ≡ m.written → Registers ans.fresh n)
      → After Q (svcmgr_handler sys abi ans m txn msg reply)
  svcmgr_handler-After ans m txn msg reply same registers =
      let (nodes, trace) = refresh_same sys abi ans m in
      let v = same m refl refl in
      svcmgr_handler_cases sys abi (After Q) ans m txn msg reply v v λ msg'.
        dispatch-After ans (refresh_sehandle ans m) txn msg' reply
          (λ m' l w. same m' (l ∙ nodes) (w ∙ trace))
          (registers (refresh_sehandle ans m) nodes trace)
