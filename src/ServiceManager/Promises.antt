-- ===== src/ServiceManager/Promises.antt =====
-- What the handler of Demos/BinderCDemo/service_manager.c promises for a request: what it makes of the
-- map from names to handles.
pub mod Stories
use mathlib.Core.Path.{subst}
use android_source_learn.Prelude.{
  zero, suc, ℕ, ◌≡◌, ◌≢◌, refl, sym, ap, ◌∙◌, Bool, true, false, Option, none, some, List, [], ◌==◌,
  ◌&&◌, not, if◌then◌else◌, Bool-cases, Option-cases, inl, inr, arith,
}
use android_source_learn.Prelude.Int.{ℤ, pos, negsuc, minus_one, is_nonzero}
use android_source_learn.Memory.{Memory, load_units}
use android_source_learn.Abi.{Abi, TransactionSecctx}
use android_source_learn.Bio.{BinderIo, Parcel, bio_get_uint32, bio_get_string16, bio_get_ref}
use android_source_learn.ServiceManager.Access.{System}
use android_source_learn.ServiceManager.Registry.{
  Svcinfo, Manager, same_name, find_svc, deref, svcinfo_death, do_add_service,
}
use android_source_learn.ServiceManager.Registry.Lookup.{
  handle_of, IsFresh, handle_of-svcinfo_death,
}
use android_source_learn.ServiceManager.Registry.Add.{do_add_service-handle_of}
use android_source_learn.ServiceManager.Registry.Names.{find_svc-deref}
use android_source_learn.ServiceManager.Handler.{
  Answers, Outcome, svc_mgr_add_service, is_interface, refresh_sehandle, finish_add, handle_add,
  enforce_interface, svcmgr_handler,
}
use android_source_learn.ServiceManager.Handler.Effects.{
  Leaves, svcmgr_handler-Leaves, refresh_same,
}
use android_source_learn.ServiceManager.Handler.Requests.{dispatch-add}
use android_source_learn.ServiceManager.Histories.{
  start, IsSound, IsSound-same, add_unless_zero, Step, transact, death, Reach, here, next,
  Reach-IsSound,
}
use android_source_learn.ServiceManager.Specification.{Names, handles, handles-same}

-- The reader of a request behind its header: two words and the name of the interface.
abbrev pub behind_header : Memory → BinderIo → BinderIo
behind_header mem msg = (bio_get_string16 mem (bio_get_uint32 mem (bio_get_uint32 mem msg).1).1).2

abbrev units_at : Memory → ℕ → Option ℕ → List ℕ
units_at mem len none = []
units_at mem len (some a) = load_units mem a len

-- The name in a request, and the handle in a request to add a service.
abbrev pub asked_name : Memory → BinderIo → List ℕ
asked_name mem msg =
    let (s, len, _) = bio_get_string16 mem (behind_header mem msg) in units_at mem len s

abbrev pub asked_handle : Abi → Memory → BinderIo → ℕ
asked_handle abi mem msg = (bio_get_ref abi mem (bio_get_string16 mem (behind_header mem msg)).2).0

-- A transaction that registers a service: SVC_MGR_ADD_SERVICE with the result 0.
abbrev pub is_registration : Abi → TransactionSecctx → ℤ → Bool
is_registration abi txn z =
    not (txn.transaction_data.code == abi.ping_transaction)
    && txn.transaction_data.code == svc_mgr_add_service
    && not (is_nonzero z)

-- The map after a transaction with the result `z`: the name in its request has the handle in it, if
-- it registers a service.
abbrev pub answered : Abi → TransactionSecctx → BinderIo → Memory → ℤ → Names → Names
answered abi txn msg mem z f t =
    if is_registration abi txn z && same_name (asked_name mem msg) t
    then asked_handle abi mem msg
    else f t

-- What the result and the manager of an outcome satisfy, if it is no abort.
abbrev pub Gives : (Manager → ℤ → Type 0) → Outcome → Type 0
Gives Q none = Unit {0}
Gives Q (some (m, _, z)) = Q m z

finish_add-Gives :
    (Q : Manager → ℤ → Type 0) (o : Option (Manager × ℤ)) (reply : Parcel)
    → ((m' : Manager) → o ≡ some (m', pos 0) → Q m' (pos 0))
    → ((m' : Manager) (z : ℤ) → o ≡ some (m', z) → z ≢ pos 0 → Q m' minus_one)
    → Gives Q (finish_add o reply)
unfolding finish_add
finish_add-Gives Q none reply good bad = tt
finish_add-Gives Q (some (m', pos zero)) reply good bad = good m' refl
finish_add-Gives Q (some (m', pos (suc n))) reply good bad =
    let k = bad m' (pos (suc n)) refl (λ e. ground arith) in ground arith
finish_add-Gives Q (some (m', negsuc n)) reply good bad = bad m' (negsuc n) refl (λ e. ground arith)

module _ (sys : System) (abi : Abi) (ans : Answers) (m : Manager) (txn : TransactionSecctx)
    (msg : BinderIo) (reply : Parcel) (f : IsFresh ans.fresh m.svclist) (v : IsSound m) where
  abbrev Kept : Manager → ℤ → Type 0
  Kept m' z = (t : List ℕ) → handles m' t ≡ answered abi txn msg reply.mem z (handles m) t

  -- A transaction that fails, or is none of SVC_MGR_ADD_SERVICE, changes no name.
  unchanged :
      (m' : Manager) (z : ℤ)
      → is_registration abi txn z ≡ false
      → m'.svclist ≡ m.svclist
      → Kept m' z
  unchanged m' z none_made same t = rw none_made (handles-same m m' same t)

  failed : is_registration abi txn minus_one ≡ false
  failed = ground arith

  registration-Kept :
      txn.transaction_data.code ≡ svc_mgr_add_service
      → (txn.transaction_data.code == abi.ping_transaction) ≡ false
      → Gives Kept
          (handle_add sys abi ans (refresh_sehandle ans m) txn (behind_header reply.mem msg) reply)
  unfolding handle_add
  registration-Kept add no_ping =
      let n = refresh_sehandle ans m in
      let (nodes, trace) = refresh_same sys abi ans m in
      let sound = IsSound-same m n nodes trace v in
      let read = bio_get_string16 reply.mem (behind_header reply.mem msg) in
      elim (Option-cases read.0) [
        | inl bad ↦ rw (bad, handle_add) (unchanged n minus_one failed nodes)
        | inr (a, good) ↦
            rw (good, handle_add)
              (finish_add-Gives Kept _ reply
                (λ m' e t.
                  let (_, exact) =
                    do_add_service-handle_of sys ans.fresh (load_units reply.mem a read.1) _ _ _ _ _
                      _ n m' sound.distinct (rw nodes f) e in
                  rw (no_ping, add) (rw good (rw (← nodes) (exact t))))
                (λ m' z e fails t. elim (add_unless_zero sys _ _ _ _ _ _ _ _ n m' z e) [
                  | inl same ↦
                      unchanged m' minus_one failed (ap (λ (k : Manager). k.svclist) same ∙ nodes) t
                  | inr worked ↦ absurd (fails worked)
                ]))
      ]

  Leaves-Kept :
      txn.transaction_data.code ≢ svc_mgr_add_service → (o : Outcome) → Leaves m o → Gives Kept o
  Leaves-Kept other none l = tt
  Leaves-Kept other (some (m', r, z)) l =
      let none_made : is_registration abi txn z ≡ false = ground arith in
      unchanged m' z none_made l.0

  pub svcmgr_handler-Kept : Gives Kept (svcmgr_handler sys abi ans m txn msg reply)
  unfolding svcmgr_handler enforce_interface
  svcmgr_handler-Kept = elim (Bool-cases (txn.transaction_data.code == svc_mgr_add_service)) [
    | inr other ↦
        let different : txn.transaction_data.code ≢ svc_mgr_add_service = λ e. ground arith in
        Leaves-Kept different _ (svcmgr_handler-Leaves sys abi ans m txn msg reply different)
    | inl this ↦
        let add : txn.transaction_data.code ≡ svc_mgr_add_service = ground arith in
        let unread = unchanged m minus_one failed refl in
        elim (Bool-cases (txn.transaction_data.target == 0)) [
          | inr elsewhere ↦ rw (elsewhere, svcmgr_handler) unread
          | inl me ↦ elim (Bool-cases (txn.transaction_data.code == abi.ping_transaction)) [
            | inl ping ↦
                let quiet : is_registration abi txn (pos 0) ≡ false = rw ping refl in
                rw (me, ping, svcmgr_handler) (unchanged m (pos 0) quiet refl)
            | inr no_ping ↦ rw (me, no_ping, svcmgr_handler) (named this add no_ping unread)
          ]
        ]
  ]
    where
      read : Option ℕ × ℕ × BinderIo
      read =
          bio_get_string16 reply.mem (bio_get_uint32 reply.mem (bio_get_uint32 reply.mem msg).1).1

      named :
          (txn.transaction_data.code == svc_mgr_add_service) ≡ true
          → txn.transaction_data.code ≡ svc_mgr_add_service
          → (txn.transaction_data.code == abi.ping_transaction) ≡ false
          → Kept m minus_one
          → Gives Kept (enforce_interface sys abi ans m txn read reply)
      named this add no_ping unread = elim (Option-cases read.0) [
        | inl bad ↦ rw (bad, enforce_interface) unread
        | inr (a, good) ↦ elim (Bool-cases (is_interface reply.mem a read.1)) [
          | inr wrong ↦ rw (good, enforce_interface) (rw wrong unread)
          | inl right ↦
              rw (good, enforce_interface)
                (rw right (
                  subst (Gives Kept)
                    (sym (
                      dispatch-add sys abi ans (refresh_sehandle ans m) txn
                        (behind_header reply.mem msg) reply add))
                    (registration-Kept add no_ping)))
        ]
      ]
