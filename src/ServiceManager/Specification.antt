-- ===== src/ServiceManager/Specification.antt =====
-- What the service manager promises: it is a map from names to handles, 0 for a name without a
-- live service, that changes by registrations and by deaths.
use mathlib.Core.Path.{subst}
use android_source_learn.Prelude.{
  ℕ, ◌<◌, ◌≤◌, ◌≡◌, refl, sym, ap, Bool, Option, some, List, length, if◌then◌else◌, Option-cases,
  inl, inr,
}
use android_source_learn.Prelude.Int.{ℤ, pos}
use android_source_learn.Abi.{Abi, TransactionSecctx}
use android_source_learn.ServiceManager.Access.{System}
use android_source_learn.ServiceManager.Registry.{
  Manager, same_name, find_svc, deref, svcinfo_death, do_add_service,
}
use android_source_learn.ServiceManager.Registry.Lookup.{
  handle_of, IsFresh, handle_of-svcinfo_death,
}
use android_source_learn.ServiceManager.Registry.Add.{
  do_add_service-Accepted, do_add_service-handle_of,
}
use android_source_learn.ServiceManager.Registry.Names.{find_svc-deref}
use android_source_learn.Bio.{BinderIo, Parcel}
use android_source_learn.ServiceManager.Handler.{Answers, svcmgr_handler}
use android_source_learn.ServiceManager.Handler.Changes.{After, svcmgr_handler-After}
use android_source_learn.ServiceManager.Histories.{
  start, IsSound, IsSound-same, add_unless_zero, Step, transact, death, Reach, here, next,
  Reach-IsSound,
}

abbrev pub Names : Type 0
Names = List ℕ → ℕ

abbrev pub handles : Manager → Names
handles m s = handle_of s m

abbrev pub Assigned : List ℕ → ℕ → Names → Names → Type 0
Assigned s h f g = (t : List ℕ) → g t ≡ (if same_name s t then h else f t)

-- The map after one event: the same, or with a handle for a name of 1 to 127 units, or with a name
-- whose service has died.
pub data Event (f g : Names) : Type 0 where
  stays : ((t : List ℕ) → g t ≡ f t) → Event f g
  registers :
      (s : List ℕ) (h : ℕ) → 0 < h → 0 < length s → length s ≤ 127 → Assigned s h f g → Event f g
  dies : (s : List ℕ) → Assigned s 0 f g → Event f g

-- The maps that events lead to from the one without services.
pub data Story : Names → Type 0 where
  empty : {f : Names} → ((t : List ℕ) → f t ≡ 0) → Story f
  after : {f g : Names} → Story f → Event f g → Story g

pub handles-same :
    (m m' : Manager) → m'.svclist ≡ m.svclist → (t : List ℕ) → handles m' t ≡ handles m t
handles-same m m' l t = rw l refl

Event-from :
    (m n : Manager) {g : Names} → n.svclist ≡ m.svclist → Event (handles n) g → Event (handles m) g
Event-from m n l e = rw (← l) e

pub death-Event :
    (p : ℕ) (m : Manager) → IsSound m → Event (handles m) (handles (svcinfo_death p m))
unfolding svcinfo_death
death-Event p m v = elim (Option-cases (deref p m.svclist)) [
  | inl nowhere ↦ stays (λ t. rw (nowhere, svcinfo_death) refl)
  | inr (si, there) ↦
      let (found, at) = find_svc-deref p m.svclist si v.names there in
      dies si.name (λ t. rw (← at) (handle_of-svcinfo_death si.name t m si v.distinct found))
]

module _ (sys : System) where
  add-Event :
      (fresh : Option ℕ) (s : List ℕ) (handle uid : ℕ) (allow : Bool) (priority spid sid : ℕ)
      (m m' : Manager) (z : ℤ)
      → IsFresh fresh m.svclist
      → IsSound m
      → do_add_service sys fresh s handle uid allow priority spid sid m ≡ some (m', z)
      → Event (handles m) (handles m')
  add-Event fresh s handle uid allow priority spid sid m m' z f v e =
      elim (add_unless_zero sys fresh s handle uid allow priority spid sid m m' z e) [
        | inl same ↦ stays (λ t. ap (handle_of t) same)
        | inr zero ↦
            let e' : do_add_service sys fresh s handle uid allow priority spid sid m
                ≡ some (m', pos 0) =
              rw zero at e in
            let a =
              do_add_service-Accepted sys fresh s handle uid allow priority spid sid m m' e' in
            registers s handle a.handle_pos a.length_pos a.length_le
              (do_add_service-handle_of sys fresh s handle uid allow priority spid sid m m'
                v.distinct f e').1
      ]

  module _ (abi : Abi) where
    -- A transaction is an event.
    pub svcmgr_handler-Event :
        (ans : Answers) (m : Manager) (txn : TransactionSecctx) (msg : BinderIo) (reply : Parcel)
        → IsFresh ans.fresh m.svclist
        → IsSound m
        → After (λ m'. Event (handles m) (handles m')) (svcmgr_handler sys abi ans m txn msg reply)
    svcmgr_handler-Event ans m txn msg reply f v =
        svcmgr_handler-After sys abi (λ m'. Event (handles m) (handles m')) ans m txn msg reply
          (λ m' l w. stays (handles-same m m' l))
          (λ n l w s handle uid allow priority spid sid m' z' added. Event-from m n l (
            add-Event ans.fresh s handle uid allow priority spid sid n m' z' (rw l f)
              (IsSound-same m n l w v) added))

    Step-Event : {m m' : Manager} → Step sys abi m m' → IsSound m → Event (handles m) (handles m')
    Step-Event {m} (transact ans txn msg reply reply' z f e) v =
        subst (After (λ m''. Event (handles m) (handles m''))) e
          (svcmgr_handler-Event ans m txn msg reply f v)
    Step-Event {m} (death p e) v =
        subst (λ m''. Event (handles m) (handles m'')) (sym e) (death-Event p m v)

    -- The manager implements its specification: in every history of transactions and deaths, the
    -- handles by name are a map that registrations and deaths of services make from the empty one.
    pub Reach-Story : (c : ℕ) {m : Manager} → Reach sys abi (start c) m → Story (handles m)
    unfolding find_svc
    Reach-Story c here = empty (λ t. refl)
    Reach-Story c (next r s) = after (Reach-Story c r) (Step-Event s (Reach-IsSound sys abi c r))
