-- ===== src/ServiceManager/Histories.antt =====
-- The service manager over time: transactions and death notifications in any order.
use android_source_learn.Prelude.{
  ℕ, ◌<◌, ◌≡◌, sym, ◌⊎◌, inl, inr, Bool, Option, some, List, [], arith,
}
use mathlib.Core.Path.{subst}
use android_source_learn.Prelude.Int.{ℤ, pos}
use android_source_learn.Abi.{Abi, TransactionSecctx}
use android_source_learn.Bio.{BinderIo, Parcel}
use android_source_learn.ServiceManager.Access.{System}
use android_source_learn.ServiceManager.Registry.{Manager, svcinfo_death, do_add_service}
use android_source_learn.ServiceManager.Registry.Nodes.{Distinct}
use android_source_learn.ServiceManager.Registry.Lookup.{IsFresh, svcinfo_death-Distinct}
use android_source_learn.ServiceManager.Registry.Add.{do_add_service-handle_of}
use android_source_learn.ServiceManager.Registry.References.{
  Balanced, svcinfo_death-Balanced, do_add_service-Balanced,
}
use android_source_learn.ServiceManager.Handler.{Answers, svcmgr_handler}
use android_source_learn.ServiceManager.Handler.Changes.{After, svcmgr_handler-After}
use android_source_learn.ServiceManager.Registry.Names.{
  NamesDiffer, svcinfo_death-NamesDiffer, do_add_service-NamesDiffer,
}

-- The state in which `main` enters its loop: no service, and the service contexts.
abbrev pub start : ℕ → Manager
start c = record { svclist = []; sehandle = some c; written = [] }

-- The nodes have distinct addresses and names, and the references on every handle are balanced.
pub record IsSound (m : Manager) : Type 0 where
  pub distinct : Distinct m.svclist
  pub names : NamesDiffer m.svclist
  pub balanced : (h : ℕ) → 0 < h → Balanced h m

pub IsSound-same :
    (m m' : Manager) → m'.svclist ≡ m.svclist → m'.written ≡ m.written → IsSound m → IsSound m'
IsSound-same m m' l w v = record {
  distinct = subst Distinct (sym l) v.distinct;
  names = subst NamesDiffer (sym l) v.names;
  balanced = λ h live. ground (arith, v.balanced h live);
}

pub start-IsSound : (c : ℕ) → IsSound (start c)
start-IsSound c = record { distinct = tt; names = tt; balanced = λ h live. omega arith }

pub death-IsSound : (p : ℕ) (m : Manager) → IsSound m → IsSound (svcinfo_death p m)
death-IsSound p m v = record {
  distinct = svcinfo_death-Distinct p m v.distinct;
  names = svcinfo_death-NamesDiffer p m v.names;
  balanced = λ h live. svcinfo_death-Balanced h p m live (v.balanced h live);
}

module _ (sys : System) where
  -- A registration that does not return 0 has changed nothing.
  pub add_unless_zero :
      (fresh : Option ℕ) (s : List ℕ) (handle uid : ℕ) (allow : Bool) (priority spid sid : ℕ)
      (m m' : Manager) (z : ℤ)
      → do_add_service sys fresh s handle uid allow priority spid sid m ≡ some (m', z)
      → (m' ≡ m) ⊎ (z ≡ pos 0)
  unfolding do_add_service
  add_unless_zero fresh s handle uid allow priority spid sid m m' z e = ground arith

  add-IsSound :
      (fresh : Option ℕ) (s : List ℕ) (handle uid : ℕ) (allow : Bool) (priority spid sid : ℕ)
      (m m' : Manager) (z : ℤ)
      → IsFresh fresh m.svclist
      → do_add_service sys fresh s handle uid allow priority spid sid m ≡ some (m', z)
      → IsSound m
      → IsSound m'
  add-IsSound fresh s handle uid allow priority spid sid m m' z f e v =
      elim (add_unless_zero fresh s handle uid allow priority spid sid m m' z e) [
        | inl same ↦ subst IsSound (sym same) v
        | inr zero ↦
            let e' : do_add_service sys fresh s handle uid allow priority spid sid m
                ≡ some (m', pos 0) =
              rw zero at e in
            record {
              distinct =
                  (do_add_service-handle_of sys fresh s handle uid allow priority spid sid m m'
                    v.distinct f e').0;
              names =
                  do_add_service-NamesDiffer sys fresh s handle uid allow priority spid sid m m' e'
                    v.names;
              balanced = λ h live.
                  do_add_service-Balanced sys fresh s handle uid allow priority spid sid m m' h
                    v.distinct e' live (v.balanced h live);
            }
      ]

  module _ (abi : Abi) where
    -- One thing that happens to the manager: a transaction that is answered, with an address from
    -- `malloc` that no node has, or the notification of a death.
    pub data Step (m m' : Manager) : Type 0 where
      transact :
          (ans : Answers) (txn : TransactionSecctx) (msg : BinderIo) (reply reply' : Parcel) (z : ℤ)
          → IsFresh ans.fresh m.svclist
          → svcmgr_handler sys abi ans m txn msg reply ≡ some (m', reply', z)
          → Step m m'
      death : (p : ℕ) → m' ≡ svcinfo_death p m → Step m m'

    pub data Reach (m : Manager) : Manager → Type 0 where
      here : Reach m m
      next : {m' m'' : Manager} → Reach m m' → Step m' m'' → Reach m m''

    -- A transaction keeps the manager sound.
    pub svcmgr_handler-IsSound :
        (ans : Answers) (m : Manager) (txn : TransactionSecctx) (msg : BinderIo) (reply : Parcel)
        → IsFresh ans.fresh m.svclist
        → IsSound m
        → After IsSound (svcmgr_handler sys abi ans m txn msg reply)
    svcmgr_handler-IsSound ans m txn msg reply f v =
        svcmgr_handler-After sys abi IsSound ans m txn msg reply (λ m' l w. IsSound-same m m' l w v)
          (λ n l w s handle uid allow priority spid sid m' z' added.
            add-IsSound ans.fresh s handle uid allow priority spid sid n m' z' (rw l f) added
              (IsSound-same m n l w v))

    Step-IsSound : {m m' : Manager} → Step m m' → IsSound m → IsSound m'
    Step-IsSound {m} (transact ans txn msg reply reply' z f e) v =
        subst (After IsSound) e (svcmgr_handler-IsSound ans m txn msg reply f v)
    Step-IsSound {m} (death p e) v = subst IsSound (sym e) (death-IsSound p m v)

    -- However transactions and deaths follow one another from the start, the nodes have distinct
    -- addresses and distinct names, and as many references have been taken on each handle but 0 as were given back or
    -- belong to nodes that hold it.
    pub Reach-IsSound : (c : ℕ) {m : Manager} → Reach (start c) m → IsSound m
    Reach-IsSound c here = start-IsSound c
    Reach-IsSound c (next r s) = Step-IsSound s (Reach-IsSound c r)
