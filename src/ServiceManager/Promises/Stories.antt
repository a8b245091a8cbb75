-- ===== src/ServiceManager/Promises/Stories.antt =====
-- What Demos/BinderCDemo/service_manager.c promises for a history of transactions and deaths: the map
-- from names to handles that its requests and the deaths of its nodes make.
use mathlib.Core.Path.{subst}
use android_source_learn.Prelude.{
  ℕ, ◌≡◌, refl, sym, ap, ◌∙◌, Option, none, some, List, if◌then◌else◌, Option-cases, inl, inr,
}
use android_source_learn.Abi.{Abi}
use android_source_learn.ServiceManager.Access.{System}
use android_source_learn.ServiceManager.Registry.{
  Svcinfo, Manager, same_name, find_svc, deref, svcinfo_death,
}
use android_source_learn.ServiceManager.Registry.Lookup.{handle_of, handle_of-svcinfo_death}
use android_source_learn.ServiceManager.Registry.Names.{find_svc-deref}
use android_source_learn.ServiceManager.Histories.{
  start, IsSound, Step, transact, death, Reach, here, next, Reach-IsSound,
}
use android_source_learn.ServiceManager.Specification.{Names, handles}
use android_source_learn.ServiceManager.Promises.{answered, Gives, svcmgr_handler-Kept}

-- The map after the death of a node, if there is one: its name has no handle.
abbrev pub forgotten : Option Svcinfo → Names → Names
forgotten none f t = f t
forgotten (some si) f t = if same_name si.name t then 0 else f t

forgotten-same :
    (o : Option Svcinfo) (f g : Names) (t : List ℕ) → f t ≡ g t → forgotten o f t ≡ forgotten o g t
forgotten-same none f g t same = same
forgotten-same (some si) f g t same = rw same refl

module _ (sys : System) (abi : Abi) where
  -- The map that a history makes.
  abbrev pub promised : {m m' : Manager} → Step sys abi m m' → Names → Names
  promised (transact ans txn msg reply reply' z f e) g = answered abi txn msg reply.mem z g
  promised {m} (death p e) g = forgotten (deref p m.svclist) g

  abbrev pub story : {m m' : Manager} → Reach sys abi m m' → Names
  story here = λ t. 0
  story (next r s) = promised s (story r)

  promised-same :
      {m m' : Manager} (s : Step sys abi m m') (f g : Names)
      → ((t : List ℕ) → f t ≡ g t)
      → (t : List ℕ) → promised s f t ≡ promised s g t
  promised-same (transact ans txn msg reply reply' z fresh e) f g same t = rw (same t) refl
  promised-same {m} (death p e) f g same t = forgotten-same (deref p m.svclist) f g t (same t)

  death-forgotten :
      (p : ℕ) (m : Manager)
      → IsSound m
      → (t : List ℕ) → handles (svcinfo_death p m) t ≡ forgotten (deref p m.svclist) (handles m) t
  unfolding svcinfo_death
  death-forgotten p m v t = elim (Option-cases (deref p m.svclist)) [
    | inl gone ↦ rw (gone, svcinfo_death) refl
    | inr (si, there) ↦
        let (found, at) = find_svc-deref p m.svclist si v.names there in
        rw there (
          ap (λ (q : ℕ). handle_of t (svcinfo_death q m)) (sym at)
          ∙ handle_of-svcinfo_death si.name t m si v.distinct found)
  ]

  Step-promised :
      {m m' : Manager} (s : Step sys abi m m')
      → IsSound m
      → (t : List ℕ) → handles m' t ≡ promised s (handles m) t
  Step-promised {m} (transact ans txn msg reply reply' z f e) v t =
      subst
        (Gives
          (λ m' z'. (t : List ℕ) → handles m' t ≡ answered abi txn msg reply.mem z' (handles m) t))
        e (svcmgr_handler-Kept sys abi ans m txn msg reply f v) t
  Step-promised {m} (death p e) v t = ap (λ (n : Manager). handles n t) e ∙ death-forgotten p m v t

  -- The manager implements its promise: after every history of transactions and deaths from the
  -- start, each name has the handle that the history promises for it. That is 0 at the start; a
  -- transaction SVC_MGR_ADD_SERVICE that returns 0 gives the name in its message the handle in its
  -- message, the death of a node takes the handle from the name of that node, and nothing else
  -- changes any name.
  pub handles-story :
      (c : ℕ) {m : Manager} (r : Reach sys abi (start c) m) (t : List ℕ) → handles m t ≡ story r t
  unfolding find_svc
  handles-story c here t = refl
  handles-story c (next {m'} r s) t =
      Step-promised s (Reach-IsSound sys abi c r) t
      ∙ promised-same s (handles m') (story r) (handles-story c r) t
