-- ===== src/ServiceManager/Registry/Add.antt =====
-- Registration: both branches of `do_add_service`, what it enters, and when it refuses.
use mathlib.Core.Path.{subst, subst₂}
use android_source_learn.Prelude.{
  ℕ, ◌<◌, ◌≤◌, ◌≡◌, ◌⊎◌, Bool, true, false, Option, none, some, List, ◌∷◌, length, if◌then◌else◌,
  Option-cases, inl, inr, arith,
}
use android_source_learn.Prelude.Int.{pos, minus_one}
use android_source_learn.Binder.Commands.{binder_acquire, binder_link_to_death}
use android_source_learn.ServiceManager.Access.{System, svc_can_register}
use android_source_learn.ServiceManager.Registry.{
  Svcinfo, Manager, same_name, find_svc, svcinfo_death, override, new_svcinfo, enter,
  do_add_service,
}
use android_source_learn.ServiceManager.Registry.Nodes.{Distinct, with_handle, same_name_refl}
use android_source_learn.ServiceManager.Registry.Lookup.{
  handle_of, IsFresh, Entered, find_svc-override, override-Entered, new-Entered,
  handle_of-svcinfo_death,
}

-- What holds after both branches of a registration holds after it.
pub enter_cases :
    (P : ℕ → Manager → Type 0) (fresh : Option ℕ) (s : List ℕ) (handle : ℕ) (allow : Bool)
    (priority : ℕ) (m : Manager) (p : ℕ) (m' : Manager)
    → enter fresh s handle allow priority m ≡ some (p, m')
    → ((si : Svcinfo) → find_svc s m.svclist ≡ some si → P si.self (override handle si m))
    → ((q : ℕ)
        → find_svc s m.svclist ≡ none
        → fresh ≡ some q
        → P q (record m { svclist = new_svcinfo q s handle allow priority ∷ m.svclist }))
    → P p m'
unfolding enter
enter_cases P fresh s handle allow priority m p m' h found made =
    elim (Option-cases (find_svc s m.svclist)) [
      | inr (si, e) ↦
          subst₂ P (let at : si.self ≡ p = ground arith in at)
            (let eq : override handle si m ≡ m' = ground arith in eq) (found si e)
      | inl e ↦ elim (Option-cases fresh) [
        | inr (q, g) ↦
            subst₂ P (let at : q ≡ p = ground arith in at)
              (let eq : record m { svclist = new_svcinfo q s handle allow priority ∷ m.svclist }
                    ≡ m' =
                  ground arith in
                eq)
              (made q e g)
        | inl g ↦ absurd (ground arith)
      ]
    ]

pub enter-Entered :
    (fresh : Option ℕ) (s : List ℕ) (handle : ℕ) (allow : Bool) (priority : ℕ) (m : Manager) (p : ℕ)
    (m' : Manager)
    → Distinct m.svclist
    → IsFresh fresh m.svclist
    → enter fresh s handle allow priority m ≡ some (p, m')
    → Entered s handle m m'
enter-Entered fresh s handle allow priority m p m' d f h =
    enter_cases (λ _ m''. Entered s handle m m'') fresh s handle allow priority m p m' h
      (λ si e. override-Entered s handle m si d e)
      (λ q e g. new-Entered q s handle allow priority m d (subst (λ o. IsFresh o m.svclist) g f))

module _ (sys : System) (fresh : Option ℕ) (s : List ℕ) (handle uid : ℕ) (allow : Bool)
    (priority spid sid : ℕ) (m : Manager) where
  -- What a registration that returns 0 went through.
  pub record Accepted (m'' : Manager) : Type 0 where
    pub at : ℕ
    pub entered : Manager
    pub enter_eq : enter fresh s handle allow priority m ≡ some (at, entered)
    pub result : m'' ≡ record entered {
      written = binder_link_to_death handle at (binder_acquire handle entered.written);
    }
    pub handle_pos : 0 < handle
    pub length_pos : 0 < length s
    pub length_le : length s ≤ 127
    pub permitted : svc_can_register sys m.sehandle s spid sid uid ≡ some true

  pub do_add_service-Accepted :
      (m'' : Manager)
      → do_add_service sys fresh s handle uid allow priority spid sid m ≡ some (m'', pos 0)
      → Accepted m''
  unfolding do_add_service
  do_add_service-Accepted m'' h = elim (Option-cases (enter fresh s handle allow priority m)) [
    | inl e ↦ absurd (ground arith)
    | inr ((p, m'), e) ↦ record {
      at = p;
      entered = m';
      enter_eq = e;
      result = ground arith;
      handle_pos = ground arith;
      length_pos = ground arith;
      length_le = ground arith;
      permitted = ground arith;
    }
  ]

-- A registration that returns 0 maps its name to its handle and leaves every other name as it was;
-- the addresses of the nodes stay distinct.
pub do_add_service-handle_of :
    (sys : System) (fresh : Option ℕ) (s : List ℕ) (handle uid : ℕ) (allow : Bool)
    (priority spid sid : ℕ) (m m' : Manager)
    → Distinct m.svclist
    → IsFresh fresh m.svclist
    → do_add_service sys fresh s handle uid allow priority spid sid m ≡ some (m', pos 0)
    → Distinct m'.svclist
      × ((t : List ℕ) → handle_of t m' ≡ (if same_name s t then handle else handle_of t m))
do_add_service-handle_of sys fresh s handle uid allow priority spid sid m m' d f h =
    let a = do_add_service-Accepted sys fresh s handle uid allow priority spid sid m m' h in
    let e = enter-Entered fresh s handle allow priority m a.at a.entered d f a.enter_eq in
    rw a.result (e.distinct, e.handles)

-- A registration that returns -1 changes nothing, and was refused for one of these reasons: the
-- handle is 0, the name is empty or longer than 127 units, the caller lacks the permission, or
-- there is no memory for a new node.
pub do_add_service-refused :
    (sys : System) (fresh : Option ℕ) (s : List ℕ) (handle uid : ℕ) (allow : Bool)
    (priority spid sid : ℕ) (m m' : Manager)
    → do_add_service sys fresh s handle uid allow priority spid sid m ≡ some (m', minus_one)
    → (m' ≡ m)
      × ((handle ≡ 0)
          ⊎ (length s ≡ 0)
          ⊎ (127 < length s)
          ⊎ (svc_can_register sys m.sehandle s spid sid uid ≡ some false)
          ⊎ ((find_svc s m.svclist ≡ none) × (fresh ≡ none)))
unfolding do_add_service enter
do_add_service-refused sys fresh s handle uid allow priority spid sid m m' h = ground arith

-- A name that has a node keeps the flags of its first registration: an override takes over the new
-- handle and nothing else, so the new `allow_isolated` and `dumpsys_priority` are dropped.
pub do_add_service-keeps_flags :
    (sys : System) (fresh : Option ℕ) (s : List ℕ) (handle uid : ℕ) (allow : Bool)
    (priority spid sid : ℕ) (m m' : Manager) (si : Svcinfo)
    → Distinct m.svclist
    → find_svc s m.svclist ≡ some si
    → do_add_service sys fresh s handle uid allow priority spid sid m ≡ some (m', pos 0)
    → find_svc s m'.svclist ≡ some (with_handle handle si)
do_add_service-keeps_flags sys fresh s handle uid allow priority spid sid m m' si d e h =
    let a = do_add_service-Accepted sys fresh s handle uid allow priority spid sid m m' h in
    rw a.result (
      enter_cases (λ _ n. find_svc s n.svclist ≡ some (with_handle handle si)) fresh s handle allow
        priority m a.at a.entered a.enter_eq
        (λ si' e'. ground (arith, find_svc-override s s handle m si d e, same_name_refl s))
        (λ q e' g. absurd (ground arith)))

-- An override keeps the node: the name has the new handle, and loses it when the death of that node
-- is notified.
pub stale_death :
    (sys : System) (fresh : Option ℕ) (s : List ℕ) (handle uid : ℕ) (allow : Bool)
    (priority spid sid : ℕ) (m m' : Manager) (si : Svcinfo)
    → Distinct m.svclist
    → IsFresh fresh m.svclist
    → find_svc s m.svclist ≡ some si
    → do_add_service sys fresh s handle uid allow priority spid sid m ≡ some (m', pos 0)
    → (handle_of s m' ≡ handle) × (handle_of s (svcinfo_death si.self m') ≡ 0)
stale_death sys fresh s handle uid allow priority spid sid m m' si d f e h =
    let kept =
      do_add_service-keeps_flags sys fresh s handle uid allow priority spid sid m m' si d e h in
    let (d', _) =
      do_add_service-handle_of sys fresh s handle uid allow priority spid sid m m' d f h in
    (
      ground arith,
      ground
          (arith, handle_of-svcinfo_death s s m' (with_handle handle si) d' kept, same_name_refl s),
    )
