-- ===== src/ServiceManager/Registry/Lookup.antt =====
-- The service list as a map from names to handles, and what each operation does to that map.
use android_source_learn.Prelude.{
  ℕ, ◌<◌, ◌≡◌, sym, ap, ◌≢◌, ◌⊎◌, Bool, true, false, Option, none, some, List, ◌∷◌, ltb,
  if◌then◌else◌, Bool-cases, Option-cases, inl, inr, arith,
}
use android_source_learn.ServiceManager.Access.{System, svc_can_find, is_isolated}
use android_source_learn.ServiceManager.Registry.{
  Svcinfo, Manager, same_name, find_svc, set_handle, svcinfo_death, override, new_svcinfo,
  do_find_service,
}
use android_source_learn.ServiceManager.Registry.Nodes.{
  All, Distinct, with_handle, deref-find_svc, set_handle-Distinct, find_svc-set_handle,
  same_name_sound, same_name_refl, same_name_comm,
}

-- The abstract view: the handle behind a name, 0 if there is none.
abbrev pub handle_at : Option Svcinfo → ℕ
handle_at none = 0
handle_at (some si) = si.handle

abbrev pub handle_of : List ℕ → Manager → ℕ
handle_of s m = handle_at (find_svc s m.svclist)

-- What `malloc` gives is no address of a node.
abbrev pub IsFresh : Option ℕ → List Svcinfo → Type 0
IsFresh none l = Unit {0}
IsFresh (some p) l = All (λ x. x.self ≢ p) l

-- Names that compare equal find the same node.
find_svc-same :
    (s t : List ℕ) (l : List Svcinfo) → same_name s t ≡ true → find_svc t l ≡ find_svc s l
find_svc-same s t l h = ap (λ n. find_svc n l) (sym (same_name_sound s t h))

-- After the death of the node of `s` the name has no handle, and other names keep theirs.
pub handle_of-svcinfo_death :
    (s t : List ℕ) (m : Manager) (si : Svcinfo)
    → Distinct m.svclist
    → find_svc s m.svclist ≡ some si
    → handle_of t (svcinfo_death si.self m) ≡ (if same_name s t then 0 else handle_of t m)
unfolding svcinfo_death
handle_of-svcinfo_death s t m si d e = ground (
  arith,
  deref-find_svc s m.svclist si d e,
  find_svc-set_handle s t 0 m.svclist si d e,
  find_svc-same s t m.svclist,
)

pub svcinfo_death-Distinct :
    (p : ℕ) (m : Manager) → Distinct m.svclist → Distinct (svcinfo_death p m).svclist
unfolding svcinfo_death
svcinfo_death-Distinct p m d = ground (arith, set_handle-Distinct p 0 m.svclist d)

-- The node of `s` after `svcinfo_death` at its own address.
find_svc-svcinfo_death :
    (s : List ℕ) (m : Manager) (si : Svcinfo)
    → Distinct m.svclist
    → find_svc s m.svclist ≡ some si
    → 0 < si.handle
    → find_svc s (svcinfo_death si.self m).svclist ≡ some (with_handle 0 si)
unfolding svcinfo_death
find_svc-svcinfo_death s m si d e live = ground (
  arith,
  deref-find_svc s m.svclist si d e,
  find_svc-set_handle s s 0 m.svclist si d e,
  same_name_refl s,
)

-- An override gives the node of `s` the new handle and keeps all else of it; other names find
-- what they found.
pub find_svc-override :
    (s t : List ℕ) (handle : ℕ) (m : Manager) (si : Svcinfo)
    → Distinct m.svclist
    → find_svc s m.svclist ≡ some si
    → find_svc t (override handle si m).svclist
      ≡ (if same_name s t then some (with_handle handle si) else find_svc t m.svclist)
unfolding override svcinfo_death
find_svc-override s t handle m si d e = elim (Bool-cases (ltb 0 si.handle)) [
  | inl live ↦ ground (
    arith,
    deref-find_svc s m.svclist si d e,
    find_svc-set_handle s t 0 m.svclist si d e,
    find_svc-set_handle s s 0 m.svclist si d e,
    same_name_refl s,
    set_handle-Distinct si.self 0 m.svclist d,
    find_svc-set_handle s t handle (set_handle si.self 0 m.svclist) (with_handle 0 si),
  )
  | inr dead ↦ rw dead (find_svc-set_handle s t handle m.svclist si d e)
]

pub override-Distinct :
    (handle : ℕ) (m : Manager) (si : Svcinfo)
    → Distinct m.svclist
    → Distinct (override handle si m).svclist
unfolding override
override-Distinct handle m si d = ground (
  arith,
  svcinfo_death-Distinct si.self m d,
  set_handle-Distinct si.self handle m.svclist d,
  set_handle-Distinct si.self handle (svcinfo_death si.self m).svclist,
)

-- What a registration that succeeds has entered.
pub record Entered (s : List ℕ) (handle : ℕ) (m m' : Manager) : Type 0 where
  pub distinct : Distinct m'.svclist
  pub handles : (t : List ℕ) → handle_of t m' ≡ (if same_name s t then handle else handle_of t m)

pub new-Entered :
    (p : ℕ) (s : List ℕ) (handle : ℕ) (allow : Bool) (priority : ℕ) (m : Manager)
    → Distinct m.svclist
    → IsFresh (some p) m.svclist
    → Entered s handle m (record m { svclist = new_svcinfo p s handle allow priority ∷ m.svclist })
unfolding find_svc
new-Entered p s handle allow priority m d f = record {
  distinct = (f, d);
  handles = λ t. ground (arith, same_name_comm s t);
}

pub override-Entered :
    (s : List ℕ) (handle : ℕ) (m : Manager) (si : Svcinfo)
    → Distinct m.svclist
    → find_svc s m.svclist ≡ some si
    → Entered s handle m (override handle si m)
override-Entered s handle m si d e = record {
  distinct = override-Distinct handle m si d;
  handles = λ t. ground (arith, find_svc-override s t handle m si d e);
}

-- A service is found only under a live handle, for a caller that its flags and the policy admit.
pub do_find_service-found :
    (sys : System) (s : List ℕ) (uid spid sid : ℕ) (m : Manager) (h : ℕ)
    → do_find_service sys s uid spid sid m ≡ some h
    → 0 < h
    → (handle_of s m ≡ h)
      × (svc_can_find sys m.sehandle s spid sid uid ≡ some true)
      × ((is_isolated sys uid ≡ false)
          ⊎ ((si : Svcinfo) × (find_svc s m.svclist ≡ some si) × (si.allow_isolated ≡ true)))
unfolding do_find_service
do_find_service-found sys s uid spid sid m h e live = elim (Option-cases (find_svc s m.svclist)) [
  | inl gone ↦ absurd (ground arith)
  | inr (si, got) ↦ (
    ground arith,
    ground arith,
    elim (Bool-cases si.allow_isolated) [
      | inl allowed ↦ inr (si, got, allowed)
      | inr guarded ↦ inl (ground arith)
    ],
  )
]

-- A caller that may find the service is given its handle.
pub do_find_service-live :
    (sys : System) (s : List ℕ) (handle uid spid sid : ℕ) (m : Manager)
    → handle_of s m ≡ handle
    → is_isolated sys uid ≡ false
    → svc_can_find sys m.sehandle s spid sid uid ≡ some true
    → do_find_service sys s uid spid sid m ≡ some handle
unfolding do_find_service
do_find_service-live sys s handle uid spid sid m has outside allowed =
    elim (Option-cases (find_svc s m.svclist)) [
      | inl missing ↦ rw (missing, do_find_service) (ap some (rw missing at has))
      | inr (si, found) ↦
          let same : si.handle ≡ handle = rw found at has in
          rw (found, do_find_service) (ground (arith, same, outside, allowed))
    ]
