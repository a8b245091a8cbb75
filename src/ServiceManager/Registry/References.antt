-- ===== src/ServiceManager/Registry/References.antt =====
-- The strong references that the manager takes on handles: each BC_ACQUIRE is matched by the node
-- that holds the handle, or by a later BC_RELEASE.
use android_source_learn.Prelude.{
  ℕ, ◌+◌, ◌<◌, ◌≡◌, Bool, Option, some, List, [], ◌∷◌, ltb, ◌==◌, if◌then◌else◌, Bool-cases,
  Option-cases, inl, inr, arith,
}
use android_source_learn.Prelude.Int.{pos}
use android_source_learn.Binder.Commands.{
  acquire, release, Trace, binder_acquire, binder_release, binder_link_to_death,
}
use android_source_learn.ServiceManager.Access.{System}
use android_source_learn.ServiceManager.Registry.{
  Svcinfo, Manager, deref, set_handle, svcinfo_death, override, do_add_service,
}
use android_source_learn.ServiceManager.Registry.Nodes.{
  Distinct, with_handle, deref-find_svc, deref-set_handle,
}
use android_source_learn.ServiceManager.Registry.Add.{enter_cases, do_add_service-Accepted}

abbrev one_if : Bool → ℕ
one_if b = if b then 1 else 0

abbrev pub acquired : ℕ → Trace → ℕ
acquired h [] = 0
acquired h (acquire k ∷ bs) = one_if (k == h) + acquired h bs
acquired h (_ ∷ bs) = acquired h bs

abbrev pub released : ℕ → Trace → ℕ
released h [] = 0
released h (release k ∷ bs) = one_if (k == h) + released h bs
released h (_ ∷ bs) = released h bs

-- The nodes that hold the handle.
abbrev pub registered : ℕ → List Svcinfo → ℕ
registered h [] = 0
registered h (si ∷ rest) = one_if (si.handle == h) + registered h rest

-- Every reference that was taken on `h` is released or held by a node.
abbrev pub Balanced : ℕ → Manager → Type 0
Balanced h m = acquired h m.written ≡ released h m.written + registered h m.svclist

registered-set_handle :
    (h p k : ℕ) (l : List Svcinfo) (si : Svcinfo)
    → deref p l ≡ some si
    → registered h (set_handle p k l) + one_if (si.handle == h) ≡ registered h l + one_if (k == h)
unfolding deref set_handle
registered-set_handle h p k [] si e = cc
registered-set_handle h p k (x ∷ l) si e = ground (arith, registered-set_handle h p k l si)

pub svcinfo_death-Balanced :
    (h p : ℕ) (m : Manager) → 0 < h → Balanced h m → Balanced h (svcinfo_death p m)
unfolding svcinfo_death binder_release
svcinfo_death-Balanced h p m live b = elim (Option-cases (deref p m.svclist)) [
  | inl gone ↦ ground arith
  | inr (si, e) ↦ ground (arith, registered-set_handle h p 0 m.svclist si e)
]

-- An override leaves one more node with the new handle than there are references.
override-Balanced :
    (h handle : ℕ) (m : Manager) (si : Svcinfo)
    → 0 < h
    → deref si.self m.svclist ≡ some si
    → Balanced h m
    → acquired h (override handle si m).written + one_if (handle == h)
      ≡ released h (override handle si m).written + registered h (override handle si m).svclist
unfolding override svcinfo_death binder_release
override-Balanced h handle m si live e b = elim (Bool-cases (ltb 0 si.handle)) [
  | inl used ↦ ground (
    arith,
    registered-set_handle h si.self 0 m.svclist si e,
    deref-set_handle si.self 0 m.svclist si e,
    registered-set_handle h si.self handle (set_handle si.self 0 m.svclist) (with_handle 0 si),
  )
  | inr dead ↦ ground (arith, registered-set_handle h si.self handle m.svclist si e)
]

-- A registration that returns 0, in a list with distinct addresses, keeps the references on every
-- handle but 0 balanced: as many BC_ACQUIRE as BC_RELEASE and nodes that hold the handle.
pub do_add_service-Balanced :
    (sys : System) (fresh : Option ℕ) (s : List ℕ) (handle uid : ℕ) (allow : Bool)
    (priority spid sid : ℕ) (m m' : Manager) (h : ℕ)
    → Distinct m.svclist
    → do_add_service sys fresh s handle uid allow priority spid sid m ≡ some (m', pos 0)
    → 0 < h
    → Balanced h m
    → Balanced h m'
unfolding binder_acquire binder_link_to_death
do_add_service-Balanced sys fresh s handle uid allow priority spid sid m m' h d e live b =
    let a = do_add_service-Accepted sys fresh s handle uid allow priority spid sid m m' e in
    let taken : acquired h a.entered.written + one_if (handle == h)
        ≡ released h a.entered.written + registered h a.entered.svclist =
      enter_cases
        (λ _ n.
          acquired h n.written + one_if (handle == h)
          ≡ released h n.written + registered h n.svclist)
        fresh s handle allow priority m a.at a.entered a.enter_eq
        (λ si f. override-Balanced h handle m si live (deref-find_svc s m.svclist si d f) b)
        (λ q f g. omega arith) in
    rw a.result (omega (arith, taken))
