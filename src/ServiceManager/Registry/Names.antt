-- ===== src/ServiceManager/Registry/Names.antt =====
-- No two nodes of the service list have the same name.
use android_source_learn.Prelude.{
  ℕ, ◌≡◌, Bool, false, Option, none, some, List, [], ◌∷◌, ◌==◌, Bool-cases, inl, inr, arith,
}
use android_source_learn.Prelude.Int.{pos}
use android_source_learn.ServiceManager.Access.{System}
use android_source_learn.ServiceManager.Registry.{
  Svcinfo, Manager, same_name, find_svc, deref, set_handle, svcinfo_death, override, do_add_service,
}
use android_source_learn.ServiceManager.Registry.Nodes.{All, same_name_comm, same_name_refl}
use android_source_learn.ServiceManager.Registry.Add.{enter_cases, do_add_service-Accepted}

-- The nodes have names other than `s`.
abbrev pub AllOther : List ℕ → List Svcinfo → Type 0
AllOther s l = All (λ x. same_name s x.name ≡ false) l

abbrev pub NamesDiffer : List Svcinfo → Type 0
NamesDiffer [] = Unit {0}
NamesDiffer (si ∷ rest) = AllOther si.name rest × NamesDiffer rest

set_handle-AllOther :
    (s : List ℕ) (p h : ℕ) (l : List Svcinfo) → AllOther s l → AllOther s (set_handle p h l)
unfolding set_handle
set_handle-AllOther s p h [] a = tt
set_handle-AllOther s p h (x ∷ l) a = ground (arith, set_handle-AllOther s p h l a.1)

set_handle-NamesDiffer :
    (p h : ℕ) (l : List Svcinfo) → NamesDiffer l → NamesDiffer (set_handle p h l)
unfolding set_handle
set_handle-NamesDiffer p h [] d = tt
set_handle-NamesDiffer p h (x ∷ l) d =
    ground (arith, set_handle-NamesDiffer p h l d.1, set_handle-AllOther x.name p h l d.0)

find_svc-AllOther : (s : List ℕ) (l : List Svcinfo) → find_svc s l ≡ none → AllOther s l
unfolding find_svc
find_svc-AllOther s [] e = tt
find_svc-AllOther s (x ∷ l) e = ground (arith, find_svc-AllOther s l)

deref-AllOther :
    (s : List ℕ) (p : ℕ) (l : List Svcinfo) (si : Svcinfo)
    → AllOther s l
    → deref p l ≡ some si
    → same_name s si.name ≡ false
unfolding deref
deref-AllOther s p [] si a e = cc
deref-AllOther s p (x ∷ l) si a e = ground (arith, deref-AllOther s p l si a.1)

-- The node at an address is the one that its name finds.
pub find_svc-deref :
    (p : ℕ) (l : List Svcinfo) (si : Svcinfo)
    → NamesDiffer l
    → deref p l ≡ some si
    → (find_svc si.name l ≡ some si) × (si.self ≡ p)
unfolding find_svc deref
find_svc-deref p [] si d e = cc
find_svc-deref p (x ∷ l) si d e = elim (Bool-cases (x.self == p)) [
  | inl here ↦ ground (arith, same_name_refl x.name)
  | inr later ↦ ground (
    arith,
    find_svc-deref p l si d.1,
    deref-AllOther x.name p l si d.0,
    same_name_comm si.name x.name,
  )
]

pub svcinfo_death-NamesDiffer :
    (p : ℕ) (m : Manager) → NamesDiffer m.svclist → NamesDiffer (svcinfo_death p m).svclist
unfolding svcinfo_death
svcinfo_death-NamesDiffer p m d = ground (arith, set_handle-NamesDiffer p 0 m.svclist d)

override-NamesDiffer :
    (handle : ℕ) (si : Svcinfo) (m : Manager)
    → NamesDiffer m.svclist
    → NamesDiffer (override handle si m).svclist
unfolding override
override-NamesDiffer handle si m d = ground (
  arith,
  set_handle-NamesDiffer si.self handle m.svclist d,
  set_handle-NamesDiffer si.self handle (svcinfo_death si.self m).svclist
      (svcinfo_death-NamesDiffer si.self m d),
)

-- A registration that returns 0 adds a name only if no node has it.
pub do_add_service-NamesDiffer :
    (sys : System) (fresh : Option ℕ) (s : List ℕ) (handle uid : ℕ) (allow : Bool)
    (priority spid sid : ℕ) (m m' : Manager)
    → do_add_service sys fresh s handle uid allow priority spid sid m ≡ some (m', pos 0)
    → NamesDiffer m.svclist
    → NamesDiffer m'.svclist
do_add_service-NamesDiffer sys fresh s handle uid allow priority spid sid m m' e d =
    let a = do_add_service-Accepted sys fresh s handle uid allow priority spid sid m m' e in
    let kept : NamesDiffer a.entered.svclist =
      enter_cases (λ _ n. NamesDiffer n.svclist) fresh s handle allow priority m a.at a.entered
        a.enter_eq (λ si f. override-NamesDiffer handle si m d)
        (λ q f g. (find_svc-AllOther s m.svclist f, d)) in
    rw a.result kept
