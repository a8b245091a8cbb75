-- ===== src/ServiceManager/Registry/Commuting.antt =====
-- Registrations as the look-ups see them, and the order in which they are made.
use mathlib.Core.Quot
use mathlib.Core.Quot.{Quot, Quot-set}
use android_source_learn.Prelude.{
  not, ◌&&◌, ◌==◌, ℕ, ◌≡◌, refl, sym, ◌∙◌, ap, Bool, false, Option, none, some, List, ◌∷◌,
  if◌then◌else◌, Bool-cases, Option-cases, inl, inr,
}
use android_source_learn.Prelude.Int.{pos}
use android_source_learn.ServiceManager.Access.{System, is_isolated, svc_can_find}
use android_source_learn.ServiceManager.Registry.{
  Svcinfo, Manager, same_name, find_svc, override, new_svcinfo, do_find_service, do_add_service,
}
use android_source_learn.ServiceManager.Registry.Nodes.{Distinct, same_name_comm}
use android_source_learn.ServiceManager.Registry.Lookup.{IsFresh, find_svc-override}
use android_source_learn.ServiceManager.Registry.Add.{
  enter_cases, do_add_service-Accepted, do_add_service-handle_of,
}
use android_source_learn.ServiceManager.Registry.Views.{
  shown, updated, SameServices, registry_of, put_service, put_service-shown, publish, publish_comm,
  Shown, look_up,
}

-- What an override and a new node show.
override-shown :
    (s t : List ℕ) (handle : ℕ) (allow : Bool) (priority : ℕ) (m : Manager) (si : Svcinfo)
    → Distinct m.svclist
    → find_svc s m.svclist ≡ some si
    → shown (find_svc t (override handle si m).svclist) ≡ (
        if same_name s t
        then some (updated handle allow priority (shown (find_svc s m.svclist)))
        else shown (find_svc t m.svclist))
override-shown s t handle allow priority m si d e = elim (Bool-cases (same_name s t)) [
  | inl same ↦ rw (find_svc-override s t handle m si d e, same, e) refl
  | inr other ↦ rw (find_svc-override s t handle m si d e, other) refl
]

new_svcinfo-shown :
    (p : ℕ) (s t : List ℕ) (handle : ℕ) (allow : Bool) (priority : ℕ) (l : List Svcinfo)
    → find_svc s l ≡ none
    → shown (find_svc t (new_svcinfo p s handle allow priority ∷ l)) ≡ (
        if same_name s t
        then some (updated handle allow priority (shown (find_svc s l)))
        else shown (find_svc t l))
unfolding find_svc
new_svcinfo-shown p s t handle allow priority l e = elim (Bool-cases (same_name s t)) [
  | inl same ↦ rw (same_name_comm t s ∙ same, same, e) refl
  | inr other ↦ rw (same_name_comm t s ∙ other, other) refl
]

-- A registration that returns 0 does to the view what `publish` does.
pub do_add_service-publish :
    (sys : System) (fresh : Option ℕ) (s : List ℕ) (handle uid : ℕ) (allow : Bool)
    (priority spid sid : ℕ) (m m' : Manager)
    → Distinct m.svclist
    → do_add_service sys fresh s handle uid allow priority spid sid m ≡ some (m', pos 0)
    → registry_of m' ≡ publish s handle allow priority (registry_of m)
unfolding publish
do_add_service-publish sys fresh s handle uid allow priority spid sid m m' d h =
    let a = do_add_service-Accepted sys fresh s handle uid allow priority spid sid m m' h in
    let entered : SameServices a.entered.svclist (put_service s handle allow priority m.svclist) =
      enter_cases (λ _ n. SameServices n.svclist (put_service s handle allow priority m.svclist))
        fresh s handle allow priority m a.at a.entered a.enter_eq
        (λ si e t.
          override-shown s t handle allow priority m si d e
          ∙ sym (put_service-shown s t handle allow priority m.svclist))
        (λ q e g t.
          new_svcinfo-shown q s t handle allow priority m.svclist e
          ∙ sym (put_service-shown s t handle allow priority m.svclist)) in
    rw a.result (Quot.sound entered)

-- Four registrations that return 0: of `s` and then `t`, and of `t` and then `s`, where the names
-- differ. Both ways the registries are the same to every look-up: whatever addresses the nodes have
-- and in whatever order they are, every name has the same handle and the same flags.
pub do_add_service_comm :
    (sys : System) (p q p' q' : Option ℕ) (s t : List ℕ) (handle handle' uid uid' : ℕ)
    (allow allow' : Bool) (priority priority' spid spid' sid sid' : ℕ) (m m1 m12 m2 m21 : Manager)
    → Distinct m.svclist
    → IsFresh p m.svclist
    → IsFresh q m.svclist
    → same_name s t ≡ false
    → do_add_service sys p s handle uid allow priority spid sid m ≡ some (m1, pos 0)
    → do_add_service sys p' t handle' uid' allow' priority' spid' sid' m1 ≡ some (m12, pos 0)
    → do_add_service sys q t handle' uid' allow' priority' spid' sid' m ≡ some (m2, pos 0)
    → do_add_service sys q' s handle uid allow priority spid sid m2 ≡ some (m21, pos 0)
    → registry_of m12 ≡ registry_of m21
do_add_service_comm sys p q p' q' s t handle handle' uid uid' allow allow' priority priority' spid
      spid' sid sid' m m1 m12 m2 m21 d f g other first second first' second' =
    let d1 =
      (do_add_service-handle_of sys p s handle uid allow priority spid sid m m1 d f first).0 in
    let d2 =
      (do_add_service-handle_of sys q t handle' uid' allow' priority' spid' sid' m m2 d g
        first').0 in
    do_add_service-publish sys p' t handle' uid' allow' priority' spid' sid' m1 m12 d1 second
    ∙ ap (publish t handle' allow' priority')
        (do_add_service-publish sys p s handle uid allow priority spid sid m m1 d first)
    ∙ sym (publish_comm s t handle handle' allow allow' priority priority' (registry_of m) other)
    ∙ sym (
        do_add_service-publish sys q' s handle uid allow priority spid sid m2 m21 d2 second'
        ∙ ap (publish s handle allow priority)
            (do_add_service-publish sys q t handle' uid' allow' priority' spid' sid' m m2 d first'))

-- What a look-up answers, by what is seen of the service.
abbrev answered : System → Option ℕ → List ℕ → (uid spid sid : ℕ) → Option Shown → Option ℕ
answered sys sehandle s uid spid sid none = some 0
answered sys sehandle s uid spid sid (some sh) =
    if sh.handle == 0
    then some 0
    else if not sh.allow_isolated && is_isolated sys uid
    then some 0
    else elim (svc_can_find sys sehandle s spid sid uid) [
      | none ↦ none
      | some allowed ↦ some (if allowed then sh.handle else 0)
    ]

do_find_service-answered :
    (sys : System) (s : List ℕ) (uid spid sid : ℕ) (m : Manager)
    → do_find_service sys s uid spid sid m
      ≡ answered sys m.sehandle s uid spid sid (look_up s (registry_of m))
unfolding do_find_service look_up
do_find_service-answered sys s uid spid sid m = elim (Option-cases (find_svc s m.svclist)) [
  | inl missing ↦ rw (missing, do_find_service) refl
  | inr (si, found) ↦ rw (found, do_find_service) refl
]

-- Managers with the same registry and the same service contexts answer every look-up alike.
pub do_find_service-registry_of :
    (sys : System) (s : List ℕ) (uid spid sid : ℕ) (m m' : Manager)
    → registry_of m ≡ registry_of m'
    → m.sehandle ≡ m'.sehandle
    → do_find_service sys s uid spid sid m ≡ do_find_service sys s uid spid sid m'
do_find_service-registry_of sys s uid spid sid m m' same contexts =
    do_find_service-answered sys s uid spid sid m
    ∙ rw (same, contexts) refl
    ∙ sym (do_find_service-answered sys s uid spid sid m')
