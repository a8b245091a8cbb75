-- ===== src/ServiceManager/Registry/Views.antt =====
-- The service list up to what look-ups see of it: a quotient that forgets the order of the nodes
-- and their addresses.
use mathlib.Core.Quot
use mathlib.Core.Quot.{Quot, Quot-set}
use android_source_learn.Prelude.{
  ℕ, ◌≡◌, refl, sym, ◌∙◌, Bool, false, Option, none, some, List, ◌∷◌, if◌then◌else◌, Bool-cases,
  inl, inr, arith,
}
use android_source_learn.ServiceManager.Registry.{
  Svcinfo, Manager, same_name, find_svc, new_svcinfo,
}
use android_source_learn.ServiceManager.Registry.Nodes.{
  same_name_sound, same_name_refl, same_name_comm,
}

-- What is seen of a service: its handle, `allow_isolated` and its priorities.
pub record Shown : Type 0 where
  pub handle : ℕ
  pub allow_isolated : Bool
  pub dumpsys_priority : ℕ

abbrev pub shown : Option Svcinfo → Option Shown
shown none = none
shown (some si) = some (record {
  handle = si.handle;
  allow_isolated = si.allow_isolated;
  dumpsys_priority = si.dumpsys_priority;
})

-- Two lists show the same service under every name.
abbrev pub SameServices : List Svcinfo → List Svcinfo → Type 0
SameServices l l' = (t : List ℕ) → shown (find_svc t l) ≡ shown (find_svc t l')

-- The registry as look-ups see it.
abbrev pub Registry : Type 0
Registry = Quot SameServices

abbrev pub registry_of : Manager → Registry
registry_of m = Quot.mk m.svclist

-- A name with a service keeps its flags.
abbrev pub updated : ℕ → Bool → ℕ → Option Shown → Shown
updated handle allow priority none = record {
  handle = handle;
  allow_isolated = allow;
  dumpsys_priority = priority;
}
updated handle allow priority (some sh) = record sh { handle = handle }

-- A list that shows the registration: a new node in front hides the one behind it.
abbrev pub put_service : List ℕ → ℕ → Bool → ℕ → List Svcinfo → List Svcinfo
put_service s handle allow priority l =
    let sh = updated handle allow priority (shown (find_svc s l)) in
    new_svcinfo 0 s sh.handle sh.allow_isolated sh.dumpsys_priority ∷ l

pub put_service-shown :
    (s t : List ℕ) (handle : ℕ) (allow : Bool) (priority : ℕ) (l : List Svcinfo)
    → shown (find_svc t (put_service s handle allow priority l)) ≡ (
        if same_name s t
        then some (updated handle allow priority (shown (find_svc s l)))
        else shown (find_svc t l))
unfolding find_svc
put_service-shown s t handle allow priority l = elim (Bool-cases (same_name s t)) [
  | inl same ↦ rw (same_name_comm t s ∙ same, same) refl
  | inr other ↦ rw (same_name_comm t s ∙ other, other) refl
]

pub SameServices-put_service :
    (s : List ℕ) (handle : ℕ) (allow : Bool) (priority : ℕ) (l l' : List Svcinfo)
    → SameServices l l'
    → SameServices (put_service s handle allow priority l) (put_service s handle allow priority l')
SameServices-put_service s handle allow priority l l' same t =
    put_service-shown s t handle allow priority l
    ∙ rw (same s, same t) refl
    ∙ sym (put_service-shown s t handle allow priority l')

-- A registration, as look-ups see it.
unfoldable pub publish : List ℕ → ℕ → Bool → ℕ → Registry → Registry
publish s handle allow priority =
    Quot.lift Quot-set (λ l. Quot.mk (put_service s handle allow priority l))
      (λ l l' same. Quot.sound (SameServices-put_service s handle allow priority l l' same))

put_service_twice :
    (s t u : List ℕ) (handle handle' : ℕ) (allow allow' : Bool) (priority priority' : ℕ)
    (l : List Svcinfo)
    → same_name t s ≡ false
    → shown (
        find_svc u (put_service s handle allow priority (put_service t handle' allow' priority' l)))
      ≡ (if same_name s u
          then some (updated handle allow priority (shown (find_svc s l)))
          else if same_name t u
          then some (updated handle' allow' priority' (shown (find_svc t l)))
          else shown (find_svc u l))
put_service_twice s t u handle handle' allow allow' priority priority' l other =
    put_service-shown s u handle allow priority (put_service t handle' allow' priority' l)
    ∙ rw
        (
          put_service-shown t s handle' allow' priority' l,
          put_service-shown t u handle' allow' priority' l,
          other,
        )
        refl

put_service_swapped :
    (s t : List ℕ) (handle handle' : ℕ) (allow allow' : Bool) (priority priority' : ℕ)
    (l : List Svcinfo)
    → same_name s t ≡ false
    → SameServices
        (put_service s handle allow priority (put_service t handle' allow' priority' l))
        (put_service t handle' allow' priority' (put_service s handle allow priority l))
put_service_swapped s t handle handle' allow allow' priority priority' l other u =
    put_service_twice s t u handle handle' allow allow' priority priority' l
      (same_name_comm t s ∙ other)
    ∙ chosen
    ∙ sym (put_service_twice t s u handle' handle allow' allow priority' priority l other)
  where
    chosen :
        (if same_name s u
          then some (updated handle allow priority (shown (find_svc s l)))
          else if same_name t u
          then some (updated handle' allow' priority' (shown (find_svc t l)))
          else shown (find_svc u l))
        ≡ (if same_name t u
            then some (updated handle' allow' priority' (shown (find_svc t l)))
            else if same_name s u
            then some (updated handle allow priority (shown (find_svc s l)))
            else shown (find_svc u l))
    chosen = ground (arith, same_name_sound s u, same_name_sound t u, same_name_refl u, other)

-- Registrations of different names can be exchanged.
pub publish_comm :
    (s t : List ℕ) (handle handle' : ℕ) (allow allow' : Bool) (priority priority' : ℕ)
    (r : Registry)
    → same_name s t ≡ false
    → publish s handle allow priority (publish t handle' allow' priority' r)
      ≡ publish t handle' allow' priority' (publish s handle allow priority r)
unfolding publish
publish_comm s t handle handle' allow allow' priority priority' r other =
    Quot.ind
      (λ r'.
        Quot-set (publish s handle allow priority (publish t handle' allow' priority' r'))
          (publish t handle' allow' priority' (publish s handle allow priority r')))
      (λ l.
        Quot.sound (put_service_swapped s t handle handle' allow allow' priority priority' l other))
      r

pub Shown-set : IsSet (Option Shown)
Shown-set = hlevel

-- The service under a name.
unfoldable pub look_up : List ℕ → Registry → Option Shown
look_up t = Quot.lift Shown-set (λ l. shown (find_svc t l)) (λ l l' same. same t)
