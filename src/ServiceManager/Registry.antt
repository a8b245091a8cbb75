-- ===== src/ServiceManager/Registry.antt =====
-- The list of services of Demos/BinderCDemo/service_manager.c. A `struct svcinfo` is a record with
-- the address that `malloc` gave it; the callback and the pointer of its `death` are
-- `svcinfo_death` and that address in every node, so they are left out, and the address stands for
-- the cookie `&si->death` too. A name is its `len` units; in memory a zero follows.
pub mod Nodes
pub mod Lookup
pub mod Names
pub mod Add
pub mod Views
pub mod Commuting
pub mod References
use android_source_learn.Prelude.{
  ℕ, zero, suc, ◌%◌, Bool, true, false, Option, none, some, List, [], ◌∷◌, length, ltb, ◌==◌, ◌&&◌,
  ◌||◌, not, if◌then◌else◌,
}
use android_source_learn.Prelude.Int.{ℤ, pos, minus_one}
use android_source_learn.Binder.Commands.{
  Trace, binder_acquire, binder_release, binder_link_to_death,
}
use android_source_learn.ServiceManager.Access.{System, svc_can_register, svc_can_find, is_isolated}

pub record Svcinfo : Type 0 where
  pub self : ℕ
  pub handle : ℕ
  pub allow_isolated : Bool
  pub dumpsys_priority : ℕ
  pub name : List ℕ

-- The globals `svclist` and `sehandle`, and the commands written to the driver.
pub record Manager : Type 0 where
  pub svclist : List Svcinfo
  pub sehandle : Option ℕ
  pub written : Trace

-- `memcmp` of two arrays of units finds no difference.
abbrev pub same_units : List ℕ → List ℕ → Bool
same_units [] b = true
same_units (x ∷ a) [] = false
same_units (x ∷ a) (y ∷ b) = x == y && same_units a b

-- `(len == si->len) && !memcmp(...)`
unfoldable pub same_name : List ℕ → List ℕ → Bool
same_name s name = length s == length name && same_units s name

unfoldable pub find_svc : List ℕ → List Svcinfo → Option Svcinfo
find_svc s [] = none
find_svc s (si ∷ rest) = if same_name s si.name then some si else find_svc s rest

-- The node at an address, and the write of `si->handle` through it.
unfoldable pub deref : ℕ → List Svcinfo → Option Svcinfo
deref p [] = none
deref p (si ∷ rest) = if si.self == p then some si else deref p rest

unfoldable pub set_handle : ℕ → ℕ → List Svcinfo → List Svcinfo
set_handle p h [] = []
set_handle p h (si ∷ rest) =
    if si.self == p then record si { handle = h } ∷ rest else si ∷ set_handle p h rest

unfoldable pub svcinfo_death : ℕ → Manager → Manager
svcinfo_death ptr m = elim (deref ptr m.svclist) [
  | none ↦ m
  | some si ↦
      if ltb 0 si.handle
      then record m {
        svclist = set_handle ptr 0 m.svclist;
        written = binder_release si.handle m.written;
      }
      else m
]

-- The branch of a name that has a node: the death of a live handle, and the new handle.
unfoldable pub override : ℕ → Svcinfo → Manager → Manager
override handle si m =
    let m' = if ltb 0 si.handle then svcinfo_death si.self m else m in
    record m' { svclist = set_handle si.self handle m'.svclist }

abbrev pub new_svcinfo : ℕ → List ℕ → ℕ → Bool → ℕ → Svcinfo
new_svcinfo p s handle allow_isolated dumpsys_priority = record {
  self = p;
  handle = handle;
  allow_isolated = allow_isolated;
  dumpsys_priority = dumpsys_priority;
  name = s;
}

-- The address of the node of `s` and the state after the assignments to it, or nothing if
-- `malloc`, which would return `fresh`, gave NULL.
unfoldable pub enter : Option ℕ → List ℕ → ℕ → Bool → ℕ → Manager → Option (ℕ × Manager)
enter fresh s handle allow_isolated dumpsys_priority m = elim (find_svc s m.svclist) [
  | some si ↦ some (si.self, override handle si m)
  | none ↦ elim fresh [
    | none ↦ none
    | some p ↦
        let si = new_svcinfo p s handle allow_isolated dumpsys_priority in
        some (p, record m { svclist = si ∷ m.svclist })
  ]
]

module _ (sys : System) where
  -- The result `none` is an `abort()`, and 0 says that there is no such service.
  unfoldable pub do_find_service : List ℕ → (uid spid sid : ℕ) → Manager → Option ℕ
  do_find_service s uid spid sid m = elim (find_svc s m.svclist) [
    | none ↦ some 0
    | some si ↦
        if si.handle == 0
        then some 0
        else if not si.allow_isolated && is_isolated sys uid
        then some 0
        else elim (svc_can_find sys m.sehandle s spid sid uid) [
          | none ↦ none
          | some allowed ↦ some (if allowed then si.handle else 0)
        ]
  ]

  -- `fresh` is what `malloc` would return.
  unfoldable pub do_add_service :
      (fresh : Option ℕ) (s : List ℕ) (handle uid : ℕ) (allow_isolated : Bool)
      (dumpsys_priority spid sid : ℕ)
      → Manager
      → Option (Manager × ℤ)
  do_add_service fresh s handle uid allow_isolated dumpsys_priority spid sid m =
      if handle == 0 || length s == 0 || ltb 127 (length s)
      then some (m, minus_one)
      else elim (svc_can_register sys m.sehandle s spid sid uid) [
        | none ↦ none
        | some false ↦ some (m, minus_one)
        | some true ↦ elim (enter fresh s handle allow_isolated dumpsys_priority m) [
          | none ↦ some (m, minus_one)
          | some (p, m') ↦ some (
            record m' {
              written = binder_link_to_death handle p (binder_acquire handle m'.written);
            },
            pos 0,
          )
        ]
      ]
