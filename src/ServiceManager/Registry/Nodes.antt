-- ===== src/ServiceManager/Registry/Nodes.antt =====
-- Nodes of the service list by name and by address.
use mathlib.Core.Path.{subst}
use mathlib.Core.Option.{some-injective}
use android_source_learn.Prelude.{
  ℕ, ◌≡◌, refl, ◌≢◌, ◌↔◌, true, false, some, List, [], ◌∷◌, length, if◌then◌else◌, Bool-cases, inl,
  inr, arith,
}
use android_source_learn.ServiceManager.Registry.{
  Svcinfo, same_units, same_name, find_svc, deref, set_handle,
}

abbrev pub All : (Svcinfo → Type 0) → List Svcinfo → Type 0
All P [] = Unit {0}
All P (si ∷ rest) = P si × All P rest

-- No two nodes have the same address.
abbrev pub Distinct : List Svcinfo → Type 0
Distinct [] = Unit {0}
Distinct (si ∷ rest) = All (λ x. x.self ≢ si.self) rest × Distinct rest

abbrev pub with_handle : ℕ → Svcinfo → Svcinfo
with_handle h si = record si { handle = h }

same_units_sound : (a b : List ℕ) → length a ≡ length b → same_units a b ≡ true → a ≡ b
same_units_sound [] [] e h = refl
same_units_sound [] (y ∷ b) e h = absurd (omega arith)
same_units_sound (x ∷ a) [] e h = cc
same_units_sound (x ∷ a) (y ∷ b) e h = ground (arith, same_units_sound a b)

same_units_refl : (a : List ℕ) → same_units a a ≡ true
same_units_refl [] = refl
same_units_refl (x ∷ a) = ground (arith, same_units_refl a)

pub same_name_sound : (a b : List ℕ) → same_name a b ≡ true → a ≡ b
unfolding same_name
same_name_sound a b h = ground (arith, same_units_sound a b)

pub same_name_refl : (a : List ℕ) → same_name a a ≡ true
unfolding same_name
same_name_refl a = ground (arith, same_units_refl a)

-- The comparison of names decides their equality.
pub same_name_iff : (a b : List ℕ) → (same_name a b ≡ true) ↔ (a ≡ b)
same_name_iff a b = (same_name_sound a b, λ e. rw e (same_name_refl b))

pub same_name_comm : (a b : List ℕ) → same_name a b ≡ same_name b a
same_name_comm a b = ground (arith, same_name_sound a b, same_name_sound b a, same_name_refl a)

-- A name that differs from `n` differs from every name that is `n`.
pub same_name_apart :
    (s t n : List ℕ) → same_name s n ≡ false → same_name t n ≡ true → same_name s t ≡ false
same_name_apart s t n miss hit = rw (same_name_sound t n hit) miss

-- What holds of every node holds of the node that is found.
pub find_svc-All :
    (P : Svcinfo → Type 0) (s : List ℕ) (l : List Svcinfo) (si : Svcinfo)
    → All P l
    → find_svc s l ≡ some si
    → P si
unfolding find_svc
find_svc-All P s [] si h e = cc
find_svc-All P s (x ∷ l) si h e = elim (Bool-cases (same_name s x.name)) [
  | inl hit ↦ subst P (some-injective _ _ (rw hit at e)) h.0
  | inr miss ↦ find_svc-All P s l si h.1 (rw miss at e)
]

pub find_svc-name :
    (s : List ℕ) (l : List Svcinfo) (si : Svcinfo) → find_svc s l ≡ some si → s ≡ si.name
unfolding find_svc
find_svc-name s [] si e = cc
find_svc-name s (x ∷ l) si e = ground (arith, find_svc-name s l si, same_name_sound s x.name)

-- With distinct addresses the node that is found is the one at its address.
pub deref-find_svc :
    (s : List ℕ) (l : List Svcinfo) (si : Svcinfo)
    → Distinct l
    → find_svc s l ≡ some si
    → deref si.self l ≡ some si
unfolding find_svc deref
deref-find_svc s [] si d e = cc
deref-find_svc s (x ∷ l) si d e =
    ground (arith, deref-find_svc s l si d.1, find_svc-All (λ y. y.self ≢ x.self) s l si d.0)

pub deref-set_handle :
    (p h : ℕ) (l : List Svcinfo) (si : Svcinfo)
    → deref p l ≡ some si
    → deref p (set_handle p h l) ≡ some (with_handle h si)
unfolding deref set_handle
deref-set_handle p h [] si e = cc
deref-set_handle p h (x ∷ l) si e = ground (arith, deref-set_handle p h l si)

-- A write of a handle keeps the addresses.
All-set_handle :
    (a p h : ℕ) (l : List Svcinfo)
    → All (λ x. x.self ≢ a) l
    → All (λ x. x.self ≢ a) (set_handle p h l)
unfolding set_handle
All-set_handle a p h [] d = tt
All-set_handle a p h (x ∷ l) d = ground (arith, All-set_handle a p h l d.1)

pub set_handle-Distinct : (p h : ℕ) (l : List Svcinfo) → Distinct l → Distinct (set_handle p h l)
unfolding set_handle
set_handle-Distinct p h [] d = tt
set_handle-Distinct p h (x ∷ l) d =
    ground (arith, set_handle-Distinct p h l d.1, All-set_handle x.self p h l d.0)

-- The node that is found by name, after a write to its handle; other names find what they found.
pub find_svc-set_handle :
    (s t : List ℕ) (h : ℕ) (l : List Svcinfo) (si : Svcinfo)
    → Distinct l
    → find_svc s l ≡ some si
    → find_svc t (set_handle si.self h l)
      ≡ (if same_name s t then some (with_handle h si) else find_svc t l)
unfolding find_svc set_handle
find_svc-set_handle s t h [] si d e = cc
find_svc-set_handle s t h (x ∷ l) si d e = elim (Bool-cases (same_name s x.name)) [
  | inl hit ↦ ground (arith, same_name_sound s x.name hit, same_name_comm s t)
  | inr miss ↦ ground (
    arith,
    find_svc-All (λ y. y.self ≢ x.self) s l si d.0,
    find_svc-set_handle s t h l si d.1,
    same_name_apart s t x.name,
  )
]
