-- ===== src/ServiceManager/Handler/Listing.antt =====
-- SVC_MGR_LIST_SERVICES counts through the services of the requested priorities.
use android_source_learn.Prelude.{
  ℕ, zero, suc, ◌≡◌, refl, List, [], ◌∷◌, get_elem?, if◌then◌else◌, Bool-cases, inl, inr, arith,
}
use android_source_learn.ServiceManager.Registry.{Svcinfo}
use android_source_learn.ServiceManager.Handler.{supports, list_walk}

-- The services that support one of the priorities, in list order.
abbrev pub supporting : ℕ → List Svcinfo → List Svcinfo
supporting req [] = []
supporting req (si ∷ rest) =
    let others = supporting req rest in if supports req si then si ∷ others else others

-- The walk gives the service at index `n` among those that support a requested priority, and none
-- if there are not so many.
pub list_walk-get_elem? :
    (n req : ℕ) (l : List Svcinfo) → list_walk n req l ≡ get_elem? (supporting req l) n
unfolding list_walk
list_walk-get_elem? n req [] = refl
list_walk-get_elem? zero req (si ∷ rest) = elim (Bool-cases (supports req si)) [
  | inl hit ↦ rw hit
  | inr miss ↦ rw miss (list_walk-get_elem? zero req rest)
]
list_walk-get_elem? (suc n) req (si ∷ rest) = elim (Bool-cases (supports req si)) [
  | inl hit ↦ ground (arith, list_walk-get_elem? n req rest)
  | inr miss ↦ rw miss (list_walk-get_elem? (suc n) req rest)
]
