-- ===== src/Memory/Units.antt =====
-- Arrays of code units in memory.
use android_source_learn.Prelude.{
  ℕ, zero, suc, ◌+◌, ◌*◌, ◌%◌, ◌^◌, ◌≡◌, refl, ◌∙◌, ap, List, [], ◌∷◌, ◌++◌, map, length, arith,
}
use mathlib.Core.Path.{ap₂}
use android_source_learn.Memory.{Memory, store, store_units, load_units}
use android_source_learn.Memory.Frame.{
  Outside, Agree, store-Outside, load-Agree, load2-store, Copied, Copied-part, load-Copied,
}

abbrev pub unit16 : ℕ → ℕ
unit16 x = x % 2 ^ 16

pub store_units-Outside :
    (m : Memory) (p : ℕ) (xs : List ℕ) (q : ℕ)
    → Outside p (2 * length xs) q
    → store_units m p xs q ≡ m q
unfolding store_units
store_units-Outside m p [] q o = refl
store_units-Outside m p (x ∷ xs) q o =
    store_units-Outside (store 2 m p x) (p + 2) xs q (omega arith)
    ∙ store-Outside 2 m p x q (omega arith)

pub load_units-Agree :
    (n : ℕ) (m m' : Memory) (p : ℕ) → Agree p (2 * n) m m' → load_units m p n ≡ load_units m' p n
unfolding load_units
load_units-Agree zero m m' p h = refl
load_units-Agree (suc n) m m' p h =
    ap₂ ◌∷◌ (load-Agree 2 m m' p (λ q a b. h q (omega arith) (omega arith)))
      (load_units-Agree n m m' (p + 2) (λ q a b. h q (omega arith) (omega arith)))

-- The units that were stored first are read back, whatever followed them.
pub load_units-store_units :
    (m : Memory) (p : ℕ) (xs ys : List ℕ)
    → load_units (store_units m p (xs ++ ys)) p (length xs) ≡ map unit16 xs
unfolding store_units load_units
load_units-store_units m p [] ys = refl
load_units-store_units m p (x ∷ xs) ys =
    ap₂ ◌∷◌
      (load-Agree 2 _ _ p
          (λ q a b. store_units-Outside (store 2 m p x) (p + 2) (xs ++ ys) q (omega arith))
        ∙ load2-store m p x)
      (load_units-store_units (store 2 m p x) (p + 2) xs ys)

pub length-load_units : (m : Memory) (p n : ℕ) → length (load_units m p n) ≡ n
unfolding load_units
length-load_units m p zero = refl
length-load_units m p (suc n) = ap suc (length-load_units m (p + 2) n)

pub load_units-Copied :
    (n : ℕ) (m : Memory) (p : ℕ) (m' : Memory) (p' : ℕ)
    → Copied (2 * n) m p m' p'
    → load_units m' p' n ≡ load_units m p n
unfolding load_units
load_units-Copied zero m p m' p' h = refl
load_units-Copied (suc n) m p m' p' h =
    ap₂ ◌∷◌ (load-Copied 2 m p m' p' (λ i small. h i (omega arith))) (
      load_units-Copied n m (p + 2) m' (p' + 2)
        (Copied-part 2 (2 * n) (2 * suc n) m p m' p' h (omega arith)))
