-- ===== src/Memory.antt =====
-- The byte-addressed memory that the C code reads and writes through pointers: an address is a
-- number, words are little-endian, and a `size_t` and a pointer have 64 bits.
pub mod Frame
pub mod Units
use android_source_learn.Prelude.{
  ℕ, zero, suc, ◌+◌, ◌*◌, ◌/◌, ◌%◌, ◌^◌, List, [], ◌∷◌, ◌==◌, if◌then◌else◌,
}

abbrev pub Memory : Type 0
Memory = ℕ → ℕ

unfoldable pub set_byte : Memory → ℕ → ℕ → Memory
set_byte m p v q = if q == p then v % 256 else m q

-- An `n`-byte little-endian word.
unfoldable pub store : ℕ → Memory → ℕ → ℕ → Memory
store zero m p v = m
store (suc n) m p v = store n (set_byte m p v) (p + 1) (v / 256)

unfoldable pub load : ℕ → Memory → ℕ → ℕ
load zero m p = 0
load (suc n) m p = m p % 256 + 256 * load n m (p + 1)

-- An array of `uint16_t`.
unfoldable pub store_units : Memory → ℕ → List ℕ → Memory
store_units m p [] = m
store_units m p (x ∷ xs) = store_units (store 2 m p x) (p + 2) xs

unfoldable pub load_units : Memory → ℕ → ℕ → List ℕ
load_units m p zero = []
load_units m p (suc n) = load 2 m p ∷ load_units m (p + 2) n

-- `size_t` arithmetic wraps at 64 bits.
abbrev pub size_mod : ℕ
size_mod = 2 ^ 64
