-- ===== src/Memory/Frame.antt =====
-- What a store leaves alone, and what a load gives back.
use android_source_learn.Prelude.{
  ℕ, zero, suc, ◌+◌, ◌*◌, ◌/◌, ◌%◌, ◌^◌, ◌≤◌, ◌<◌, ◌≡◌, refl, ◌⊎◌, inl, ◌∙◌, ap, arith,
}
use android_source_learn.Memory.{Memory, set_byte, store, load}

-- `q` lies outside the `n` bytes at `p`.
abbrev pub Outside : ℕ → ℕ → ℕ → Type 0
Outside p n q = (q < p) ⊎ (p + n ≤ q)

-- The two memories hold the same bytes from `p` on, `n` of them.
abbrev pub Agree : ℕ → ℕ → Memory → Memory → Type 0
Agree p n m m' = (q : ℕ) → p ≤ q → q < p + n → m q ≡ m' q

pub store-Outside : (n : ℕ) (m : Memory) (p v q : ℕ) → Outside p n q → store n m p v q ≡ m q
unfolding store set_byte
store-Outside zero m p v q o = refl
store-Outside (suc n) m p v q o =
    store-Outside n (set_byte m p v) (p + 1) (v / 256) q (omega arith) ∙ ground arith

pub load-Agree : (n : ℕ) (m m' : Memory) (p : ℕ) → Agree p n m m' → load n m p ≡ load n m' p
unfolding load
load-Agree zero m m' p h = refl
load-Agree (suc n) m m' p h = omega (
  arith,
  ap (λ (b : ℕ). b % 256) (h p (omega arith) (omega arith)),
  load-Agree n m m' (p + 1) (λ q a b. h q (omega arith) (omega arith)),
)

-- The lowest `n` bytes of a number.
abbrev pub low_bytes : ℕ → ℕ → ℕ
low_bytes zero v = 0
low_bytes (suc n) v = v % 256 + 256 * low_bytes n (v / 256)

pub load-store_self : (n : ℕ) (m : Memory) (p v : ℕ) → load n (store n m p v) p ≡ low_bytes n v
unfolding load store
load-store_self zero m p v = refl
load-store_self (suc n) m p v = omega (
  arith,
  store-Outside n (set_byte m p v) (p + 1) (v / 256) p (inl (omega arith)),
  set_byte_self m p v,
  load-store_self n (set_byte m p v) (p + 1) (v / 256),
)
  where
    set_byte_self : (m : Memory) (p v : ℕ) → set_byte m p v p ≡ v % 256
    set_byte_self m p v = unfold set_byte in ground arith

pub load2-store : (m : Memory) (p v : ℕ) → load 2 (store 2 m p v) p ≡ v % 2 ^ 16
load2-store m p v = omega (arith, load-store_self 2 m p v)

pub load4-store : (m : Memory) (p v : ℕ) → load 4 (store 4 m p v) p ≡ v % 2 ^ 32
load4-store m p v = omega (arith, load-store_self 4 m p v)

pub load8-store : (m : Memory) (p v : ℕ) → load 8 (store 8 m p v) p ≡ v % 2 ^ 64
load8-store m p v = omega (arith, load-store_self 8 m p v)

pub load2-lt : (m : Memory) (p : ℕ) → load 2 m p < 2 ^ 16
unfolding load
load2-lt m p = omega arith

pub load4-lt : (m : Memory) (p : ℕ) → load 4 m p < 2 ^ 32
unfolding load
load4-lt m p = omega arith

-- The `n` bytes at `p'` of the second memory are those at `p` of the first.
abbrev pub Copied : ℕ → Memory → ℕ → Memory → ℕ → Type 0
Copied n m p m' p' = (i : ℕ) → i < n → m' (p' + i) ≡ m (p + i)

-- A part of what was copied.
pub Copied-part :
    (d k n : ℕ) (m : Memory) (p : ℕ) (m' : Memory) (p' : ℕ)
    → Copied n m p m' p'
    → d + k ≤ n
    → Copied k m (p + d) m' (p' + d)
Copied-part d k n m p m' p' h fits i small =
    ap m' (omega arith) ∙ h (d + i) (omega arith) ∙ ap m (omega arith)

pub load-Copied :
    (n : ℕ) (m : Memory) (p : ℕ) (m' : Memory) (p' : ℕ)
    → Copied n m p m' p'
    → load n m' p' ≡ load n m p
unfolding load
load-Copied zero m p m' p' h = refl
load-Copied (suc n) m p m' p' h =
    let first : m' p' ≡ m p = ap m' (omega arith) ∙ h 0 (omega arith) ∙ ap m (omega arith) in
    omega (
      arith,
      ap (λ (b : ℕ). b % 256) first,
      load-Copied n m (p + 1) m' (p' + 1) (Copied-part 1 n (suc n) m p m' p' h (omega arith)),
    )

-- A load from bytes that a store does not touch.
pub load-store_apart :
    (n k : ℕ) (m : Memory) (p v q : ℕ)
    → (q + n ≤ p) ⊎ (p + k ≤ q)
    → load n (store k m p v) q ≡ load n m q
load-store_apart n k m p v q o =
    load-Agree n (store k m p v) m q (λ r a b. store-Outside k m p v r (omega arith))
