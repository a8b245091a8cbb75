-- ===== src/ServiceManager/Strings/Laws.antt =====
-- What the string helpers compute.
use android_source_learn.Prelude.{
  ℕ, zero, suc, ◌%◌, ◌≤◌, ◌<◌, ◌≡◌, refl, ap, ◌↔◌, true, List, [], ◌∷◌, map, length, take, ◌==◌,
  ltb, if◌then◌else◌, Bool-cases, inl, inr, arith,
}
use android_source_learn.Bio.{c_string}
use android_source_learn.ServiceManager.Strings.{str8_loop, str8, str16eq}

abbrev pub low_byte : ℕ → ℕ
low_byte c = c % 256

str8_loop-eq : (max : ℕ) (x : List ℕ) → str8_loop max x ≡ map low_byte (take max (c_string x))
unfolding str8_loop c_string
str8_loop-eq zero x = refl
str8_loop-eq (suc max) [] = refl
str8_loop-eq (suc max) (c ∷ x) = elim (Bool-cases (c == 0)) [
  | inl stop ↦ rw stop
  | inr more ↦ rw more (ap (λ r. c % 256 ∷ r) (str8_loop-eq max x))
]

length-str8_loop : (max : ℕ) (x : List ℕ) → length (str8_loop max x) ≤ max
unfolding str8_loop
length-str8_loop zero x = omega arith
length-str8_loop (suc max) [] = omega arith
length-str8_loop (suc max) (c ∷ x) = ground (arith, length-str8_loop max x)

-- `str8` keeps the units before the first zero, `x_len` and 127 of them at most, each cut to its
-- lowest byte; so with the terminator it never leaves its buffer of 128 bytes.
pub str8-prefix :
    (x : List ℕ) (x_len : ℕ)
    → (str8 x x_len ≡ map low_byte (take (if ltb x_len 127 then x_len else 127) (c_string x)))
      × (length (str8 x x_len) < 128)
unfolding str8
str8-prefix x x_len = (
  str8_loop-eq (if ltb x_len 127 then x_len else 127) x,
  ground (arith, length-str8_loop (if ltb x_len 127 then x_len else 127) x),
)

-- `str16eq` holds exactly of two strings with the same units before their first zeros.
pub str16eq_iff : (a b : List ℕ) → (str16eq a b ≡ true) ↔ (c_string a ≡ c_string b)
unfolding str16eq c_string
str16eq_iff [] [] = (λ _. refl, λ _. refl)
str16eq_iff [] (d ∷ b) = ground arith
str16eq_iff (c ∷ a) [] = ground arith
str16eq_iff (c ∷ a) (d ∷ b) = ground (arith, str16eq_iff a b)
