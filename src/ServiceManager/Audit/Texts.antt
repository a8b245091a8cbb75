-- ===== src/ServiceManager/Audit/Texts.antt =====
-- What `audit_callback` leaves in its buffer.
use android_source_learn.Prelude.{
  ℕ, zero, suc, ◌+◌, ◌-◌, ◌*◌, ◌/◌, ◌%◌, ◌^◌, ◌≤◌, ◌<◌, ◌≡◌, refl, ◌∙◌, none, some, List, [], ◌∷◌,
  ◌++◌, length, take, length-take, ltb, false, ◌==◌, ◌⊎◌, inl, inr, Bool-cases, Option-cases, arith,
  Option,
}
use android_source_learn.Prelude.Int.{ℤ, negsuc, signed32, pos}
use android_source_learn.Memory.{Memory, set_byte}
use android_source_learn.Memory.Frame.{Outside}
use android_source_learn.ServiceManager.Access.{AuditData}
use android_source_learn.ServiceManager.Audit.{
  print_int, digits, audit_text, store_text, audit_callback,
}

-- The number that decimal digits stand for, behind those read before.
abbrev read_digits : ℕ → List ℕ → ℕ
read_digits n [] = n
read_digits n (d ∷ ds) = read_digits (10 * n + (d - 48)) ds

read_digits-last :
    (n : ℕ) (ds : List ℕ) (d : ℕ) → read_digits n (ds ++ d ∷ []) ≡ 10 * read_digits n ds + (d - 48)
read_digits-last n [] d = refl
read_digits-last n (e ∷ ds) d = read_digits-last (10 * n + (e - 48)) ds d

-- The digits of a number are read back as that number: the fuel is enough.
read_digits-digits : (fuel n : ℕ) → n < fuel → read_digits 0 (digits fuel n) ≡ n
unfolding digits
read_digits-digits zero n small = absurd (omega arith)
read_digits-digits (suc fuel) n small = elim (Bool-cases (ltb n 10)) [
  | inl one ↦ rw (one, digits) (omega arith)
  | inr more ↦
      let large : 10 ≤ n = ground arith in
      rw (more, digits)
        (read_digits-last 0 (digits fuel (n / 10)) (48 + n % 10)
          ∙ omega (arith, read_digits-digits fuel (n / 10) (omega arith)))
]

abbrev AreDigits : List ℕ → Type 0
AreDigits [] = Unit {0}
AreDigits (d ∷ ds) = (48 ≤ d) × (d ≤ 57) × AreDigits ds

AreDigits-last : (ds : List ℕ) (d : ℕ) → AreDigits ds → 48 ≤ d → d ≤ 57 → AreDigits (ds ++ d ∷ [])
AreDigits-last [] d a low high = (low, high, tt)
AreDigits-last (e ∷ ds) d (l, h, a) low high = (l, h, AreDigits-last ds d a low high)

digits-AreDigits : (fuel n : ℕ) → AreDigits (digits fuel n)
unfolding digits
digits-AreDigits zero n = tt
digits-AreDigits (suc fuel) n = elim (Bool-cases (ltb n 10)) [
  | inl one ↦ rw (one, digits) (omega arith, ground arith, tt)
  | inr more ↦
      rw (more, digits)
        (AreDigits-last (digits fuel (n / 10)) (48 + n % 10) (digits-AreDigits fuel (n / 10))
          (omega arith) (omega arith))
]

-- A text is the decimal representation of a number.
abbrev pub Prints : ℤ → List ℕ → Type 0
Prints (pos n) ds = AreDigits ds × (read_digits 0 ds ≡ n)
Prints (negsuc n) [] = ⊥
Prints (negsuc n) (c ∷ ds) = (c ≡ b'-') × AreDigits ds × (read_digits 0 ds ≡ n + 1)

print_int-Prints : (z : ℤ) → Prints z (print_int z)
print_int-Prints (pos n) = (digits-AreDigits (n + 1) n, read_digits-digits (n + 1) n (omega arith))
print_int-Prints (negsuc n) =
    (refl, digits-AreDigits (n + 2) (n + 1), read_digits-digits (n + 2) (n + 1) (omega arith))

-- "service=NAME pid=PID uid=UID", with the two numbers as an `int` each.
abbrev pub IsAuditText : List ℕ → (pid uid : ℕ) → List ℕ → Type 0
IsAuditText name pid uid text =
    (p : List ℕ) × (u : List ℕ) × Prints (signed32 (pid % 2 ^ 32)) p
    × Prints (signed32 (uid % 2 ^ 32)) u
    × (text
        ≡ (b's' ∷ b'e' ∷ b'r' ∷ b'v' ∷ b'i' ∷ b'c' ∷ b'e' ∷ b'=' ∷ [])
          ++ name
          ++ (b' ' ∷ b'p' ∷ b'i' ∷ b'd' ∷ b'=' ∷ [])
          ++ p
          ++ (b' ' ∷ b'u' ∷ b'i' ∷ b'd' ∷ b'=' ∷ [])
          ++ u)

-- The bytes of a text, and the terminator.
abbrev pub HoldsText : Memory → ℕ → List ℕ → Type 0
HoldsText m p [] = m p ≡ 0
HoldsText m p (x ∷ xs) = (m p ≡ x % 256) × HoldsText m (p + 1) xs

store_text-Outside :
    (m : Memory) (p : ℕ) (xs : List ℕ) (q : ℕ)
    → Outside p (length xs + 1) q
    → store_text m p xs q ≡ m q
unfolding store_text set_byte
store_text-Outside m p [] q o = ground arith
store_text-Outside m p (x ∷ xs) q o =
    store_text-Outside (set_byte m p x) (p + 1) xs q (omega arith) ∙ ground arith

store_text-HoldsText : (m : Memory) (p : ℕ) (xs : List ℕ) → HoldsText (store_text m p xs) p xs
unfolding store_text set_byte
store_text-HoldsText m p [] = ground arith
store_text-HoldsText m p (x ∷ xs) = (
  store_text-Outside (set_byte m p x) (p + 1) xs p (inl (omega arith)) ∙ ground arith,
  store_text-HoldsText (set_byte m p x) (p + 1) xs,
)

-- What is in the buffer for a caller with a name: the text of the format, cut off to fit.
abbrev pub IsAudited : Option AuditData → (buf len : ℕ) → Memory → Memory → Type 0
IsAudited none buf len m m' = m' ≡ m
IsAudited (some ad) buf len m m' =
    ((ad.name ≡ none) × (m' ≡ m))
    ⊎ ((name : List ℕ) × (text : List ℕ) × (ad.name ≡ some name)
        × IsAuditText name ad.pid ad.uid text
        × HoldsText m' buf (take (len - 1) text))

-- `audit_callback` returns 0 and writes to no byte outside of the `len` bytes at `buf`; without the
-- data or a name it writes nothing, and else, with a buffer that is not empty, it leaves there the
-- text "service=... pid=... uid=..." with the name, the pid and the uid in decimal digits, cut off to
-- fit, with its terminator.
pub audit_callback-IsAudited :
    (data' : Option AuditData) (buf len : ℕ) (m : Memory)
    → 0 < len
    → let (z, m') = audit_callback data' buf len m in
      (z ≡ pos 0) × ((q : ℕ) → Outside buf len q → m' q ≡ m q) × IsAudited data' buf len m m'
unfolding audit_callback
audit_callback-IsAudited none buf len m live = (refl, λ q o. refl, refl)
audit_callback-IsAudited (some ad) buf len m live = elim (Option-cases ad.name) [
  | inl unnamed ↦ rw (unnamed, audit_callback) (refl, λ q o. refl, inl (refl, refl))
  | inr (name, named) ↦
      let text = audit_text name ad.pid ad.uid in
      let filled : (len == 0) ≡ false = ground arith in
      rw (named, audit_callback)
        (rw filled (
          refl,
          λ q o.
              store_text-Outside m buf (take (len - 1) text) q
                (omega (arith, length-take (len - 1) text)),
          inr (
            name,
            text,
            refl,
            (print_int _, print_int _, print_int-Prints _, print_int-Prints _, refl),
            store_text-HoldsText m buf (take (len - 1) text),
          ),
        ))
]
