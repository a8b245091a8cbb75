-- ===== src/ServiceManager/Audit.antt =====
-- `audit_callback` of Demos/BinderCDemo/service_manager.c, with what it uses of `snprintf`.
pub mod Texts
use android_source_learn.Prelude.{
  ℕ, zero, suc, ◌+◌, ◌-◌, ◌/◌, ◌%◌, ◌^◌, Option, none, some, List, [], ◌∷◌, ◌++◌, take, ltb, ◌==◌,
  if◌then◌else◌,
}
use android_source_learn.Prelude.Int.{ℤ, pos, negsuc, signed32}
use android_source_learn.Memory.{Memory, set_byte}
use android_source_learn.ServiceManager.Access.{AuditData}

-- The decimal digits of a number, if the fuel is above it.
unfoldable pub digits : ℕ → ℕ → List ℕ
digits zero n = []
digits (suc fuel) n =
    let rest = digits fuel (n / 10) in
    if ltb n 10 then (48 + n) ∷ [] else rest ++ (48 + n % 10) ∷ []

-- `%d`
abbrev pub print_int : ℤ → List ℕ
print_int (pos n) = digits (n + 1) n
print_int (negsuc n) = b'-' ∷ digits (n + 2) (n + 1)

-- "service="
abbrev pub service_label : List ℕ
service_label = b's' ∷ b'e' ∷ b'r' ∷ b'v' ∷ b'i' ∷ b'c' ∷ b'e' ∷ b'=' ∷ []

-- " pid="
abbrev pub pid_label : List ℕ
pid_label = b' ' ∷ b'p' ∷ b'i' ∷ b'd' ∷ b'=' ∷ []

-- " uid="
abbrev pub uid_label : List ℕ
uid_label = b' ' ∷ b'u' ∷ b'i' ∷ b'd' ∷ b'=' ∷ []

-- The text of the format; a `uid_t` is printed as an `int`.
abbrev pub audit_text : List ℕ → (pid uid : ℕ) → List ℕ
audit_text name pid uid =
    service_label
    ++ name
    ++ pid_label
    ++ print_int (signed32 (pid % 2 ^ 32))
    ++ uid_label
    ++ print_int (signed32 (uid % 2 ^ 32))

-- The bytes of a text, and its terminator.
unfoldable pub store_text : Memory → ℕ → List ℕ → Memory
store_text m p [] = set_byte m p 0
store_text m p (x ∷ xs) = store_text (set_byte m p x) (p + 1) xs

-- `snprintf` cuts a text off so that it and its terminator fit.
abbrev pub store_truncated : Memory → (buf len : ℕ) → List ℕ → Memory
store_truncated m buf len text = if len == 0 then m else store_text m buf (take (len - 1) text)

-- With the memory that `buf` points into; `none` is NULL.
unfoldable pub audit_callback : Option AuditData → (buf len : ℕ) → Memory → ℤ × Memory
audit_callback none buf len m = (pos 0, m)
audit_callback (some ad) buf len m = elim (ad.name) [
  | none ↦ (pos 0, m)
  | some name ↦ (pos 0, store_truncated m buf len (audit_text name ad.pid ad.uid))
]
