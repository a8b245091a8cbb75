-- ===== src/ServiceManager/Strings.antt =====
-- The string helpers of Demos/BinderCDemo/service_manager.c. A `uint16_t` string is the list of
-- its units; characters are unsigned bytes.
pub mod Laws
use android_source_learn.Prelude.{
  ℕ, zero, suc, ◌%◌, Bool, true, false, List, [], ◌∷◌, length, ◌==◌, ltb, if◌then◌else◌,
}

-- The loop `while ((max > 0) && (*x != '\0'))`; a unit is cut to its lowest byte. Past the end of
-- the list stands the terminator.
unfoldable pub str8_loop : ℕ → List ℕ → List ℕ
str8_loop zero x = []
str8_loop (suc max) [] = []
str8_loop (suc max) (c ∷ x) = let rest = str8_loop max x in if c == 0 then [] else c % 256 ∷ rest

-- The text that `buf` holds, before its terminator.
unfoldable pub str8 : List ℕ → ℕ → List ℕ
unfolding str8_loop
str8 x x_len = str8_loop (if ltb x_len 127 then x_len else 127) x

unfoldable pub str16eq : List ℕ → List ℕ → Bool
str16eq [] [] = true
str16eq [] (d ∷ b) = d == 0
str16eq (c ∷ a) [] = c == 0
str16eq (c ∷ a) (d ∷ b) =
    if c == 0 then d == 0 else if d == 0 then false else if c == d then str16eq a b else false
