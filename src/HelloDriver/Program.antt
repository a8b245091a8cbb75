-- ===== src/HelloDriver/Program.antt =====
-- Demos/HelloDriver/hello_drv_test.c, and the two operations of the driver that only return.
pub mod Texts
use android_source_learn.Prelude.{
  ℕ, zero, suc, ◌+◌, Bool, true, false, Option, none, some, List, [], ◌∷◌, length, take, ltb, ◌==◌,
  ◌&&◌, if◌then◌else◌, ◌≡◌, ◌≢◌, ◌≤◌, ◌<◌, refl, sym, ◌∙◌, ap, inl, inr, arith,
}
use android_source_learn.Prelude.Int.{ℤ, pos, minus_one}
use android_source_learn.Memory.{Memory, set_byte}
use android_source_learn.HelloDriver.{
  Buffers, min_size, copy_bytes, hello_drv_read, hello_drv_write,
}
use android_source_learn.HelloDriver.Laws.{all_of}

abbrev pub hello_drv_open : ℤ
hello_drv_open = pos 0

abbrev pub hello_drv_close : ℤ
hello_drv_close = pos 0

-- A string among the arguments: its bytes before the terminator, and its address.
pub record Argument : Type 0 where
  pub text : List ℕ
  pub at : ℕ

-- `strcmp(a, b) == 0`
abbrev pub same_text : List ℕ → List ℕ → Bool
same_text [] [] = true
same_text [] (y ∷ ys) = false
same_text (x ∷ xs) [] = false
same_text (x ∷ xs) (y ∷ ys) = x == y && same_text xs ys

-- "-w"
abbrev pub dash_w : List ℕ
dash_w = b'-' ∷ b'w' ∷ []

-- What `%s` prints of the bytes at an address, of the `n` before which there is a terminator.
unfoldable pub printed : ℕ → Memory → ℕ → List ℕ
printed zero m p = []
printed (suc n) m p = let rest = printed n m (p + 1) in if m p == 0 then [] else m p ∷ rest

-- What a run of the program ends with: its result, the string that it has printed behind
-- "APP read : ", and the memories.
pub record Done : Type 0 where
  pub result : ℤ
  pub output : Option (List ℕ)
  pub buffers : Buffers

module _ (copied : ℕ → ℕ) where
  -- The branch that writes.
  abbrev pub write_text : Argument → Buffers → Done
  write_text arg b =
      let len = length arg.text + 1 in
      let len' = if ltb len 1024 then len else 1024 in
      record { result = pos 0; output = none; buffers = (hello_drv_write copied arg.at len' b).1 }

  -- The branch that reads, into the 1024 bytes at `buf`.
  abbrev pub read_text : ℕ → Buffers → Done
  read_text buf b =
      let b' = (hello_drv_read copied buf 1024 b).1 in
      let user' = set_byte b'.user (buf + 1023) 0 in
      record {
        result = pos 0;
        output = some (printed 1024 user' buf);
        buffers = record b' { user = user' };
      }

  -- What follows a successful `open`, with the arguments behind the first.
  abbrev pub with_device : ℕ → Argument → List Argument → Buffers → Done
  with_device buf one [] b = read_text buf b
  with_device buf one (two ∷ []) b =
      if same_text one.text dash_w then write_text two b else read_text buf b
  with_device buf one (two ∷ three ∷ rest) b = read_text buf b

  -- `argv` behind the name of the program; `can_open` is that `open` does not answer -1.
  unfoldable pub hello_drv_test : (can_open : Bool) (buf : ℕ) → List Argument → Buffers → Done
  hello_drv_test can_open buf [] b = record { result = minus_one; output = none; buffers = b }
  hello_drv_test can_open buf (one ∷ rest) b =
      if can_open
      then with_device buf one rest b
      else record { result = minus_one; output = none; buffers = b }
