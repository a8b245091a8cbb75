-- ===== src/HelloDriver/Program/Texts.antt =====
-- A text that one run of the program writes to the device, and another run prints.
use android_source_learn.Prelude.{
  ℕ, zero, suc, ◌+◌, true, false, none, some, List, [], ◌∷◌, length, take, length-take, ◌==◌, ◌≡◌,
  ◌≢◌, ◌≤◌, ◌<◌, refl, ◌∙◌, ap, arith,
}
use android_source_learn.Prelude.Int.{pos}
use android_source_learn.Memory.{Memory, set_byte}
use android_source_learn.HelloDriver.{Buffers, hello_drv_read, hello_drv_write}
use android_source_learn.HelloDriver.Laws.{all_of, copy_bytes_inside}
use android_source_learn.HelloDriver.Program.{
  Argument, dash_w, same_text, printed, write_text, read_text, hello_drv_test,
}

-- A C string in memory: its bytes, none of them zero, and the terminator.
abbrev pub Spells : Memory → ℕ → List ℕ → Type 0
Spells m p [] = m p ≡ 0
Spells m p (x ∷ xs) = (m p ≡ x) × (x ≢ 0) × Spells m (p + 1) xs

printed-Spells :
    (xs : List ℕ) (n : ℕ) (m : Memory) (p : ℕ) → Spells m p xs → length xs < n → printed n m p ≡ xs
unfolding printed
printed-Spells xs zero m p s small = absurd (omega arith)
printed-Spells [] (suc n) m p s small = rw (s, printed) refl
printed-Spells (x ∷ xs) (suc n) m p (e, live, s) small =
    let other : (x == 0) ≡ false = ground arith in
    rw (e, printed) (rw other (ap (λ ys. x ∷ ys) (printed-Spells xs n m (p + 1) s (omega arith))))

-- The first `n` bytes of a string, where they are copied and a terminator stands behind them.
take-Spells :
    (xs : List ℕ) (n : ℕ) (m m' : Memory) (p q : ℕ)
    → Spells m p xs
    → ((i : ℕ) → i < n → i ≤ length xs → m' (q + i) ≡ m (p + i))
    → m' (q + n) ≡ 0
    → Spells m' q (take n xs)
take-Spells [] zero m m' p q s same end = ap m' (omega arith) ∙ end
take-Spells [] (suc n) m m' p q s same end =
    ap m' (omega arith) ∙ same 0 (omega arith) (omega arith) ∙ ap m (omega arith) ∙ s
take-Spells (x ∷ xs) zero m m' p q s same end = ap m' (omega arith) ∙ end
take-Spells (x ∷ xs) (suc n) m m' p q (e, live, s) same end = (
  ap m' (omega arith) ∙ same 0 (omega arith) (omega arith) ∙ ap m (omega arith) ∙ e,
  live,
  take-Spells xs n m m' (p + 1) (q + 1) s
      (λ i small inside.
        ap m' (omega arith)
        ∙ same (i + 1) (omega (arith, small)) (omega (arith, inside))
        ∙ ap m (omega arith))
      (ap m' (omega arith) ∙ end),
)

written :
    (arg : Argument) (b : Buffers) (i : ℕ)
    → i < 1024
    → i ≤ length arg.text
    → (write_text all_of arg b).buffers.kernel_buf i ≡ b.user (arg.at + i)
unfolding hello_drv_write
written arg b i small inside =
    ap (write_text all_of arg b).buffers.kernel_buf (omega arith)
    ∙ copy_bytes_inside b.kernel_buf 0 b.user arg.at _ i (ground arith)

read_text-printed :
    (xs : List ℕ) (m : Memory) (p buf : ℕ) (b : Buffers)
    → Spells m p xs
    → ((i : ℕ) → i < 1024 → i ≤ length xs → b.kernel_buf i ≡ m (p + i))
    → (read_text all_of buf b).output ≡ some (take 1023 xs)
unfolding hello_drv_read set_byte
read_text-printed xs m p buf b s same = ap some (
    printed-Spells (take 1023 xs) 1024 _ buf
      (take-Spells xs 1023 m _ p buf s
        (λ i small inside.
          let apart : (buf + i == buf + 1023) ≡ false = ground (arith, small) in
          rw apart (
            copy_bytes_inside b.user buf b.kernel_buf 0 1024 i (omega (arith, small))
            ∙ ap b.kernel_buf (omega arith)
            ∙ same i (omega (arith, small)) inside))
        (ground arith))
      (omega (arith, length-take 1023 xs)))

-- `hello_drv_test -w s`, and then `hello_drv_test -r`, in processes of their own whose transfers are
-- complete: both return 0, and the second prints the first 1023 bytes of `s`, for strings of every
-- length, the empty one and those that fill the buffer included; only the second prints.
pub hello_drv_test-texts :
    (one text other : Argument) (buf buf' : ℕ) (b : Buffers) (user' : Memory)
    → same_text one.text dash_w ≡ true
    → Spells b.user text.at text.text
    → let first = hello_drv_test all_of true buf (one ∷ text ∷ []) b in
      let second =
        hello_drv_test all_of true buf'
          (other ∷ [])
          (record { user = user'; kernel_buf = first.buffers.kernel_buf }) in
      (first.result ≡ pos 0)
      × (first.output ≡ none)
      × (second.result ≡ pos 0)
      × (second.output ≡ some (take 1023 text.text))
unfolding hello_drv_test
hello_drv_test-texts one text other buf buf' b user' dash spelled =
    rw (dash, hello_drv_test)
      (
        refl,
        refl,
        refl,
        read_text-printed text.text b.user text.at buf' _ spelled
            (λ i small inside. written text b i small inside),
      )
