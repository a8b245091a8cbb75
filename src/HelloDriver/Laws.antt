-- ===== src/HelloDriver/Laws.antt =====
-- What the device gives back, and what the module leaves registered.
use android_source_learn.Prelude.{
  ℕ, ◌+◌, ◌≤◌, ◌<◌, ◌≡◌, refl, ap, ◌∙◌, ltb, leb, ◌⊎◌, inl, inr, Bool, true, false, arith,
}
use android_source_learn.Prelude.Int.{pos, minus_one}
use android_source_learn.Memory.{Memory}
use android_source_learn.HelloDriver.{
  Buffers, Registered, min_size, copy_bytes, hello_drv_read, hello_drv_write, hello_init,
  hello_exit,
}

pub copy_bytes_inside :
    (dst : Memory) (to : ℕ) (src : Memory) (from n i : ℕ)
    → i < n
    → copy_bytes dst to src from n (to + i) ≡ src (from + i)
unfolding copy_bytes
copy_bytes_inside dst to src from n i h =
    let below : ltb (to + i) (to + n) ≡ true = ground arith in
    let above : leb to (to + i) ≡ true = ground arith in rw (below, above) (ap src (omega arith))

pub copy_bytes_outside :
    (dst : Memory) (to : ℕ) (src : Memory) (from n q : ℕ)
    → (q < to) ⊎ (to + n ≤ q)
    → copy_bytes dst to src from n q ≡ dst q
unfolding copy_bytes
copy_bytes_outside dst to src from n q o = ground arith

abbrev pub all_of : ℕ → ℕ
all_of n = n

-- What a transfer of `size` bytes returns: the size, and 1024 if it is larger.
abbrev pub IsCut : ℕ → ℕ → Type 0
IsCut size n = (size ≤ 1024 → n ≡ size) × (1024 ≤ size → n ≡ 1024)

-- What a process writes with `size` bytes and reads back with `size'` bytes, both transfers being
-- complete, is what it wrote, for every byte `i` of the buffer that both cover; the read changes no
-- byte `q` of the process outside of what it asked for and of the 1024 bytes behind `dst`, and the
-- write no byte `j` of the kernel behind the 1024 bytes of the buffer; both return the size that was
-- asked for, cut off at 1024.
pub read-write :
    (b : Buffers) (src size dst size' i q j : ℕ)
    → i < 1024
    → i < size
    → i < size'
    → (q < dst) ⊎ ((dst + size' ≤ q) ⊎ (dst + 1024 ≤ q))
    → 1024 ≤ j
    → let (n, b') = hello_drv_write all_of src size b in
      let (n', b'') = hello_drv_read all_of dst size' b' in
      IsCut size n
      × IsCut size' n'
      × (b''.user (dst + i) ≡ b.user (src + i))
      × (b''.user q ≡ b.user q)
      × (b''.kernel_buf j ≡ b.kernel_buf j)
unfolding hello_drv_read hello_drv_write
read-write b src size dst size' i q j small asked asked' o far = (
  (λ l. ground arith, λ l. ground arith),
  (λ l. ground arith, λ l. ground arith),
  copy_bytes_inside b.user dst _ 0 (min_size 1024 size') i (ground arith)
      ∙ copy_bytes_inside b.kernel_buf 0 b.user src (min_size 1024 size) i (ground arith),
  copy_bytes_outside b.user dst _ 0 (min_size 1024 size') q (ground arith),
  copy_bytes_outside b.kernel_buf 0 b.user src (min_size 1024 size) j (ground arith),
)

-- However little is copied, no transfer writes past the end of `kernel_buf`.
pub write_in_bounds :
    (copied : ℕ → ℕ) (b : Buffers) (src size : ℕ)
    → ((n : ℕ) → copied n ≤ n)
    → (i : ℕ) → 1024 ≤ i
    → (hello_drv_write copied src size b).1.kernel_buf i ≡ b.kernel_buf i
unfolding hello_drv_write copy_bytes
write_in_bounds copied b src size le i far = ground (arith, le (min_size 1024 size))

-- An initialisation that fails leaves nothing registered, and one that succeeds is undone by
-- `hello_exit`.
pub hello_init-hello_exit :
    (class_ok : Bool) (r : Registered)
    → let (z, r') = hello_init class_ok r in
      ((z ≡ pos 0) × (hello_exit r' ≡ r)) ⊎ ((z ≡ minus_one) × (r' ≡ r))
unfolding hello_init hello_exit
hello_init-hello_exit true r = inl (refl, ground arith)
hello_init-hello_exit false r = inr (refl, ground arith)
