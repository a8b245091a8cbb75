-- ===== src/HelloDriver.antt =====
-- Demos/HelloDriver/hello_drv.c: a character device with a buffer of 1024 bytes. The kernel's
-- functions are parameters: what they answer, and a count of what is registered.
pub mod Laws
pub mod Program
use android_source_learn.Prelude.{
  ℕ, ◌+◌, ◌-◌, Bool, true, false, Option, none, some, ltb, leb, ◌&&◌, if◌then◌else◌,
}
use android_source_learn.Prelude.Int.{ℤ, pos, minus_one}
use android_source_learn.Memory.{Memory}

abbrev pub min_size : ℕ → ℕ → ℕ
min_size a b = if ltb a b then a else b

-- `n` bytes at `from` copied to `to`; the two memories are the kernel's and the user's.
unfoldable pub copy_bytes : Memory → ℕ → Memory → ℕ → ℕ → Memory
copy_bytes dst to src from n q = if leb to q && ltb q (to + n) then src (from + (q - to)) else dst q

-- The memory of the process, and that of the kernel from the static `kernel_buf` on, indexed from 0:
-- the array is its first 1024 bytes, and what is behind them is not the driver's.
pub record Buffers : Type 0 where
  pub user : Memory
  pub kernel_buf : Memory

-- `copied` is how many of the bytes `copy_to_user` or `copy_from_user` really copies; the code
-- drops their result `err`.
unfoldable pub hello_drv_read : (ℕ → ℕ) → (buf size : ℕ) → Buffers → ℕ × Buffers
hello_drv_read copied buf size b =
    let n = min_size 1024 size in
    (n, record b { user = copy_bytes b.user buf b.kernel_buf 0 (copied n) })

unfoldable pub hello_drv_write : (ℕ → ℕ) → (buf size : ℕ) → Buffers → ℕ × Buffers
hello_drv_write copied buf size b =
    let n = min_size 1024 size in
    (n, record b { kernel_buf = copy_bytes b.kernel_buf 0 b.user buf (copied n) })

-- What the module has registered with the kernel.
pub record Registered : Type 0 where
  pub chrdevs : ℕ
  pub classes : ℕ
  pub devices : ℕ

-- `class_ok` is `! IS_ERR(hello_class)`. The result of `register_chrdev` goes into `major`
-- unchecked; here it succeeds.
unfoldable pub hello_init : (class_ok : Bool) → Registered → ℤ × Registered
hello_init class_ok r =
    let r1 : Registered = record r { chrdevs = r.chrdevs + 1 } in
    if class_ok
    then (pos 0, record r1 { classes = r1.classes + 1; devices = r1.devices + 1 })
    else (minus_one, record r1 { chrdevs = r1.chrdevs - 1 })

unfoldable pub hello_exit : Registered → Registered
hello_exit r = record { chrdevs = r.chrdevs - 1; classes = r.classes - 1; devices = r.devices - 1 }
