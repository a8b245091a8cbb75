-- ===== src/Binder/Open.antt =====
-- `binder_open`, `binder_close` and `binder_become_context_manager` of
-- Demos/BinderCDemo/binder4Server.c. What the system calls answer is a parameter; the state counts
-- the resources that the process holds.
pub mod Balance
use android_source_learn.Prelude.{
  ℕ, ◌+◌, ◌-◌, Bool, true, false, Option, none, some, not, ◌==◌, if◌then◌else◌,
}
use android_source_learn.Prelude.Int.{ℤ, pos, is_nonzero}
use android_source_learn.Abi.{Abi}

pub record Held : Type 0 where
  pub blocks : ℕ
  pub fds : ℕ
  pub mappings : ℕ

-- `struct binder_state`
pub record BinderState : Type 0 where
  pub fd : ℕ
  pub mapped : ℕ
  pub mapsize : ℕ

-- The answers to `malloc` (not NULL), `open` (none below 0), the ioctl BINDER_VERSION (none for -1,
-- or the protocol version) and `mmap` (none for MAP_FAILED).
pub record OpenAnswers : Type 0 where
  pub malloc_ok : Bool
  pub open_fd : Option ℕ
  pub version : Option ℕ
  pub mmap_at : Option ℕ

abbrev pub malloc_block : Held → Held
malloc_block h = record h { blocks = h.blocks + 1 }

abbrev pub free_block : Held → Held
free_block h = record h { blocks = h.blocks - 1 }

abbrev pub open_one : Held → Held
open_one h = record h { fds = h.fds + 1 }

abbrev pub close_one : Held → Held
close_one h = record h { fds = h.fds - 1 }

abbrev pub map_one : Held → Held
map_one h = record h { mappings = h.mappings + 1 }

abbrev pub unmap_one : Held → Held
unmap_one h = record h { mappings = h.mappings - 1 }

abbrev pub fail_open : Held → Option BinderState × Held
fail_open h = (none, free_block h)

abbrev pub fail_map : Held → Option BinderState × Held
fail_map h = fail_open (close_one h)

abbrev pub version_fits : Abi → Option ℕ → Bool
version_fits abi none = false
version_fits abi (some v) = v == abi.protocol_version

unfoldable pub binder_open : Abi → OpenAnswers → ℕ → Held → Option BinderState × Held
binder_open abi ans mapsize h = if not ans.malloc_ok then (none, h) else elim (ans.open_fd) [
  | none ↦ fail_open (malloc_block h)
  | some fd ↦
      if not (version_fits abi ans.version)
      then fail_open (open_one (malloc_block h))
      else elim (ans.mmap_at) [
        | none ↦ fail_map (open_one (malloc_block h))
        | some mapped ↦ (
          some (record { fd = fd; mapped = mapped; mapsize = mapsize }),
          map_one (open_one (malloc_block h)),
        )
      ]
]

unfoldable pub binder_close : Held → Held
binder_close h = free_block (close_one (unmap_one h))

-- The results of the ioctls BINDER_SET_CONTEXT_MGR_EXT and, tried after it, BINDER_SET_CONTEXT_MGR;
-- beside the result, whether the second was made.
unfoldable pub binder_become_context_manager : ℤ → ℤ → ℤ × Bool
binder_become_context_manager ext original =
    if is_nonzero ext then (original, true) else (ext, false)
