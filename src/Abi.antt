-- ===== src/Abi.antt =====
-- What the code takes from linux/android/binder.h, a kernel header that is not in the repository:
-- the layout of `struct flat_binder_object`, the constants, and the reading of the transaction
-- structs. A model of the code takes one such record as its parameter.
use android_source_learn.Prelude.{ℕ, ◌+◌, ◌≤◌, ◌<◌, ◌^◌, ◌⊎◌, ◌≢◌}
use android_source_learn.Memory.{Memory}

-- The fields of `struct binder_transaction_data` that the code uses.
pub record TransactionData : Type 0 where
  pub target : ℕ
  pub code : ℕ
  pub flags : ℕ
  pub sender_pid : ℕ
  pub sender_euid : ℕ
  pub data_size : ℕ
  pub offsets_size : ℕ
  pub buffer : ℕ
  pub offsets : ℕ

-- `struct binder_transaction_data_secctx`; `secctx` is the address of a C string, or 0.
pub record TransactionSecctx : Type 0 where
  pub transaction_data : TransactionData
  pub secctx : ℕ

pub record Abi : Type 0 where
  -- struct flat_binder_object
  pub sizeof_object : ℕ
  pub type_at : ℕ
  pub flags_at : ℕ
  pub handle_at : ℕ
  pub cookie_at : ℕ
  pub type_binder : ℕ
  pub type_handle : ℕ
  pub object_flags : ℕ
  -- the commands that the driver returns
  pub br_noop : ℕ
  pub br_transaction_complete : ℕ
  pub br_increfs : ℕ
  pub br_acquire : ℕ
  pub br_release : ℕ
  pub br_decrefs : ℕ
  pub br_transaction_sec_ctx : ℕ
  pub br_transaction : ℕ
  pub br_reply : ℕ
  pub br_dead_binder : ℕ
  pub br_failed_reply : ℕ
  pub br_dead_reply : ℕ
  -- the other structs, and how a transaction is read from memory
  pub sizeof_ptr_cookie : ℕ
  pub sizeof_txn : ℕ
  pub sizeof_txn_secctx : ℕ
  pub read_txn : Memory → ℕ → TransactionData
  pub read_txn_secctx : Memory → ℕ → TransactionSecctx
  pub tf_one_way : ℕ
  pub tf_status_code : ℕ
  pub protocol_version : ℕ
  -- PING_TRANSACTION, `B_PACK_CHARS('_','P','N','G')`
  pub ping_transaction : ℕ

-- Two fields of `a` and of `b` bytes do not overlap.
abbrev pub Apart : ℕ → ℕ → ℕ → ℕ → Type 0
Apart p a q b = (p + a ≤ q) ⊎ (q + b ≤ p)

-- The struct `flat_binder_object` has two 32-bit fields, a union of a 64-bit pointer and a 32-bit
-- handle, and a 64-bit cookie, side by side. The two type codes are different 32-bit numbers.
pub record IsObjectLayout (abi : Abi) : Type 0 where
  pub small : abi.sizeof_object < 2 ^ 32
  pub type_in : abi.type_at + 4 ≤ abi.sizeof_object
  pub flags_in : abi.flags_at + 4 ≤ abi.sizeof_object
  pub handle_in : abi.handle_at + 8 ≤ abi.sizeof_object
  pub cookie_in : abi.cookie_at + 8 ≤ abi.sizeof_object
  pub type_handle_apart : Apart abi.type_at 4 abi.handle_at 8
  pub type_flags_apart : Apart abi.type_at 4 abi.flags_at 4
  pub type_cookie_apart : Apart abi.type_at 4 abi.cookie_at 8
  pub flags_handle_apart : Apart abi.flags_at 4 abi.handle_at 8
  pub handle_cookie_apart : Apart abi.handle_at 8 abi.cookie_at 8
  pub binder_word : abi.type_binder < 2 ^ 32
  pub handle_word : abi.type_handle < 2 ^ 32
  pub types_differ : abi.type_binder ≢ abi.type_handle
