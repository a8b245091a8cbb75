-- ===== src/Protocol/Publication.antt =====
-- A whole registration: the server's request, the manager's handler, and the reply, with the driver
-- between them.
use android_source_learn.Prelude.{◌≡◌, if◌then◌else◌}
use android_source_learn.Prelude.Int.{ℤ, pos, minus_one, is_nonzero}
use android_source_learn.Memory.{Memory}
use android_source_learn.Abi.{Abi, TransactionSecctx}
use android_source_learn.Bio.{Parcel, bio_put_uint32}
use android_source_learn.Binder.Call.{CallTxn}

-- What the manager answers to a registration with the result `z`.
abbrev pub added_result : ℤ → ℤ
added_result z = if is_nonzero z then minus_one else pos 0

abbrev pub added_reply : ℤ → Parcel → Parcel
added_reply z reply = if is_nonzero z then reply else bio_put_uint32 0 reply

-- The driver hands a BC_TRANSACTION to the process that its handle names, the manager for the handle
-- 0, with its code.
pub record Addresses (t : CallTxn) (txn : TransactionSecctx) : Type 0 where
  pub target : t.handle ≡ 0 → txn.transaction_data.target ≡ 0
  pub coded : txn.transaction_data.code ≡ t.code
