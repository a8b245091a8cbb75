-- ===== src/Binder/Commands.antt =====
-- The commands that Demos/BinderCDemo/binder4Server.c writes to the driver. No caller of
-- `binder_write` reads its result, so a write is modelled by the trace of the commands, newest
-- first. A packed struct of a command word and its payload is one constructor.
use android_source_learn.Prelude.{ℕ, ◌-◌, List, ◌∷◌, if◌then◌else◌}
use android_source_learn.Prelude.Int.{ℤ, is_nonzero, word_of}
use android_source_learn.Abi.{Abi}
use android_source_learn.Bio.{BinderIo, no_flags}

-- Where the data of a reply lies: the status word on the stack, or the two buffers of a parcel.
pub data Payload : Type 0 where
  status : ℕ → Payload
  buffers : (buffer offsets : ℕ) → Payload

-- The `binder_transaction_data` of a BC_REPLY; target, cookie and code are zero.
pub record ReplyTxn : Type 0 where
  pub flags : ℕ
  pub data_size : ℕ
  pub offsets_size : ℕ
  pub payload : Payload

pub data Command : Type 0 where
  free_buffer : ℕ → Command
  free_and_reply : ℕ → ReplyTxn → Command
  acquire : ℕ → Command
  release : ℕ → Command
  request_death_notification : (handle cookie : ℕ) → Command
  enter_looper : Command

abbrev pub Trace : Type 0
Trace = List Command

unfoldable pub binder_write : Command → Trace → Trace
binder_write c bs = c ∷ bs

unfoldable pub binder_free_buffer : ℕ → Trace → Trace
unfolding binder_write
binder_free_buffer buffer bs = binder_write (free_buffer buffer) bs

-- The `txn` of the reply: the status word of a handler that did not return 0, or its parcel.
abbrev pub reply_txn : Abi → BinderIo → ℤ → ReplyTxn
reply_txn abi reply res =
    if is_nonzero res
    then record {
      flags = abi.tf_status_code;
      data_size = 4;
      offsets_size = 0;
      payload = status (word_of res);
    }
    else record {
      flags = 0;
      data_size = reply.cursor - reply.data0;
      offsets_size = reply.offs - reply.offs0;
      payload = buffers reply.data0 reply.offs0;
    }

unfoldable pub binder_send_reply : Abi → BinderIo → ℕ → ℤ → Trace → Trace
unfolding binder_write
binder_send_reply abi reply buffer_to_free res bs =
    binder_write (free_and_reply buffer_to_free (reply_txn abi reply res)) bs

unfoldable pub binder_acquire : ℕ → Trace → Trace
unfolding binder_write
binder_acquire target bs = binder_write (acquire target) bs

unfoldable pub binder_release : ℕ → Trace → Trace
unfolding binder_write
binder_release target bs = binder_write (release target) bs

unfoldable pub binder_link_to_death : ℕ → ℕ → Trace → Trace
unfolding binder_write
binder_link_to_death target death bs = binder_write (request_death_notification target death) bs

-- `binder_done`, which gives a received buffer back to the driver once.
unfoldable pub binder_done : BinderIo → Trace → BinderIo × Trace
unfolding binder_write
binder_done reply bs =
    if reply.flags.shared
    then (record reply { flags = no_flags }, binder_write (free_buffer reply.data0) bs)
    else (reply, bs)
