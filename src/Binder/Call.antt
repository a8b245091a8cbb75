-- ===== src/Binder/Call.antt =====
-- `binder_call` and `binder_loop` of Demos/BinderCDemo/binder4Server.c. The driver is a parameter:
-- what each BINDER_WRITE_READ answers. A loop that has used up the answers waits in the ioctl.
pub mod Results
pub mod Loops
pub mod Replies
pub mod Deliveries
pub mod Verdicts
pub mod Rounds
pub mod Taken
pub mod Handled
use android_source_learn.Prelude.{
  ℕ, zero, suc, ◌+◌, ◌-◌, Bool, true, false, Option, none, some, List, [], ◌∷◌, if◌then◌else◌,
}
use android_source_learn.Prelude.Int.{ℤ, pos, negsuc, minus_one}
use android_source_learn.Memory.{Memory}
use android_source_learn.Abi.{Abi}
use android_source_learn.Bio.{BinderIo}
use android_source_learn.Binder.Commands.{Trace, binder_write, enter_looper}
use android_source_learn.Binder.Parse.{
  Service, Scan, Parsed, returned, aborted, out_of_fuel, blank, writes, binder_parse,
}

-- The answer of the driver: `res < 0`, or the memory with the read buffer filled, up to
-- `read_consumed`.
pub record Response : Type 0 where
  pub failed : Bool
  pub mem : Memory
  pub read_consumed : ℕ

-- The `binder_transaction_data` of the BC_TRANSACTION that `binder_call` writes.
pub record CallTxn : Type 0 where
  pub handle : ℕ
  pub code : ℕ
  pub flags : ℕ
  pub data_size : ℕ
  pub offsets_size : ℕ
  pub buffer : ℕ
  pub offsets : ℕ

pub data Called (S : Type 0) : Type 0 where
  finished : ℤ → BinderIo → S → Memory → Called S
  waiting : S → Memory → Called S
  died : Called S

-- A call of one of the functions above `binder_call`, with its own result.
pub data Ended (A S : Type 0) : Type 0 where
  ended : A → S → Memory → Ended A S
  waiting : S → Memory → Ended A S
  died : Ended A S

pub data Looped (S : Type 0) : Type 0 where
  left_loop : S → Memory → Looped S
  waiting : S → Memory → Looped S
  died : Looped S

-- `*reply` after `memset` and the flag BIO_F_IOERROR.
abbrev pub failed_reply : BinderIo
failed_reply = record blank {
  flags = record { shared = false; overflow = false; io_error = true; malloced = false };
}

abbrev pub call_txn : BinderIo → ℕ → ℕ → CallTxn
call_txn msg target code = record {
  handle = target;
  code = code;
  flags = 0;
  data_size = msg.cursor - msg.data0;
  offsets_size = msg.offs - msg.offs0;
  buffer = msg.data0;
  offsets = msg.offs0;
}

abbrev pub received_or : BinderIo → Option BinderIo → BinderIo
received_or d none = d
received_or d (some io) = io

module _ {S : Type 0} (abi : Abi) (svc : Service S) (rdata readbuf : ℕ) where
  -- `binder_call` passes no handler.
  abbrev pub no_handler : Service S
  no_handler = record svc { handler = none }

  -- What `binder_call` does with the result of a parse: `next` is another round of the loop. The
  -- fuel of `binder_parse` is its own.
  abbrev pub after_parse : (BinderIo → S → Memory → Called S) → BinderIo → Parsed S → Called S
  after_parse next reply (returned (pos zero) sc) =
      finished (pos 0) (received_or reply sc.received) sc.state sc.mem
  after_parse next reply (returned (pos (suc _)) sc) =
      next (received_or reply sc.received) sc.state sc.mem
  after_parse next reply (returned (negsuc _) sc) = finished minus_one failed_reply sc.state sc.mem
  after_parse next reply aborted = died
  after_parse next reply out_of_fuel = died

  -- The loop `for (;;)`.
  unfoldable pub call_loop : List Response → BinderIo → S → Memory → Called S
  call_loop [] reply s mem = waiting s mem
  call_loop (resp ∷ rest) reply s mem =
      let parsed = binder_parse abi no_handler rdata true readbuf resp.read_consumed s resp.mem in
      let more = after_parse (λ reply' s' mem'. call_loop rest reply' s' mem') reply parsed in
      if resp.failed then finished minus_one failed_reply s mem else more

  unfoldable pub binder_call :
      (CallTxn → Memory → List Response)
      → (msg : BinderIo) (target code : ℕ) → S
      → Memory
      → Called S
  binder_call driver msg target code s mem =
      if msg.flags.overflow
      then finished minus_one failed_reply s mem
      else call_loop (driver (call_txn msg target code) mem) blank s mem

  abbrev pub after_round : (S → Memory → Looped S) → Parsed S → Looped S
  after_round next (returned (pos zero) sc) = left_loop sc.state sc.mem
  after_round next (returned (pos (suc _)) sc) = next sc.state sc.mem
  after_round next (returned (negsuc _) sc) = left_loop sc.state sc.mem
  after_round next aborted = died
  after_round next out_of_fuel = died

  unfoldable pub loop_rounds : List Response → S → Memory → Looped S
  loop_rounds [] s mem = waiting s mem
  loop_rounds (resp ∷ rest) s mem =
      let parsed = binder_parse abi svc rdata false readbuf resp.read_consumed s resp.mem in
      let more = after_round (λ s' mem'. loop_rounds rest s' mem') parsed in
      if resp.failed then left_loop s mem else more

  unfoldable pub binder_loop : List Response → S → Memory → Looped S
  binder_loop responses s mem =
      loop_rounds responses (writes abi svc (binder_write enter_looper) s) mem
