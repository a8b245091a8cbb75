-- ===== src/Binder/Parse.antt =====
-- `binder_parse` of Demos/BinderCDemo/binder4Server.c: the commands that the driver has put into
-- the read buffer, one after another.
pub mod Bounds
pub mod Answers
pub mod Replies
pub mod Keeps
pub mod Replied
pub mod Stream
pub mod Incoming
pub mod Reference
pub mod Dispatch
pub mod Runs
use Prim.Native.Nat.{bit_and}
use android_source_learn.Prelude.{
  ℕ, zero, suc, ◌+◌, ◌-◌, ◌%◌, Bool, true, false, Option, none, some, ltb, ◌==◌, ◌||◌,
  if◌then◌else◌,
}
use android_source_learn.Prelude.Int.{ℤ, pos, minus_one}
use android_source_learn.Memory.{Memory, load, size_mod}
use android_source_learn.Abi.{Abi, TransactionData, TransactionSecctx}
use android_source_learn.Bio.{BinderIo, Parcel, bio_init, bio_init_from_txn}
use android_source_learn.Binder.Commands.{Trace, binder_free_buffer, binder_send_reply}

-- What a process does with transactions and deaths, over its state `S`, which includes the
-- commands that it has written. `handler` is `none` for a NULL `func`; a handler's `none` is an
-- `abort()`. `on_death` is the call through the `binder_death` at an address; it is `none`, a crash,
-- if there is no function to call.
pub record Service (S : Type 0) : Type 0 where
  pub trace : S → Trace
  pub with_trace : Trace → S → S
  pub handler : Option (S → TransactionSecctx → BinderIo → Parcel → Option (S × Parcel × ℤ))
  pub on_death : ℕ → S → Option S

-- The variables of the loop but `ptr`. `wants_reply` is `bio != 0`, and `received` what `*bio` has
-- been set to.
pub record Scan (S : Type 0) : Type 0 where
  pub state : S
  pub mem : Memory
  pub wants_reply : Bool
  pub received : Option BinderIo
  pub r : ℤ

-- One round of the loop goes on at a new `ptr`, returns -1 or aborts.
pub data Round (S : Type 0) : Type 0 where
  go : ℕ → Scan S → Round S
  fail : Scan S → Round S
  abort : Round S

pub data Parsed (S : Type 0) : Type 0 where
  returned : ℤ → Scan S → Parsed S
  aborted : Parsed S
  out_of_fuel : Parsed S

-- The uninitialised `reply`, before `bio_init` sets it.
abbrev pub blank : BinderIo
blank = record {
  cursor = 0;
  offs = 0;
  data_avail = 0;
  offs_avail = 0;
  data0 = 0;
  offs0 = 0;
  flags = record { shared = false; overflow = false; io_error = false; malloced = false };
}

module _ {S : Type 0} (abi : Abi) (svc : Service S) where
  -- The commands that a function writes, as a change of the state.
  abbrev pub writes : (Trace → Trace) → S → S
  writes f s = svc.with_trace (f (svc.trace s)) s

  -- What follows `res = func(...)`: the buffer is freed, alone or with a reply.
  unfoldable pub answer : TransactionData → BinderIo → ℤ → S → S
  answer txn reply res s =
      if ltb 0 (bit_and txn.flags abi.tf_one_way)
      then writes (binder_free_buffer txn.buffer) s
      else writes (binder_send_reply abi reply txn.buffer res) s

  abbrev pub finish_transaction :
      Scan S → TransactionData → Option (S × Parcel × ℤ) → Option (Scan S)
  finish_transaction sc txn none = none
  finish_transaction sc txn (some (s, reply, res)) =
      some (record sc { state = answer txn reply.io res s; mem = reply.mem })

  -- The part under `if (func)`; `rdata` is the address of the 256 bytes on the stack.
  unfoldable pub run_handler : ℕ → TransactionSecctx → Scan S → Option (Scan S)
  run_handler rdata txn sc = elim (svc.handler) [
    | none ↦ some sc
    | some func ↦ finish_transaction sc txn.transaction_data (
        func sc.state txn (bio_init_from_txn blank txn.transaction_data)
          (record { io = bio_init blank rdata 256 4; mem = sc.mem }))
  ]

  -- `end - ptr`, as a `uintptr_t`.
  abbrev pub left : ℕ → ℕ → ℕ
  left end ptr = (end + size_mod - ptr) % size_mod

  abbrev pub after_handler : ℕ → Option (Scan S) → Round S
  after_handler ptr none = abort
  after_handler ptr (some sc) = go ptr sc

  -- What follows `death->func(...)`.
  abbrev pub notify : Scan S → Option S → Option (Scan S)
  notify sc none = none
  notify sc (some s) = some (record sc { state = s })

  -- BR_TRANSACTION_SEC_CTX and BR_TRANSACTION.
  unfoldable pub on_transaction : ℕ → ℕ → (ptr end : ℕ) → Scan S → Round S
  on_transaction rdata cmd ptr end sc =
      if cmd == abi.br_transaction_sec_ctx
      then (if ltb (left end ptr) abi.sizeof_txn_secctx
          then fail sc
          else after_handler (ptr + abi.sizeof_txn_secctx)
              (run_handler rdata (abi.read_txn_secctx sc.mem ptr) sc))
      else (if ltb (left end ptr) abi.sizeof_txn
          then fail sc
          else after_handler (ptr + abi.sizeof_txn) (
              run_handler rdata (record { transaction_data = abi.read_txn sc.mem ptr; secctx = 0 })
                sc))

  unfoldable pub on_reply : (ptr end : ℕ) → Scan S → Round S
  on_reply ptr end sc =
      if ltb (left end ptr) abi.sizeof_txn
      then fail sc
      else if sc.wants_reply
      then go (ptr + abi.sizeof_txn) (record sc {
        received = some (bio_init_from_txn blank (abi.read_txn sc.mem ptr));
        wants_reply = false;
        r = pos 0;
      })
      else go (ptr + abi.sizeof_txn) (record sc { r = pos 0 })

  -- The `switch(cmd)`, with `ptr` behind the command word.
  unfoldable pub parse_command : ℕ → ℕ → (ptr end : ℕ) → Scan S → Round S
  parse_command rdata cmd ptr end sc =
      if cmd == abi.br_noop || cmd == abi.br_transaction_complete
      then go ptr sc
      else if cmd == abi.br_increfs
          || cmd == abi.br_acquire
          || cmd == abi.br_release
          || cmd == abi.br_decrefs
      then go (ptr + abi.sizeof_ptr_cookie) sc
      else if cmd == abi.br_transaction_sec_ctx || cmd == abi.br_transaction
      then on_transaction rdata cmd ptr end sc
      else if cmd == abi.br_reply
      then on_reply ptr end sc
      else if cmd == abi.br_dead_binder
      then after_handler (ptr + 8) (notify sc (svc.on_death (load 8 sc.mem ptr) sc.state))
      else if cmd == abi.br_failed_reply || cmd == abi.br_dead_reply
      then go ptr (record sc { r = minus_one })
      else fail sc

  abbrev pub loop_on : (ℕ → Scan S → Parsed S) → Round S → Parsed S
  loop_on next (go ptr sc) = next ptr sc
  loop_on next (fail sc) = returned minus_one sc
  loop_on next abort = aborted

  unfoldable pub parse_loop : ℕ → ℕ → (ptr end : ℕ) → Scan S → Parsed S
  parse_loop zero rdata ptr end sc = out_of_fuel
  parse_loop (suc fuel) rdata ptr end sc = elim (ltb ptr end) [
    | false ↦ returned sc.r sc
    | true ↦
        loop_on (λ ptr' sc'. parse_loop fuel rdata ptr' end sc')
          (parse_command rdata (load 4 sc.mem ptr) (ptr + 4) end sc)
  ]

  -- Each round moves on by the four bytes of a command at least, so `size + 1` rounds are enough.
  unfoldable pub binder_parse : ℕ → Bool → (ptr size : ℕ) → S → Memory → Parsed S
  binder_parse rdata wants_reply ptr size s mem =
      parse_loop (size + 1) rdata ptr (ptr + size)
        (record { state = s; mem = mem; wants_reply = wants_reply; received = none; r = pos 1 })
