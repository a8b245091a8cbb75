-- ===== src/HelloServer/Main.antt =====
-- `main` of Demos/BinderCDemo/binder_server.c: the registration, and the loop with
-- `test_server_handler`. The surroundings are parameters.
pub mod Serving
pub mod Counting
pub mod Starting
pub mod Staying
pub mod Delivered
use android_source_learn.Prelude.{ℕ, ◌*◌, Option, none, some, List, [], ◌∷◌, ◌==◌, if◌then◌else◌}
use android_source_learn.Prelude.Int.{ℤ, minus_one, is_nonzero}
use android_source_learn.Memory.{Memory}
use android_source_learn.Abi.{Abi, TransactionData, TransactionSecctx}
use android_source_learn.Bio.{BinderIo, Parcel}
use android_source_learn.Binder.Commands.{Trace}
use android_source_learn.Binder.Parse.{Service}
use android_source_learn.Binder.Call.{
  Response, CallTxn, Ended, ended, waiting, died, Looped, left_loop, binder_loop,
}
use android_source_learn.Binder.Open.{Held, BinderState, OpenAnswers, binder_open}
use android_source_learn.HelloServer.{
  Hello, Handled, hello_service_handler, test_server_handler, svcmgr_publish,
}

abbrev pub binder_service_manager : ℕ
binder_service_manager = 0

-- A transaction that the server has handled, with the result of its handler.
pub record Handling : Type 0 where
  pub txn : TransactionData
  pub result : ℤ

-- The server with what it has handled, newest first. The code keeps no such list: it is there to
-- speak of the past.
pub record Session : Type 0 where
  pub hello : Hello
  pub handled : List Handling

abbrev pub remember : TransactionData → List Handling → Handled → Option (Session × Parcel × ℤ)
remember txn past none = none
remember txn past (some (h, reply, res)) =
    some (record { hello = h; handled = record { txn = txn; result = res } ∷ past }, reply, res)

-- The only function in the process with the type of a handler of transactions is
-- `hello_service_handler`, at `ptr`.
abbrev pub function_at : ℕ → ℕ → Option (Hello → TransactionSecctx → BinderIo → Parcel → Handled)
function_at ptr target = if target == ptr then some hello_service_handler else none

-- `test_server_handler`, as `binder_loop` calls it.
unfoldable pub serve_hello :
    ℕ → Session → TransactionSecctx → BinderIo → Parcel → Option (Session × Parcel × ℤ)
serve_hello ptr s txn msg reply =
    remember txn.transaction_data s.handled
      (test_server_handler (function_at ptr) s.hello txn msg reply)

-- The server links to no death: no address is that of a `binder_death`, and the call through one
-- crashes.
abbrev pub hello_server : ℕ → Service Session
hello_server ptr = record {
  trace = λ s. s.hello.written;
  with_trace = λ t s. record s { hello = record (s.hello) { written = t } };
  handler = some (serve_hello ptr);
  on_death = λ q s. none;
}

-- The end of `main` with a failure, or after its loop with the result 0; or the server waits for
-- the driver; or it crashes.
pub data Run : Type 0 where
  exited : ℤ → Run
  stopped : Session → Run
  serving : Session → Run
  crashed : Run

abbrev pub first_session : Session
first_session = record { hello = record { hellos = 0; hellos_to = 0; written = [] }; handled = [] }

-- "hello"
abbrev pub hello_name : List ℕ
hello_name = b'h' ∷ b'e' ∷ b'l' ∷ b'l' ∷ b'o' ∷ []

abbrev pub after_hello_loop : Looped Session → Run
after_hello_loop (left_loop s mem) = stopped s
after_hello_loop (waiting s mem) = serving s
after_hello_loop died = crashed

-- What follows `svcmgr_publish`.
abbrev pub after_publish : Abi → (ptr rdata readbuf : ℕ) → List Response → Ended ℤ Session → Run
after_publish abi ptr rdata readbuf responses (ended z s mem) =
    if is_nonzero z
    then exited minus_one
    else after_hello_loop (binder_loop abi (hello_server ptr) rdata readbuf responses s mem)
after_publish abi ptr rdata readbuf responses (waiting s mem) = serving s
after_publish abi ptr rdata readbuf responses died = crashed

-- `driver` answers the call of `svcmgr_publish`, whose message is in the 512 bytes at `iodata`, and
-- `responses` the reads of the loop.
unfoldable pub server_main :
    Abi
    → OpenAnswers
    → (driver : CallTxn → Memory → List Response) → (ptr rdata readbuf iodata : ℕ) → List Response
    → Memory
    → Held
    → Run
server_main abi ans driver ptr rdata readbuf iodata responses mem h =
    elim (binder_open abi ans (128 * 1024) h).0 [
      | none ↦ exited minus_one
      | some bs ↦ after_publish abi ptr rdata readbuf responses (
          svcmgr_publish abi (hello_server ptr) rdata readbuf iodata driver binder_service_manager
            hello_name ptr first_session mem)
    ]
