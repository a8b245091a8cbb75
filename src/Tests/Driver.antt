-- ===== src/Tests/Driver.antt =====
-- The driver of binder and the driver "hello" at concrete answers.
use android_source_learn.Prelude.{
  inl, ℕ, List, take, ◌+◌, ◌≡◌, refl, ◌≢◌, inr, true, false, Option, none, some, [], ◌∷◌, arith,
}
use android_source_learn.Prelude.Int.{ℤ, pos}
use android_source_learn.Memory.{Memory, store, set_byte}
use android_source_learn.Abi.{TransactionSecctx}
use android_source_learn.Bio.{BinderIo, Parcel}
use android_source_learn.Binder.Commands.{Trace}
use android_source_learn.Binder.Parse.{Service, out_of_fuel, binder_parse}
use android_source_learn.Binder.Parse.Bounds.{binder_parse-ends}
use android_source_learn.Binder.Call.{Response}
use android_source_learn.Binder.Open.{Held, OpenAnswers, binder_open}
use android_source_learn.Binder.Open.Balance.{Opened, binder_open-Opened}
use android_source_learn.HelloDriver.{Buffers, hello_drv_read, hello_drv_write}
use android_source_learn.HelloDriver.Laws.{IsCut, all_of, read-write}
use android_source_learn.HelloDriver.Program.{Argument, dash_w, hello_drv_test}
use android_source_learn.HelloDriver.Program.Texts.{hello_drv_test-texts}
use android_source_learn.Tests.World.{zeros, kernel}

-- A process whose state is what it has written; its handler answers 0 with its reply unchanged.
abbrev ok_handler : Trace → TransactionSecctx → BinderIo → Parcel → Option (Trace × Parcel × ℤ)
ok_handler bs txn msg reply = some (bs, reply, pos 0)

abbrev process : Service Trace
process = record {
  trace = λ bs. bs;
  with_trace = λ t bs. t;
  handler = some ok_handler;
  on_death = λ p bs. some bs;
}

-- A read buffer at 512 with BR_REPLY and a transaction with the buffer 9000.
abbrev reply_read : Memory
reply_read = store 8 (store 4 zeros 512 0x7203) 572 9000

binder_parse-ends_example : binder_parse kernel process 256 true 512 76 [] reply_read ≢ out_of_fuel
binder_parse-ends_example = binder_parse-ends kernel process 256 true 512 76 [] reply_read

abbrev answered : Response
answered = record { failed = false; mem = reply_read; read_consumed = 76 }

abbrev nothing_held : Held
nothing_held = record { blocks = 0; fds = 0; mappings = 0 }

abbrev old_driver : OpenAnswers
old_driver = record { malloc_ok = true; open_fd = some 3; version = some 7; mmap_at = some 65536 }

binder_open-Opened_example :
    Opened kernel old_driver 131072 nothing_held (binder_open kernel old_driver 131072 nothing_held)
binder_open-Opened_example = binder_open-Opened kernel old_driver 131072 nothing_held

abbrev numbered : Buffers
numbered = record { user = λ q. q; kernel_buf = zeros }

read-write_example :
    let (n, b') = hello_drv_write all_of 100 2000 numbered in
    let (n', b'') = hello_drv_read all_of 5000 8 b' in
    IsCut 2000 n
    × IsCut 8 n'
    × (b''.user (5000 + 7) ≡ 100 + 7)
    × (b''.user 5008 ≡ 5008)
    × (b''.kernel_buf 1024 ≡ 0)
read-write_example =
    read-write numbered 100 2000 5000 8 7 5008 1024 (omega arith) (omega arith) (omega arith)
      (inr (inl (omega arith))) (omega arith)

-- The text "ok" at 100, among the arguments of the test program.
abbrev spelled : Buffers
spelled = record { user = set_byte (set_byte zeros 100 b'o') 101 b'k'; kernel_buf = zeros }

abbrev okay : Argument
okay = record { text = b'o' ∷ b'k' ∷ []; at = 100 }

abbrev option : List ℕ → Argument
option letters = record { text = letters; at = 200 }

hello_drv_test-texts_example :
    let first = hello_drv_test all_of true 4096 (option dash_w ∷ okay ∷ []) spelled in
    let second =
      hello_drv_test all_of true 5000
        (option (b'-' ∷ b'r' ∷ []) ∷ [])
        (record { user = λ q. 7; kernel_buf = first.buffers.kernel_buf }) in
    (first.result ≡ pos 0)
    × (first.output ≡ none)
    × (second.result ≡ pos 0)
    × (second.output ≡ some (take 1023 (b'o' ∷ b'k' ∷ [])))
unfolding set_byte
hello_drv_test-texts_example =
    hello_drv_test-texts (option dash_w) okay (option (b'-' ∷ b'r' ∷ [])) 4096 5000 spelled (λ q. 7)
      refl (refl, omega arith, (refl, omega arith, refl))
