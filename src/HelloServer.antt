-- ===== src/HelloServer.antt =====
-- Demos/BinderCDemo/binder_server.c: the service that says hello, and its registration.
pub mod Calls
pub mod Main
use android_source_learn.Prelude.{
  ℕ, ◌+◌, ◌%◌, ◌^◌, Option, none, some, List, length, map, ltb, ◌==◌, if◌then◌else◌,
}
use android_source_learn.Prelude.Int.{ℤ, pos, minus_one, is_nonzero, signed32}
use android_source_learn.Memory.{Memory, load_units}
use android_source_learn.Abi.{Abi, TransactionSecctx}
use android_source_learn.Bio.{
  BinderIo, Parcel, bio_init, bio_put_uint32, bio_put_obj, bio_put_string16_x, bio_get_uint32,
  bio_get_string16,
}
use android_source_learn.Binder.Commands.{Trace, binder_done}
use android_source_learn.Binder.Parse.{Service, blank, writes}
use android_source_learn.Binder.Call.{
  Response, CallTxn, Called, Ended, ended, waiting, died, finished, binder_call,
}
use android_source_learn.ServiceManager.Handler.{svcmgr_id, svc_mgr_add_service}

abbrev pub hello_svr_cmd_sayhello : ℕ
hello_svr_cmd_sayhello = 1

abbrev pub hello_svr_cmd_sayhello_to : ℕ
hello_svr_cmd_sayhello_to = 2

-- The header that `svcmgr_publish` and `svcmgr_lookup` put in front of a name.
unfoldable pub put_header : List ℕ → Parcel → Parcel
put_header name p =
    bio_put_string16_x (some name)
      (bio_put_string16_x (some svcmgr_id) (bio_put_uint32 0 (bio_put_uint32 0 p)))

module _ {S : Type 0} (abi : Abi) (svc : Service S) (rdata readbuf iodata : ℕ) where
  -- The message of `svcmgr_publish`, in the 512 bytes at `iodata`.
  unfoldable pub publish_message : List ℕ → ℕ → Memory → Parcel
  publish_message name ptr mem = bio_put_uint32 0 (
      bio_put_uint32 0 (
        bio_put_obj abi ptr
          (put_header name (record { io = bio_init blank iodata 512 4; mem = mem }))))

  -- The status of the reply as an `int`; `binder_done` gives the reply's buffer back.
  abbrev pub publish_status : Called S → Ended ℤ S
  publish_status (finished z reply s mem) =
      let (status, reply') = bio_get_uint32 mem reply in
      if is_nonzero z
      then ended minus_one s mem
      else ended (signed32 status) (writes abi svc (λ bs. (binder_done reply' bs).1) s) mem
  publish_status (waiting s mem) = waiting s mem
  publish_status died = died

  unfoldable pub svcmgr_publish :
      (CallTxn → Memory → List Response)
      → (target : ℕ) (name : List ℕ) (ptr : ℕ) → S
      → Memory
      → Ended ℤ S
  svcmgr_publish driver target name ptr s mem =
      let msg = publish_message name ptr mem in
      publish_status
        (binder_call abi svc rdata readbuf driver msg.io target svc_mgr_add_service s msg.mem)

-- The counters `cnt` of `sayhello` and `sayhello_to`, and the commands written to the driver.
pub record Hello : Type 0 where
  pub hellos : ℕ
  pub hellos_to : ℕ
  pub written : Trace

unfoldable pub sayhello : Hello → Hello
sayhello h = record h { hellos = (h.hellos + 1) % 2 ^ 32 }

unfoldable pub sayhello_to : List ℕ → Hello → ℕ × Hello
sayhello_to name h = let cnt = (h.hellos_to + 1) % 2 ^ 32 in (cnt, record h { hellos_to = cnt })

-- The copy into `char name[512]`, `len` characters and the terminator; nothing if that writes past
-- the end of the array, which is undefined in C.
unfoldable pub copy_name : List ℕ → Option (List ℕ)
copy_name s = if ltb (length s) 512 then some (map (λ c. c % 256) s) else none

-- A result `none` is the write past the end of `name`.
abbrev pub Handled : Type 0
Handled = Option (Hello × Parcel × ℤ)

unfoldable pub handle_sayhello_to : Hello → BinderIo → Parcel → Handled
handle_sayhello_to h msg reply =
    let (_, _, msg') = bio_get_string16 reply.mem msg in
    let (s, len, _) = bio_get_string16 reply.mem msg' in
    elim s [
      | none ↦ some (h, reply, minus_one)
      | some a ↦ elim (copy_name (load_units reply.mem a len)) [
        | none ↦ none
        | some name ↦
            let (i, h') = sayhello_to name h in
            some (h', bio_put_uint32 i (bio_put_uint32 0 reply), pos 0)
      ]
    ]

unfoldable pub hello_service_handler : Hello → TransactionSecctx → BinderIo → Parcel → Handled
hello_service_handler h txn msg reply =
    let code = txn.transaction_data.code in
    let (strict_policy, msg') = bio_get_uint32 reply.mem msg in
    if code == hello_svr_cmd_sayhello
    then some (sayhello h, bio_put_uint32 0 reply, pos 0)
    else if code == hello_svr_cmd_sayhello_to
    then handle_sayhello_to h msg' reply
    else some (h, reply, minus_one)

-- The call through `txn->target.ptr`; `function_at` gives the function at an address, and a call of
-- no function crashes.
unfoldable pub test_server_handler :
    (ℕ → Option (Hello → TransactionSecctx → BinderIo → Parcel → Handled))
    → Hello
    → TransactionSecctx
    → BinderIo
    → Parcel
    → Handled
test_server_handler function_at h txn msg reply = elim (function_at txn.transaction_data.target) [
  | none ↦ none
  | some handler ↦ handler h txn msg reply
]
