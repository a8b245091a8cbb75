-- ===== src/HelloClient.antt =====
-- Demos/BinderCDemo/binder_client.c: the look-up of a service, and a call of it.
pub mod Results
pub mod Main
use android_source_learn.Prelude.{ℕ, some, List, [], ◌∷◌, ltb, if◌then◌else◌}
use android_source_learn.Prelude.Int.{is_nonzero}
use android_source_learn.Memory.{Memory}
use android_source_learn.Abi.{Abi}
use android_source_learn.Bio.{Parcel, bio_init, bio_put_uint32, bio_put_string16_x, bio_get_ref}
use android_source_learn.Binder.Commands.{Trace, binder_acquire, binder_done}
use android_source_learn.Binder.Parse.{Service, blank, writes}
use android_source_learn.Binder.Call.{
  Response, CallTxn, Called, Ended, ended, waiting, died, finished, binder_call,
}
use android_source_learn.ServiceManager.Handler.{svc_mgr_check_service}
use android_source_learn.HelloServer.{put_header, hello_svr_cmd_sayhello}

-- "IHelloService"
abbrev pub hello_id : List ℕ
hello_id =
    b'I' ∷ b'H' ∷ b'e' ∷ b'l' ∷ b'l' ∷ b'o' ∷ b'S' ∷ b'e' ∷ b'r' ∷ b'v' ∷ b'i' ∷ b'c' ∷ b'e' ∷ []

unfoldable pub lookup_message : ℕ → List ℕ → Memory → Parcel
lookup_message iodata name mem =
    put_header name (record { io = bio_init blank iodata 512 4; mem = mem })

unfoldable pub sayhello_message : ℕ → Memory → Parcel
sayhello_message iodata mem =
    bio_put_string16_x (some hello_id)
      (bio_put_uint32 0 (record { io = bio_init blank iodata 512 4; mem = mem }))

module _ {S : Type 0} (abi : Abi) (svc : Service S) (rdata readbuf iodata : ℕ) where
  -- The handle of the reply, or 0; a handle that is found is acquired.
  abbrev pub lookup_result : Called S → Ended ℕ S
  lookup_result (finished z reply s mem) =
      let (handle, reply') = bio_get_ref abi mem reply in
      let acquire : Trace → Trace = λ bs. if ltb 0 handle then binder_acquire handle bs else bs in
      if is_nonzero z
      then ended 0 s mem
      else ended handle (writes abi svc (λ bs. (binder_done reply' (acquire bs)).1) s) mem
  lookup_result (waiting s mem) = waiting s mem
  lookup_result died = died

  unfoldable pub svcmgr_lookup :
      (CallTxn → Memory → List Response) → (target : ℕ) → List ℕ → S → Memory → Ended ℕ S
  svcmgr_lookup driver target name s mem =
      let msg = lookup_message iodata name mem in
      lookup_result
        (binder_call abi svc rdata readbuf driver msg.io target svc_mgr_check_service s msg.mem)

  abbrev pub sayhello_result : Called S → Ended (Unit {0}) S
  sayhello_result (finished z reply s mem) =
      if is_nonzero z
      then ended tt s mem
      else ended tt (writes abi svc (λ bs. (binder_done reply bs).1) s) mem
  sayhello_result (waiting s mem) = waiting s mem
  sayhello_result died = died

  unfoldable pub sayhello :
      (CallTxn → Memory → List Response) → (g_handle : ℕ) → S → Memory → Ended (Unit {0}) S
  sayhello driver g_handle s mem =
      let msg = sayhello_message iodata mem in
      sayhello_result
        (binder_call abi svc rdata readbuf driver msg.io g_handle hello_svr_cmd_sayhello s msg.mem)
