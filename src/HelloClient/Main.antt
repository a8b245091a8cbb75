-- ===== src/HelloClient/Main.antt =====
-- `main` of Demos/BinderCDemo/binder_client.c: the look-up of the service, and a call of it.
pub mod Ending
use android_source_learn.Prelude.{ℕ, ◌*◌, none, some, List, [], ◌==◌, if◌then◌else◌}
use android_source_learn.Prelude.Int.{ℤ, pos, minus_one}
use android_source_learn.Memory.{Memory}
use android_source_learn.Abi.{Abi}
use android_source_learn.Binder.Commands.{Trace}
use android_source_learn.Binder.Parse.{Service}
use android_source_learn.Binder.Call.{Response, CallTxn, Ended, ended, waiting, died}
use android_source_learn.Binder.Open.{Held, OpenAnswers, binder_open}
use android_source_learn.HelloServer.Main.{hello_name, binder_service_manager}
use android_source_learn.HelloClient.{svcmgr_lookup, sayhello}

-- The client has no handler; its state is what it has written. It links to no death: no address is
-- that of a `binder_death`, and the call through one crashes.
abbrev pub hello_client : Service Trace
hello_client = record {
  trace = λ bs. bs;
  with_trace = λ t bs. t;
  handler = none;
  on_death = λ q bs. none;
}

-- The end of `main`; or the client waits for the driver; or it crashes.
pub data ClientRun : Type 0 where
  exited : ℤ → Trace → ClientRun
  pending : Trace → ClientRun
  crashed : ClientRun

-- `main` falls off its end, which is a return of 0.
abbrev pub after_sayhello : Ended (Unit {0}) Trace → ClientRun
after_sayhello (ended done s mem) = exited (pos 0) s
after_sayhello (waiting s mem) = pending s
after_sayhello died = crashed

module _ (abi : Abi) (rdata readbuf iodata : ℕ) (driver : CallTxn → Memory → List Response) where
  -- What follows `g_handle = svcmgr_lookup(...)`.
  abbrev pub after_lookup : Ended ℕ Trace → ClientRun
  after_lookup (ended g_handle s mem) =
      if g_handle == 0
      then exited minus_one s
      else after_sayhello (sayhello abi hello_client rdata readbuf iodata driver g_handle s mem)
  after_lookup (waiting s mem) = pending s
  after_lookup died = crashed

  -- `driver` answers the two calls; their messages lie in the 512 bytes at `iodata`.
  unfoldable pub client_main : OpenAnswers → Memory → Held → ClientRun
  client_main ans mem h = elim (binder_open abi ans (128 * 1024) h).0 [
    | none ↦ exited minus_one []
    | some bs ↦ after_lookup (
        svcmgr_lookup abi hello_client rdata readbuf iodata driver binder_service_manager hello_name
          [] mem)
  ]
