-- ===== src/HelloServer/Main/Delivered.antt =====
-- `main` of the server, for what the driver delivers to it.
use mathlib.Core.Path.{subst}
use android_source_learn.Prelude.{
  ℕ, ◌⊎◌, ◌*◌, ◌≡◌, ◌≢◌, Bool, true, false, none, List, [], Option-cases, inl, inr,
}
use android_source_learn.Prelude.Int.{pos}
use android_source_learn.Memory.{Memory}
use android_source_learn.Abi.{Abi, TransactionData}
use android_source_learn.Binder.Commands.{binder_write, enter_looper}
use android_source_learn.Binder.Parse.{writes}
use android_source_learn.Binder.Parse.Incoming.{AreAllCodes, ReadsStructs}
use android_source_learn.Binder.Call.{
  Response, CallTxn, ended, waiting, died, Looped, left_loop, binder_loop,
}
use android_source_learn.Binder.Call.Deliveries.{Delivery, responses, AreDelivered}
use android_source_learn.Binder.Call.Rounds.{binder_loop-serve_rounds}
use android_source_learn.Binder.Call.Handled.{LoopedIn, serve_rounds-LoopedIn}
use android_source_learn.Binder.Call.Taken.{AnyDeliveredDeath, Any, all_taken, all_continue}
use android_source_learn.Binder.Open.{Held, OpenAnswers, binder_open}
use android_source_learn.HelloServer.{svcmgr_publish}
use android_source_learn.HelloServer.Main.{
  Session, Run, exited, stopped, serving, crashed, serve_hello, hello_server, first_session,
  hello_name, binder_service_manager, after_hello_loop, server_main,
}
use android_source_learn.HelloServer.Main.Counting.{HasSaid, MayCrash, hello_server-IsFollowed}
use android_source_learn.HelloServer.Main.Staying.{hello_server-Spares}
use android_source_learn.HelloServer.Main.Starting.{svcmgr_publish-IsRegistered, IsRegistered}

-- `main` waits for the driver if `b`, and otherwise its loop has been left, and it has handled these
-- transactions and replied to those that are not one-way; or it has crashed, and one of them can make it crash, or
-- a death is notified, although the server has asked for none.
abbrev pub IsGreeting : Abi → ℕ → List Delivery → Bool → List TransactionData → Run → Type 0
IsGreeting abi ptr ds b past (exited z) = ⊥
IsGreeting abi ptr ds true past (stopped s) = ⊥
IsGreeting abi ptr ds false past (stopped s) = HasSaid abi past s
IsGreeting abi ptr ds true past (serving s) = HasSaid abi past s
IsGreeting abi ptr ds false past (serving s) = ⊥
IsGreeting abi ptr ds b past crashed =
    Any (MayCrash ptr) past ⊎ AnyDeliveredDeath (λ q. Unit {0}) ds

after_hello_loop-IsGreeting :
    (abi : Abi) (ptr : ℕ) (ds : List Delivery) (b : Bool) (past : List TransactionData)
    (l : Looped Session)
    → LoopedIn abi
        (hello_server ptr)
        (serve_hello ptr)
        (HasSaid abi)
        (MayCrash ptr)
        (λ q. Unit {0})
        (AnyDeliveredDeath (λ q. Unit {0}) ds)
        b
        past
        l
    → IsGreeting abi ptr ds b past (after_hello_loop l)
after_hello_loop-IsGreeting abi ptr ds true past (left_loop s mem) v = v
after_hello_loop-IsGreeting abi ptr ds false past (left_loop s mem) v = v
after_hello_loop-IsGreeting abi ptr ds true past (waiting s mem) v = v
after_hello_loop-IsGreeting abi ptr ds false past (waiting s mem) v = v
after_hello_loop-IsGreeting abi ptr ds true past died v = v
after_hello_loop-IsGreeting abi ptr ds false past died v = v

module _ (abi : Abi) (ptr rdata readbuf : ℕ) (ds : List Delivery) (codes : AreAllCodes abi)
    (structs : ReadsStructs abi) (delivered : AreDelivered abi rdata readbuf ds) where
  hello_loop-IsGreeting :
      (s : Session) (mem : Memory)
      → HasSaid abi [] s
      → IsGreeting abi ptr ds
          (all_continue ds)
          (all_taken ds [])
          (after_hello_loop (binder_loop abi (hello_server ptr) rdata readbuf (responses ds) s mem))
  unfolding binder_write
  hello_loop-IsGreeting s mem v =
      let svc = hello_server ptr in
      let entered : HasSaid abi [] (writes abi svc (binder_write enter_looper) s) = record {
        saying = record {
          counting = record {
            hellos = v.saying.counting.hellos;
            hellos_to = v.saying.counting.hellos_to;
          };
          returned = v.saying.returned;
        };
        handled = v.handled;
        counted = v.counted;
        answered = v.answered;
      } in
      rw
        (binder_loop-serve_rounds abi svc rdata readbuf codes structs (hello_server-Spares abi ptr)
          ds s mem delivered)
        (after_hello_loop-IsGreeting abi ptr ds (all_continue ds) (all_taken ds []) _ (
          serve_rounds-LoopedIn abi svc (serve_hello ptr) (HasSaid abi) (MayCrash ptr)
            (λ q. Unit {0}) (hello_server-IsFollowed abi ptr) rdata ds [] _ mem entered))

  -- If the driver opens, the registration returns 0 and the driver delivers read buffers that are
  -- full of commands, `main` of the server handles every transaction in them, up to the first buffer
  -- with a reply or a failure, and no others: it waits for the driver if there is no such buffer and
  -- is left after it if there is one, and `sayhello` has been called once for each transaction with
  -- its code, and those transactions that are not one-way and no others have been replied to, once
  -- each and in order. It crashes only if one of the transactions names another function than the handler or
  -- passes a name, or if the driver notifies it of a death, although it has asked for none.
  pub server_main-IsGreeting :
      (ans : OpenAnswers) (driver : CallTxn → Memory → List Response) (iodata : ℕ) (s : Session)
      (mem mem' : Memory) (h : Held)
      → (binder_open abi ans (128 * 1024) h).0 ≢ none
      → svcmgr_publish abi
          (hello_server ptr)
          rdata
          readbuf
          iodata
          driver
          binder_service_manager
          hello_name
          ptr
          first_session
          mem
        ≡ ended (pos 0) s mem'
      → IsGreeting abi ptr ds
          (all_continue ds)
          (all_taken ds [])
          (server_main abi ans driver ptr rdata readbuf iodata (responses ds) mem h)
  unfolding server_main
  server_main-IsGreeting ans driver iodata s mem mem' h open_ok published =
      elim (Option-cases (binder_open abi ans (128 * 1024) h).0) [
        | inl closed ↦ absurd (open_ok closed)
        | inr (bs, opened) ↦
            let registered : IsRegistered abi (ended (pos 0) s mem') =
              subst (IsRegistered abi) published (
                svcmgr_publish-IsRegistered abi ptr rdata readbuf iodata driver
                  binder_service_manager hello_name mem) in
            rw (opened, server_main)
              (rw published
                (elim registered [ inl bad ↦ cc | inr v ↦ hello_loop-IsGreeting s mem' v ]))
      ]
