-- ===== src/HelloServer/Main/Starting.antt =====
-- `main` of the server, from its first call to its loop.
use android_source_learn.Prelude.{
  ap, ℕ, ◌*◌, ◌≡◌, refl, ◌⊎◌, true, List, [], ◌∷◌, Bool-cases, Option-cases, inl, inr, arith,
}
use android_source_learn.Prelude.Int.{ℤ, minus_one, is_nonzero}
use android_source_learn.Memory.{Memory}
use android_source_learn.Abi.{Abi, TransactionData}
use android_source_learn.Bio.{bio_init_from_txn, bio_get_uint32, bio_get}
use android_source_learn.Binder.Commands.{Trace, free_buffer, binder_done, binder_write}
use android_source_learn.Binder.Parse.{blank}
use android_source_learn.Binder.Parse.Replied.{replied}
use android_source_learn.Binder.Call.{
  Response, CallTxn, Called, finished, Ended, ended, waiting, died, Looped, left_loop,
}
use android_source_learn.Binder.Call.Loops.{
  LoopedKept, CalledKept, binder_call-Kept, binder_loop-Kept,
}
use android_source_learn.Binder.Call.Results.{IsAnswered, binder_call-IsAnswered}
use android_source_learn.Binder.Open.{Held, OpenAnswers, binder_open}
use android_source_learn.HelloServer.{publish_message, publish_status, svcmgr_publish}
use android_source_learn.ServiceManager.Handler.{svc_mgr_add_service}
use android_source_learn.HelloServer.Main.{
  Session, Run, exited, stopped, serving, crashed, hello_server, first_session, hello_name,
  binder_service_manager, after_hello_loop, after_publish, server_main,
}
use android_source_learn.HelloServer.Main.Counting.{HasSaid}
use android_source_learn.HelloServer.Main.Serving.{IsSaying, hello_server-IsKept}

-- `bio_get_uint32` on the reply of a call leaves what `binder_done` looks at.
done_after_word :
    (m : Memory) (txn : TransactionData) (bs : Trace)
    → (binder_done (bio_get_uint32 m (bio_init_from_txn blank txn)).1 bs).1
      ≡ free_buffer txn.buffer ∷ bs
unfolding binder_done binder_write bio_init_from_txn bio_get_uint32 bio_get
done_after_word m txn bs = ground arith

-- What the registration leaves: a failure, or the counters at 0 and one buffer given back,
-- or a crash, on a death notification.
abbrev pub IsRegistered : Abi → Ended ℤ Session → Type 0
IsRegistered abi (ended z s mem) = (is_nonzero z ≡ true) ⊎ HasSaid abi [] s
IsRegistered abi (waiting s mem) = s ≡ first_session
IsRegistered abi died = Unit {0}

module _ (abi : Abi) (ptr rdata readbuf iodata : ℕ) where
  publish_status-IsRegistered :
      (c : Called Session)
      → CalledKept (λ s. s ≡ first_session) (Unit {0}) c
      → IsAnswered c
      → IsRegistered abi (publish_status abi (hello_server ptr) rdata readbuf iodata c)
  publish_status-IsRegistered (finished z reply s mem) same (inl (ok, (txn, set))) =
      rw (ok, set, same)
        (inr (record {
          saying = record {
            counting = record { hellos = refl; hellos_to = refl };
            returned = (txn.buffer, rw (done_after_word mem txn []) refl);
          };
          handled = refl;
          counted = refl;
          answered = ap replied (done_after_word mem txn []);
        }))
  publish_status-IsRegistered (finished z reply s mem) same (inr (bad, lost)) = rw bad (inl refl)
  publish_status-IsRegistered (waiting s mem) same a = same
  publish_status-IsRegistered died same a = same

  pub svcmgr_publish-IsRegistered :
      (driver : CallTxn → Memory → List Response) (target : ℕ) (name : List ℕ) (mem : Memory)
      → IsRegistered abi (
          svcmgr_publish abi
            (hello_server ptr)
            rdata
            readbuf
            iodata
            driver
            target
            name
            ptr
            first_session
            mem)
  unfolding svcmgr_publish
  svcmgr_publish-IsRegistered driver target name mem =
      let msg = publish_message abi (hello_server ptr) rdata readbuf iodata name ptr mem in
      publish_status-IsRegistered _
        (binder_call-Kept abi (hello_server ptr) (λ s. s ≡ first_session) (Unit {0}) rdata readbuf
          (λ q s p. tt) driver msg.io target svc_mgr_add_service first_session msg.mem refl)
        (binder_call-IsAnswered abi (hello_server ptr) rdata readbuf driver msg.io target
          svc_mgr_add_service first_session msg.mem)

-- What can come out of `main`.
abbrev pub IsRun : Run → Type 0
IsRun (exited z) = z ≡ minus_one
IsRun (stopped s) = IsSaying s
IsRun (serving s) = (s ≡ first_session) ⊎ IsSaying s
IsRun crashed = Unit {0}

module _ (abi : Abi) (ptr rdata readbuf iodata : ℕ) (responses : List Response) where
  after_hello_loop-IsRun :
      (l : Looped Session)
      → LoopedKept abi (hello_server ptr) IsSaying (Unit {0}) l
      → IsRun (after_hello_loop l)
  after_hello_loop-IsRun (left_loop s mem) v = v
  after_hello_loop-IsRun (waiting s mem) v = inr v
  after_hello_loop-IsRun died v = tt

  after_publish-IsRun :
      (e : Ended ℤ Session)
      → IsRegistered abi e
      → IsRun (after_publish abi ptr rdata readbuf responses e)
  unfolding binder_write
  after_publish-IsRun (ended z s mem) (inl bad) = rw bad refl
  after_publish-IsRun (ended z s mem) (inr v) = elim (Bool-cases (is_nonzero z)) [
    | inl bad ↦ rw bad refl
    | inr good ↦ rw good (
        after_hello_loop-IsRun _ (
          binder_loop-Kept abi (hello_server ptr) IsSaying (Unit {0}) rdata readbuf
            (hello_server-IsKept abi ptr) responses s mem
            (record {
              counting = record {
                hellos = v.saying.counting.hellos;
                hellos_to = v.saying.counting.hellos_to;
              };
              returned = v.saying.returned;
            })))
  ]
  after_publish-IsRun (waiting s mem) v = inl v
  after_publish-IsRun died v = v

  -- Whatever the driver answers, `main` of the server exits with -1, or it waits in its registration
  -- with nothing written, or it crashes, or it has registered and serves: where it waits or is left
  -- each counter is the number of calls of its command that succeeded, modulo 2^32, and the buffers
  -- of the handled transactions, and before them that of the manager's reply, have been given back,
  -- each once and in order.
  pub server_main-IsRun :
      (ans : OpenAnswers) (driver : CallTxn → Memory → List Response) (mem : Memory) (h : Held)
      → IsRun (server_main abi ans driver ptr rdata readbuf iodata responses mem h)
  unfolding server_main
  server_main-IsRun ans driver mem h = elim (Option-cases (binder_open abi ans (128 * 1024) h).0) [
    | inl closed ↦ rw (closed, server_main) refl
    | inr (bs, opened) ↦
        rw (opened, server_main)
          (after_publish-IsRun _ (
            svcmgr_publish-IsRegistered abi ptr rdata readbuf iodata driver binder_service_manager
              hello_name mem))
  ]
