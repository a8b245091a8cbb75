-- ===== src/HelloClient/Main/Ending.antt =====
-- What the client has written to the driver when it ends.
use android_source_learn.Prelude.{
  ℕ, ◌*◌, ◌<◌, ◌≡◌, refl, ◌⊎◌, List, [], ◌∷◌, ltb, false, ◌==◌, Bool-cases, Option-cases, inl, inr,
  arith,
}
use android_source_learn.Prelude.Int.{pos, minus_one}
use android_source_learn.Memory.{Memory}
use android_source_learn.Abi.{Abi, TransactionData}
use android_source_learn.Bio.{bio_init_from_txn, bio_get_ref, bio_get_obj, bio_get}
use android_source_learn.Binder.Commands.{
  Trace, free_buffer, acquire, binder_done, binder_write, binder_acquire,
}
use android_source_learn.Binder.Parse.{blank}
use android_source_learn.Binder.Call.{
  Response, CallTxn, Called, finished, Ended, ended, waiting, died,
}
use android_source_learn.Binder.Call.Loops.{CalledKept, binder_call-Kept}
use android_source_learn.Binder.Call.Results.{IsAnswered, binder_call-IsAnswered}
use android_source_learn.Binder.Open.{Held, OpenAnswers, binder_open}
use android_source_learn.ServiceManager.Handler.{svc_mgr_check_service}
use android_source_learn.HelloServer.{hello_svr_cmd_sayhello}
use android_source_learn.HelloServer.Main.{hello_name, binder_service_manager}
use android_source_learn.HelloClient.{
  lookup_message, lookup_result, svcmgr_lookup, sayhello_message, sayhello_result, sayhello,
}
use android_source_learn.HelloClient.Main.{
  hello_client, ClientRun, exited, pending, crashed, after_sayhello, after_lookup, client_main,
}

-- Nothing is written, or the buffer of a reply that holds no handle has been given back.
abbrev IsUnserved : Trace → Type 0
IsUnserved s = (s ≡ []) ⊎ ((b : ℕ) × (s ≡ free_buffer b ∷ []))

-- A handle has been acquired, and after it the buffer of the reply given back.
abbrev IsServed : Trace → Type 0
IsServed s = (handle : ℕ) × (b : ℕ) × (0 < handle) × (s ≡ free_buffer b ∷ acquire handle ∷ [])

-- The buffer of the reply to the call has been given back too.
abbrev IsGreeted : Trace → Type 0
IsGreeted s = (b : ℕ) × (t : Trace) × IsServed t × (s ≡ free_buffer b ∷ t)

-- What can come out of `main`.
abbrev pub IsClientRun : ClientRun → Type 0
IsClientRun (exited z s) =
    ((z ≡ minus_one) × IsUnserved s) ⊎ ((z ≡ pos 0) × (IsServed s ⊎ IsGreeted s))
IsClientRun (pending s) = (s ≡ []) ⊎ IsServed s
IsClientRun crashed = Unit {0}

-- `bio_get_ref` on the reply of a call leaves what `binder_done` looks at.
done_after_ref :
    (abi : Abi) (m : Memory) (txn : TransactionData) (bs : Trace)
    → (binder_done (bio_get_ref abi m (bio_init_from_txn blank txn)).1 bs).1
      ≡ free_buffer txn.buffer ∷ bs
unfolding binder_done binder_write bio_init_from_txn bio_get_ref bio_get_obj bio_get
done_after_ref abi m txn bs = ground arith

abbrev IsLookedUp : Ended ℕ Trace → Type 0
IsLookedUp (ended handle s mem) = ((handle ≡ 0) × IsUnserved s) ⊎ ((0 < handle) × IsServed s)
IsLookedUp (waiting s mem) = s ≡ []
IsLookedUp died = Unit {0}

abbrev IsCalled : Trace → Ended (Unit {0}) Trace → Type 0
IsCalled t (ended done s mem) = (s ≡ t) ⊎ ((b : ℕ) × (s ≡ free_buffer b ∷ t))
IsCalled t (waiting s mem) = s ≡ t
IsCalled t died = Unit {0}

module _ (abi : Abi) (rdata readbuf iodata : ℕ) where
  lookup_result-IsLookedUp :
      (c : Called Trace)
      → CalledKept (λ s. s ≡ []) (Unit {0}) c
      → IsAnswered c
      → IsLookedUp (lookup_result abi hello_client rdata readbuf iodata c)
  unfolding binder_acquire binder_write
  lookup_result-IsLookedUp (finished z reply s mem) same (inl (ok, (txn, set))) =
      let handle = (bio_get_ref abi mem (bio_init_from_txn blank txn)).0 in
      elim (Bool-cases (ltb 0 handle)) [
        | inl found ↦
            rw (ok, set, same, found, done_after_ref abi mem txn (acquire handle ∷ []))
              (inr (ground arith, (handle, txn.buffer, ground arith, refl)))
        | inr missing ↦
            rw (ok, set, same, missing, done_after_ref abi mem txn [])
              (inl (ground arith, inr (txn.buffer, refl)))
      ]
  lookup_result-IsLookedUp (finished z reply s mem) same (inr (bad, lost)) =
      rw bad (inl (refl, inl same))
  lookup_result-IsLookedUp (waiting s mem) same a = same
  lookup_result-IsLookedUp died same a = same

  sayhello_result-IsCalled :
      (t : Trace) (c : Called Trace)
      → CalledKept (λ s. s ≡ t) (Unit {0}) c
      → IsAnswered c
      → IsCalled t (sayhello_result abi hello_client rdata readbuf iodata c)
  unfolding binder_done binder_write bio_init_from_txn
  sayhello_result-IsCalled t (finished z reply s mem) same (inl (ok, (txn, set))) =
      rw (ok, set, same) (inr (txn.buffer, refl))
  sayhello_result-IsCalled t (finished z reply s mem) same (inr (bad, lost)) = rw bad (inl same)
  sayhello_result-IsCalled t (waiting s mem) same a = same
  sayhello_result-IsCalled t died same a = same

  module _ (driver : CallTxn → Memory → List Response) where
    svcmgr_lookup-IsLookedUp :
        (target : ℕ) (name : List ℕ) (mem : Memory)
        → IsLookedUp (svcmgr_lookup abi hello_client rdata readbuf iodata driver target name [] mem)
    unfolding svcmgr_lookup
    svcmgr_lookup-IsLookedUp target name mem =
        let msg = lookup_message iodata name mem in
        lookup_result-IsLookedUp _
          (binder_call-Kept abi hello_client (λ s. s ≡ []) (Unit {0}) rdata readbuf (λ q s p. tt)
            driver msg.io target svc_mgr_check_service [] msg.mem refl)
          (binder_call-IsAnswered abi hello_client rdata readbuf driver msg.io target
            svc_mgr_check_service [] msg.mem)

    sayhello-IsCalled :
        (g_handle : ℕ) (t : Trace) (mem : Memory)
        → IsCalled t (sayhello abi hello_client rdata readbuf iodata driver g_handle t mem)
    unfolding sayhello
    sayhello-IsCalled g_handle t mem =
        let msg = sayhello_message iodata mem in
        sayhello_result-IsCalled t _
          (binder_call-Kept abi hello_client (λ s. s ≡ t) (Unit {0}) rdata readbuf (λ q s p. tt)
            driver msg.io g_handle hello_svr_cmd_sayhello t msg.mem refl)
          (binder_call-IsAnswered abi hello_client rdata readbuf driver msg.io g_handle
            hello_svr_cmd_sayhello t msg.mem)

    after_sayhello-IsClientRun :
        (t : Trace) (e : Ended (Unit {0}) Trace)
        → IsServed t
        → IsCalled t e
        → IsClientRun (after_sayhello e)
    after_sayhello-IsClientRun t (ended done s mem) served (inl same) =
        inr (refl, inl (rw same served))
    after_sayhello-IsClientRun t (ended done s mem) served (inr (b, freed)) =
        inr (refl, inr (b, t, served, freed))
    after_sayhello-IsClientRun t (waiting s mem) served same = inr (rw same served)
    after_sayhello-IsClientRun t died served c = c

    after_lookup-IsClientRun :
        (e : Ended ℕ Trace)
        → IsLookedUp e
        → IsClientRun (after_lookup abi rdata readbuf iodata driver e)
    after_lookup-IsClientRun (ended handle s mem) (inl (missing, u)) = rw missing (inl (refl, u))
    after_lookup-IsClientRun (ended handle s mem) (inr (found, served)) =
        let live : (handle == 0) ≡ false = ground arith in
        rw live (after_sayhello-IsClientRun s _ served (sayhello-IsCalled handle s mem))
    after_lookup-IsClientRun (waiting s mem) same = inl same
    after_lookup-IsClientRun died c = c

    -- Whatever the driver answers, unless a death is notified, of which the client has asked for none,
    -- `main` of the client balances its references and buffers: it exits with -1 if it finds no handle, with nothing written but the release of
    -- the manager's reply; else it has acquired the handle before it gave that reply back, and ends
    -- with 0, after a call whose reply, if one came, has been given back too. Where it waits it has
    -- written nothing, or it holds the handle.
    pub client_main-IsClientRun :
        (ans : OpenAnswers) (mem : Memory) (h : Held)
        → IsClientRun (client_main abi rdata readbuf iodata driver ans mem h)
    unfolding client_main
    client_main-IsClientRun ans mem h = elim (Option-cases (binder_open abi ans (128 * 1024) h).0) [
      | inl closed ↦ rw (closed, client_main) (inl (refl, inl refl))
      | inr (bs, opened) ↦
          rw (opened, client_main)
            (after_lookup-IsClientRun _
              (svcmgr_lookup-IsLookedUp binder_service_manager hello_name mem))
    ]
