-- ===== src/Binder/Call/Loops.antt =====
-- What every handler and every death notification keeps, `binder_loop` and `binder_call` keep. `D` is
-- what is said where a handler aborts.
use android_source_learn.Prelude.{ℕ, zero, suc, true, false, List, [], ◌∷◌, Bool-cases, inl, inr}
use android_source_learn.Prelude.Int.{pos, negsuc}
use android_source_learn.Memory.{Memory}
use android_source_learn.Abi.{Abi}
use android_source_learn.Bio.{BinderIo}
use android_source_learn.Binder.Commands.{binder_write, enter_looper}
use android_source_learn.Binder.Parse.{Service, Parsed, returned, aborted, out_of_fuel, writes}
use android_source_learn.Binder.Parse.Keeps.{Notified, IsKept, ParsedKept, binder_parse-Kept}
use android_source_learn.Binder.Call.{
  Response, CallTxn, Called, finished, Looped, left_loop, waiting, died, after_round, loop_rounds,
  binder_loop, no_handler, after_parse, call_loop, binder_call,
}

module _ {S : Type 0} (abi : Abi) (svc : Service S) (P : S → Type 0) (D : Type 0) where
  -- The loop is left or waits, with a state in `P`.
  abbrev pub LoopedKept : Looped S → Type 0
  LoopedKept (left_loop s mem) = P s
  LoopedKept (waiting s mem) = P s
  LoopedKept died = D

  module _ (rdata readbuf : ℕ) (k : IsKept abi svc P D) where
    after_round-Kept :
        (next : S → Memory → Looped S) (r : Parsed S)
        → ParsedKept abi svc P D r
        → ((s : S) (mem : Memory) → P s → LoopedKept (next s mem))
        → LoopedKept (after_round abi svc rdata readbuf next r)
    after_round-Kept next (returned (pos zero) sc) p h = p
    after_round-Kept next (returned (pos (suc n)) sc) p h = h sc.state sc.mem p
    after_round-Kept next (returned (negsuc n) sc) p h = p
    after_round-Kept next aborted p h = p
    after_round-Kept next out_of_fuel p h = absurd p

    loop_rounds-Kept :
        (responses : List Response) (s : S) (mem : Memory)
        → P s
        → LoopedKept (loop_rounds abi svc rdata readbuf responses s mem)
    unfolding loop_rounds
    loop_rounds-Kept [] s mem p = p
    loop_rounds-Kept (resp ∷ rest) s mem p = elim (Bool-cases resp.failed) [
      | inl failed ↦ rw (failed, loop_rounds) p
      | inr read ↦
          rw (read, loop_rounds)
            (after_round-Kept _ _
              (binder_parse-Kept abi svc P D k rdata false readbuf resp.read_consumed s resp.mem p)
              (λ s' mem' p'. loop_rounds-Kept rest s' mem' p'))
    ]

    pub binder_loop-Kept :
        (responses : List Response) (s : S) (mem : Memory)
        → P (writes abi svc (binder_write enter_looper) s)
        → LoopedKept (binder_loop abi svc rdata readbuf responses s mem)
    unfolding binder_loop
    binder_loop-Kept responses s mem p = loop_rounds-Kept responses _ mem p

-- A call ends or waits, with a state in `P`; `D` is what is said where it dies.
abbrev pub CalledKept : {S : Type 0} → (S → Type 0) → Type 0 → Called S → Type 0
CalledKept P D (finished z reply s mem) = P s
CalledKept P D (waiting s mem) = P s
CalledKept P D died = D

module _ {S : Type 0} (abi : Abi) (svc : Service S) (P : S → Type 0) (D : Type 0)
    (rdata readbuf : ℕ) (notified : (p : ℕ) (s : S) → P s → Notified P D (svc.on_death p s)) where
  no_handler-IsKept : IsKept abi (no_handler abi svc rdata readbuf) P D
  no_handler-IsKept = record { handled = λ func s txn msg reply has p. cc; notified = notified }

  after_parse-Kept :
      (next : BinderIo → S → Memory → Called S) (reply : BinderIo) (r : Parsed S)
      → ParsedKept abi (no_handler abi svc rdata readbuf) P D r
      → ((reply' : BinderIo) (s : S) (mem : Memory) → P s → CalledKept P D (next reply' s mem))
      → CalledKept P D (after_parse abi svc rdata readbuf next reply r)
  after_parse-Kept next reply (returned (pos zero) sc) p h = p
  after_parse-Kept next reply (returned (pos (suc n)) sc) p h = h _ _ _ p
  after_parse-Kept next reply (returned (negsuc n) sc) p h = p
  after_parse-Kept next reply aborted p h = p
  after_parse-Kept next reply out_of_fuel p h = absurd p

  call_loop-Kept :
      (responses : List Response) (reply : BinderIo) (s : S) (mem : Memory)
      → P s
      → CalledKept P D (call_loop abi svc rdata readbuf responses reply s mem)
  unfolding call_loop
  call_loop-Kept [] reply s mem p = p
  call_loop-Kept (resp ∷ rest) reply s mem p = elim (Bool-cases resp.failed) [
    | inl bad ↦ rw (bad, call_loop) p
    | inr good ↦
        rw (good, call_loop)
          (after_parse-Kept _ reply _
            (binder_parse-Kept abi (no_handler abi svc rdata readbuf) P D no_handler-IsKept rdata
              true readbuf resp.read_consumed s resp.mem p)
            (λ reply' s' mem' p'. call_loop-Kept rest reply' s' mem' p'))
  ]

  -- A call runs no handler: what death notifications keep is kept.
  pub binder_call-Kept :
      (driver : CallTxn → Memory → List Response) (msg : BinderIo) (target code : ℕ) (s : S)
      (mem : Memory)
      → P s
      → CalledKept P D (binder_call abi svc rdata readbuf driver msg target code s mem)
  unfolding binder_call
  binder_call-Kept driver msg target code s mem p = elim (Bool-cases msg.flags.overflow) [
    | inl over ↦ rw (over, binder_call) p
    | inr fits ↦ rw (fits, binder_call) (call_loop-Kept _ _ s mem p)
  ]
