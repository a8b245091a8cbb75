-- ===== src/Binder/Call/Deliveries.antt =====
-- What the driver delivers to `binder_loop` of Demos/BinderCDemo/binder4Server.c, and a plain
-- interpreter of it, to which the loop is compared.
use android_source_learn.Prelude.{
  ℕ, ◌+◌, ◌^◌, ◌<◌, ◌≡◌, Bool, true, false, Option, none, some, List, [], ◌∷◌, map,
}
use android_source_learn.Prelude.Int.{pos}
use android_source_learn.Memory.{Memory}
use android_source_learn.Abi.{Abi, Apart}
use android_source_learn.Binder.Parse.{Service, Scan}
use android_source_learn.Binder.Parse.Stream.{counted, noop, complete, reply}
use android_source_learn.Binder.Parse.Incoming.{
  Incoming, sent, transaction, transaction_sec_ctx, dead_binder, reply_failed, reply_dead,
  total_size, HoldsAll,
}
use android_source_learn.Binder.Parse.Reference.{run}
use android_source_learn.Binder.Call.{Response, Looped, left_loop, waiting, died}

-- The commands are none that end the loop: replies and failures.
abbrev pub continues : List Incoming → Bool
continues [] = true
continues (sent noop ∷ is) = continues is
continues (sent complete ∷ is) = continues is
continues (sent (reply _) ∷ is) = false
continues (sent (counted _) ∷ is) = continues is
continues (transaction _ ∷ is) = continues is
continues (transaction_sec_ctx _ ∷ is) = continues is
continues (dead_binder _ ∷ is) = continues is
continues (reply_failed ∷ is) = false
continues (reply_dead ∷ is) = false

-- One answer of the driver, and the commands in it.
pub record Delivery : Type 0 where
  pub response : Response
  pub commands : List Incoming

abbrev pub responses : List Delivery → List Response
responses ds = map (λ (d : Delivery). d.response) ds

-- The variables of `binder_parse` at its start, without a `bio`.
abbrev pub fresh_scan : {S : Type 0} → S → Memory → Scan S
fresh_scan s mem = record { state = s; mem = mem; wants_reply = false; received = none; r = pos 1 }

module _ {S : Type 0} (abi : Abi) (svc : Service S) (rdata : ℕ) where
  abbrev pub after_run : Bool → (S → Memory → Looped S) → Option (Scan S) → Looped S
  after_run b next none = died
  after_run true next (some sc) = next sc.state sc.mem
  after_run false next (some sc) = left_loop sc.state sc.mem

  -- Buffer after buffer, up to the first one with a reply or a failure.
  abbrev pub serve_rounds : List Delivery → S → Memory → Looped S
  serve_rounds [] s mem = waiting s mem
  serve_rounds (d ∷ ds) s mem =
      after_run (continues d.commands) (λ s' mem'. serve_rounds ds s' mem')
        (run abi svc rdata d.commands (fresh_scan s d.response.mem))

module _ (abi : Abi) (rdata readbuf : ℕ) where
  -- The ioctl succeeds and fills the read buffer with the commands, apart from the 256 bytes of the
  -- replies.
  pub record IsDelivered (d : Delivery) : Type 0 where
    pub succeeds : d.response.failed ≡ false
    pub holds : HoldsAll abi d.response.mem readbuf d.commands
    pub consumed : total_size abi d.commands ≡ d.response.read_consumed
    pub in_memory : readbuf + d.response.read_consumed < 2 ^ 64
    pub apart : Apart rdata 256 readbuf d.response.read_consumed

  abbrev pub AreDelivered : List Delivery → Type 0
  AreDelivered [] = Unit {0}
  AreDelivered (d ∷ ds) = IsDelivered d × AreDelivered ds
