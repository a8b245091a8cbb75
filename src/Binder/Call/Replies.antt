-- ===== src/Binder/Call/Replies.antt =====
-- A call ends with the first reply that the driver delivers.
use mathlib.Core.Option.{some-injective}
use android_source_learn.Prelude.{
  ap, ℕ, ◌+◌, ◌^◌, ◌<◌, ◌≡◌, refl, ◌∙◌, true, false, Option, none, some, List, [], ◌∷◌, ◌++◌,
}
use android_source_learn.Prelude.Int.{pos}
use android_source_learn.Memory.{Memory}
use android_source_learn.Abi.{Abi, TransactionData}
use android_source_learn.Bio.{BinderIo, bio_init_from_txn}
use android_source_learn.Binder.Parse.{Service, Scan, blank}
use android_source_learn.Binder.Parse.Stream.{
  counted, Sent, noop, complete, reply, AreCodes, stream_size, HoldsStream, scan_after,
  binder_parse-scan_after,
}
use android_source_learn.Binder.Call.{
  Response, CallTxn, finished, call_txn, no_handler, call_loop, binder_call,
}

-- The first reply among the commands.
abbrev pub first_reply : List Sent → Option TransactionData
first_reply [] = none
first_reply (reply txn ∷ is) = some txn
first_reply (noop ∷ is) = first_reply is
first_reply (complete ∷ is) = first_reply is
first_reply (counted c ∷ is) = first_reply is

module _ {S : Type 0} where
  -- The variables of the loop before a reply, and after one.
  abbrev asked : S → Memory → Scan S
  asked s mem = record { state = s; mem = mem; wants_reply = true; received = none; r = pos 1 }

  abbrev settled : S → Memory → BinderIo → Scan S
  settled s mem io = record {
    state = s;
    mem = mem;
    wants_reply = false;
    received = some io;
    r = pos 0;
  }

  scan_after-settled :
      (is : List Sent) (s : S) (mem : Memory) (io : BinderIo)
      → scan_after is (settled s mem io) ≡ settled s mem io
  scan_after-settled [] s mem io = refl
  scan_after-settled (noop ∷ is) s mem io = scan_after-settled is s mem io
  scan_after-settled (complete ∷ is) s mem io = scan_after-settled is s mem io
  scan_after-settled (counted c ∷ is) s mem io = scan_after-settled is s mem io
  scan_after-settled (reply txn ∷ is) s mem io = scan_after-settled is s mem io

  scan_after-first :
      (is : List Sent) (txn : TransactionData) (s : S) (mem : Memory)
      → first_reply is ≡ some txn
      → scan_after is (asked s mem) ≡ settled s mem (bio_init_from_txn blank txn)
  scan_after-first [] txn s mem e = cc
  scan_after-first (noop ∷ is) txn s mem e = scan_after-first is txn s mem e
  scan_after-first (complete ∷ is) txn s mem e = scan_after-first is txn s mem e
  scan_after-first (counted c ∷ is) txn s mem e = scan_after-first is txn s mem e
  scan_after-first (reply txn' ∷ is) txn s mem e =
      scan_after-settled is s mem (bio_init_from_txn blank txn')
      ∙ ap (λ (t : TransactionData). settled s mem (bio_init_from_txn blank t))
          (some-injective _ _ e)

  scan_after-none :
      (is : List Sent) (s : S) (mem : Memory)
      → first_reply is ≡ none
      → scan_after is (asked s mem) ≡ asked s mem
  scan_after-none [] s mem e = refl
  scan_after-none (noop ∷ is) s mem e = scan_after-none is s mem e
  scan_after-none (complete ∷ is) s mem e = scan_after-none is s mem e
  scan_after-none (counted c ∷ is) s mem e = scan_after-none is s mem e
  scan_after-none (reply txn ∷ is) s mem e = cc

module _ (abi : Abi) (readbuf : ℕ) where
  -- The ioctl succeeds and fills the read buffer with these commands.
  pub record Delivers (resp : Response) (is : List Sent) : Type 0 where
    pub succeeds : resp.failed ≡ false
    pub holds : HoldsStream abi resp.mem readbuf is
    pub consumed : stream_size abi is ≡ resp.read_consumed
    pub in_memory : readbuf + resp.read_consumed < 2 ^ 64

  -- Answers without a reply: acknowledgements and changes of reference counts.
  abbrev pub AreQuiet : List Response → Type 0
  AreQuiet [] = Unit {0}
  AreQuiet (resp ∷ rest) =
      ((is : List Sent) × Delivers resp is × (first_reply is ≡ none)) × AreQuiet rest

module _ {S : Type 0} (abi : Abi) (svc : Service S) (rdata readbuf : ℕ) (codes : AreCodes abi) where
  call_loop-quiet :
      (resp : Response) (rest : List Response) (is : List Sent) (io : BinderIo) (s : S)
      (mem : Memory)
      → Delivers abi readbuf resp is
      → first_reply is ≡ none
      → call_loop abi svc rdata readbuf (resp ∷ rest) io s mem
        ≡ call_loop abi svc rdata readbuf rest io s resp.mem
  unfolding call_loop
  call_loop-quiet resp rest is io s mem d quiet =
      rw (d.succeeds, call_loop)
        (rw
          (
            binder_parse-scan_after abi (no_handler abi svc rdata readbuf) codes is rdata readbuf
                resp.read_consumed s resp.mem d.holds d.consumed d.in_memory,
            scan_after-none is s resp.mem quiet,
          )
          refl)

  call_loop-replied :
      (resp : Response) (rest : List Response) (is : List Sent) (txn : TransactionData)
      (io : BinderIo) (s : S) (mem : Memory)
      → Delivers abi readbuf resp is
      → first_reply is ≡ some txn
      → call_loop abi svc rdata readbuf (resp ∷ rest) io s mem
        ≡ finished (pos 0) (bio_init_from_txn blank txn) s resp.mem
  unfolding call_loop
  call_loop-replied resp rest is txn io s mem d first =
      rw (d.succeeds, call_loop)
        (rw
          (
            binder_parse-scan_after abi (no_handler abi svc rdata readbuf) codes is rdata readbuf
                resp.read_consumed s resp.mem d.holds d.consumed d.in_memory,
            scan_after-first is txn s resp.mem first,
          )
          refl)

  call_loop-ends :
      (quiet : List Response) (resp : Response) (rest : List Response) (is : List Sent)
      (txn : TransactionData) (io : BinderIo) (s : S) (mem : Memory)
      → AreQuiet abi readbuf quiet
      → Delivers abi readbuf resp is
      → first_reply is ≡ some txn
      → call_loop abi svc rdata readbuf (quiet ++ resp ∷ rest) io s mem
        ≡ finished (pos 0) (bio_init_from_txn blank txn) s resp.mem
  call_loop-ends [] resp rest is txn io s mem q d first =
      call_loop-replied resp rest is txn io s mem d first
  call_loop-ends (one ∷ quiet) resp rest is txn io s mem ((js, d', none_yet), q) d first =
      call_loop-quiet one (quiet ++ resp ∷ rest) js io s mem d' none_yet
      ∙ call_loop-ends quiet resp rest is txn io s one.mem q d first

  -- A call whose message did not overflow ends once the driver delivers a reply: after any number of
  -- answers with acknowledgements and changes of reference counts alone, and with an answer whose first reply is `txn`, it returns 0 and hands over
  -- that reply; the state of the process is unchanged.
  pub binder_call-replied :
      (driver : CallTxn → Memory → List Response) (msg : BinderIo) (target code : ℕ) (s : S)
      (mem : Memory) (quiet : List Response) (resp : Response) (rest : List Response)
      (is : List Sent) (txn : TransactionData)
      → msg.flags.overflow ≡ false
      → driver (call_txn msg target code) mem ≡ quiet ++ resp ∷ rest
      → AreQuiet abi readbuf quiet
      → Delivers abi readbuf resp is
      → first_reply is ≡ some txn
      → binder_call abi svc rdata readbuf driver msg target code s mem
        ≡ finished (pos 0) (bio_init_from_txn blank txn) s resp.mem
  unfolding binder_call
  binder_call-replied driver msg target code s mem quiet resp rest is txn fits answers q d first =
      rw (fits, answers, binder_call) (call_loop-ends quiet resp rest is txn blank s mem q d first)
