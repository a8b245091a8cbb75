-- ===== src/Binder/Parse/Stream.antt =====
-- What `binder_parse` makes of the read buffer that the driver fills during a call.
use mathlib.Core.Path.{subst, subst₂}
use android_source_learn.Prelude.{
  sym, ℕ, zero, suc, ◌+◌, ◌^◌, ◌≤◌, ◌<◌, ◌≡◌, refl, ◌≢◌, true, false, none, some, List, [], ◌∷◌,
  ltb, if◌then◌else◌, arith,
}
use android_source_learn.Prelude.Int.{pos}
use android_source_learn.Memory.{Memory, load}
use android_source_learn.Abi.{Abi, TransactionData}
use android_source_learn.Bio.{bio_init_from_txn}
use android_source_learn.Binder.Parse.{
  Service, Scan, go, returned, blank, left, on_reply, parse_command, parse_loop, binder_parse,
}

-- The changes of a reference count.
pub data Count : Type 0 where
  increfs acquire release decrefs : Count

-- `c` is none of the numbers.
abbrev pub Unlike : ℕ → List ℕ → Type 0
Unlike c [] = Unit {0}
Unlike c (d ∷ ds) = (c ≢ d) × Unlike c ds

-- The commands that the driver sends to a process that waits for a reply, without transactions,
-- deaths and failures.
pub data Sent : Type 0 where
  noop complete : Sent
  counted : Count → Sent
  reply : TransactionData → Sent

module _ (abi : Abi) where
  abbrev pub count_code : Count → ℕ
  count_code increfs = abi.br_increfs
  count_code acquire = abi.br_acquire
  count_code release = abi.br_release
  count_code decrefs = abi.br_decrefs

  abbrev pub empty_codes : List ℕ
  empty_codes = abi.br_noop ∷ abi.br_transaction_complete ∷ []

-- The codes of the commands are different numbers, as far as the switch has to tell them apart.
pub record AreCodes (abi : Abi) : Type 0 where
  pub noop : abi.br_reply ≢ abi.br_noop
  pub complete : abi.br_reply ≢ abi.br_transaction_complete
  pub increfs : abi.br_reply ≢ abi.br_increfs
  pub acquire : abi.br_reply ≢ abi.br_acquire
  pub release : abi.br_reply ≢ abi.br_release
  pub decrefs : abi.br_reply ≢ abi.br_decrefs
  pub sec_ctx : abi.br_reply ≢ abi.br_transaction_sec_ctx
  pub transaction : abi.br_reply ≢ abi.br_transaction
  pub counts : (c : Count) → Unlike (count_code abi c) (empty_codes abi)

module _ (abi : Abi) where
  abbrev pub sent_size : Sent → ℕ
  sent_size noop = 4
  sent_size complete = 4
  sent_size (counted c) = 4 + abi.sizeof_ptr_cookie
  sent_size (reply txn) = 4 + abi.sizeof_txn

  abbrev pub stream_size : List Sent → ℕ
  stream_size [] = 0
  stream_size (i ∷ is) = sent_size i + stream_size is

  abbrev pub HoldsSent : Memory → ℕ → Sent → Type 0
  HoldsSent m p noop = load 4 m p ≡ abi.br_noop
  HoldsSent m p complete = load 4 m p ≡ abi.br_transaction_complete
  HoldsSent m p (counted c) = load 4 m p ≡ count_code abi c
  HoldsSent m p (reply txn) = (load 4 m p ≡ abi.br_reply) × (abi.read_txn m (p + 4) ≡ txn)

  abbrev pub HoldsStream : Memory → ℕ → List Sent → Type 0
  HoldsStream m p [] = Unit {0}
  HoldsStream m p (i ∷ is) = HoldsSent m p i × HoldsStream m (p + sent_size i) is

-- What a reply leaves in the variables of the loop: `*bio` is set by the first.
abbrev pub take_reply : {S : Type 0} → TransactionData → Scan S → Scan S
take_reply txn sc =
    if sc.wants_reply
    then record sc { received = some (bio_init_from_txn blank txn); wants_reply = false; r = pos 0 }
    else record sc { r = pos 0 }

abbrev pub scan_after : {S : Type 0} → List Sent → Scan S → Scan S
scan_after [] sc = sc
scan_after (noop ∷ is) sc = scan_after is sc
scan_after (complete ∷ is) sc = scan_after is sc
scan_after (counted c ∷ is) sc = scan_after is sc
scan_after (reply txn ∷ is) sc = scan_after is (take_reply txn sc)

pub take_reply-mem :
    {S : Type 0} (txn : TransactionData) (sc : Scan S) → (take_reply txn sc).mem ≡ sc.mem
take_reply-mem txn sc = ground arith

module _ {S : Type 0} (abi : Abi) (svc : Service S) (codes : AreCodes abi) where
  pub on_reply-room :
      (ptr end : ℕ) (txn : TransactionData) (sc : Scan S)
      → ptr + abi.sizeof_txn ≤ end
      → end < 2 ^ 64
      → abi.read_txn sc.mem ptr ≡ txn
      → on_reply abi svc ptr end sc ≡ go (ptr + abi.sizeof_txn) (take_reply txn sc)
  unfolding on_reply
  on_reply-room ptr end txn sc room small held =
      let enough : ltb (left abi svc end ptr) abi.sizeof_txn ≡ false = ground arith in
      rw (enough, held, on_reply) (ground arith)

  pub parse_command-reply :
      (rdata ptr end : ℕ) (sc : Scan S)
      → parse_command abi svc rdata abi.br_reply ptr end sc ≡ on_reply abi svc ptr end sc
  unfolding parse_command
  parse_command-reply rdata ptr end sc = ground (
    arith, codes.noop, codes.complete, codes.increfs, codes.acquire, codes.release, codes.decrefs,
    codes.sec_ctx, codes.transaction,
  )

  pub parse_command-noop :
      (rdata ptr end : ℕ) (sc : Scan S)
      → parse_command abi svc rdata abi.br_noop ptr end sc ≡ go ptr sc
  unfolding parse_command
  parse_command-noop rdata ptr end sc = ground arith

  pub parse_command_complete :
      (rdata ptr end : ℕ) (sc : Scan S)
      → parse_command abi svc rdata abi.br_transaction_complete ptr end sc ≡ go ptr sc
  unfolding parse_command
  parse_command_complete rdata ptr end sc = ground arith

  pub parse_command-counted :
      (c : Count) (rdata ptr end : ℕ) (sc : Scan S)
      → parse_command abi svc rdata (count_code abi c) ptr end sc
        ≡ go (ptr + abi.sizeof_ptr_cookie) sc
  unfolding parse_command
  parse_command-counted increfs rdata ptr end sc = ground (arith, codes.counts increfs)
  parse_command-counted acquire rdata ptr end sc = ground (arith, codes.counts acquire)
  parse_command-counted release rdata ptr end sc = ground (arith, codes.counts release)
  parse_command-counted decrefs rdata ptr end sc = ground (arith, codes.counts decrefs)

  parse_loop-scan_after :
      (is : List Sent) (fuel rdata ptr end : ℕ) (sc : Scan S)
      → HoldsStream abi sc.mem ptr is
      → ptr + stream_size abi is ≡ end
      → end < 2 ^ 64
      → stream_size abi is < fuel
      → parse_loop abi svc fuel rdata ptr end sc ≡ returned (scan_after is sc).r (scan_after is sc)
  unfolding parse_loop
  parse_loop-scan_after is zero rdata ptr end sc h e small f = absurd (omega arith)
  parse_loop-scan_after [] (suc fuel) rdata ptr end sc h e small f =
      let done : ltb ptr end ≡ false = ground arith in rw (done, parse_loop) refl
  parse_loop-scan_after (noop ∷ is) (suc fuel) rdata ptr end sc (h, hs) e small f =
      let more : ltb ptr end ≡ true = ground arith in
      rw (more, parse_loop)
        (rw (h, parse_command-noop rdata (ptr + 4) end sc)
          (parse_loop-scan_after is fuel rdata (ptr + 4) end sc hs (omega arith) small
            (omega arith)))
  parse_loop-scan_after (complete ∷ is) (suc fuel) rdata ptr end sc (h, hs) e small f =
      let more : ltb ptr end ≡ true = ground arith in
      rw (more, parse_loop)
        (rw (h, parse_command_complete rdata (ptr + 4) end sc)
          (parse_loop-scan_after is fuel rdata (ptr + 4) end sc hs (omega arith) small
            (omega arith)))
  parse_loop-scan_after (counted c ∷ is) (suc fuel) rdata ptr end sc (h, hs) e small f =
      let more : ltb ptr end ≡ true = ground arith in
      rw (more, parse_loop)
        (rw (h, parse_command-counted c rdata (ptr + 4) end sc)
          (parse_loop-scan_after is fuel rdata (ptr + 4 + abi.sizeof_ptr_cookie) end sc
            (subst (λ (a : ℕ). HoldsStream abi sc.mem a is) (omega arith) hs) (omega arith) small
            (omega arith)))
  parse_loop-scan_after (reply txn ∷ is) (suc fuel) rdata ptr end sc (h, hs) e small f =
      let more : ltb ptr end ≡ true = ground arith in
      rw (more, parse_loop)
        (rw
          (
            h.0,
            parse_command-reply rdata (ptr + 4) end sc,
            on_reply-room (ptr + 4) end txn sc (omega arith) small h.1,
          )
          (parse_loop-scan_after is fuel rdata (ptr + 4 + abi.sizeof_txn) end (take_reply txn sc)
            (subst₂ (λ m a. HoldsStream abi m a is) (sym (take_reply-mem txn sc)) (omega arith) hs)
            (omega arith) small (omega arith)))

  -- A buffer that holds commands for a waiting caller is parsed to its end: replies set the result
  -- to 0, and the first of them is handed over.
  pub binder_parse-scan_after :
      (is : List Sent) (rdata ptr size : ℕ) (s : S) (mem : Memory)
      → HoldsStream abi mem ptr is
      → stream_size abi is ≡ size
      → ptr + size < 2 ^ 64
      → let sc =
          scan_after is
            (record { state = s; mem = mem; wants_reply = true; received = none; r = pos 1 }) in
        binder_parse abi svc rdata true ptr size s mem ≡ returned sc.r sc
  unfolding binder_parse
  binder_parse-scan_after is rdata ptr size s mem h e small =
      parse_loop-scan_after is (size + 1) rdata ptr (ptr + size) _ h (omega arith) small
        (omega arith)
