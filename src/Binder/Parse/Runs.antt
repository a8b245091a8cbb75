-- ===== src/Binder/Parse/Runs.antt =====
-- `binder_parse` of Demos/BinderCDemo/binder4Server.c against a plain interpreter of the commands in
-- the read buffer, whatever they are and in whatever order.
use mathlib.Core.Path.{subst}
use android_source_learn.Prelude.{
  sym, ℕ, zero, suc, ◌+◌, ◌^◌, ◌<◌, ◌≡◌, refl, Bool, true, false, none, some, List, [], ◌∷◌, ltb,
  Option-cases, inl, inr, arith,
}
use android_source_learn.Prelude.Int.{pos}
use android_source_learn.Memory.{Memory}
use android_source_learn.Abi.{Abi, Apart}
use android_source_learn.Binder.Parse.{Service, Scan, parse_loop, binder_parse}
use android_source_learn.Binder.Parse.Incoming.{
  Incoming, AreAllCodes, ReadsStructs, incoming_size, total_size, HoldsAll, HoldsAll-same,
}
use android_source_learn.Binder.Parse.Reference.{
  react, run, parsed_as, Spares, SameBut, react-SameBut,
}
use android_source_learn.Binder.Parse.Dispatch.{step, incoming_size_bound}

module _ {S : Type 0} (abi : Abi) (svc : Service S) (codes : AreAllCodes abi) where
  module _ (structs : ReadsStructs abi) (spares : Spares abi svc) where
    parse_loop-run :
        (is : List Incoming) (fuel rdata ptr end : ℕ) (sc : Scan S)
        → HoldsAll abi sc.mem ptr is
        → ptr + total_size abi is ≡ end
        → end < 2 ^ 64
        → total_size abi is < fuel
        → Apart rdata 256 ptr (total_size abi is)
        → parse_loop abi svc fuel rdata ptr end sc ≡ parsed_as abi svc (run abi svc rdata is sc)
    unfolding parse_loop
    parse_loop-run is zero rdata ptr end sc h e small f apart = absurd (omega arith)
    parse_loop-run [] (suc fuel) rdata ptr end sc h e small f apart =
        let done : ltb ptr end ≡ false = ground arith in rw (done, parse_loop) refl
    parse_loop-run (i ∷ is) (suc fuel) rdata ptr end sc (h, hs) e small f apart =
        let bound = incoming_size_bound abi svc codes i in
        let more : ltb ptr end ≡ true = ground arith in
        rw (more, parse_loop)
          (rw (step abi svc codes i rdata ptr end sc h (omega arith) small)
            (elim (Option-cases (react abi svc rdata i sc)) [
              | inl stops ↦ rw stops refl
              | inr (sc', goes) ↦
                  let same : SameBut abi svc rdata sc.mem (some sc') =
                    subst (SameBut abi svc rdata sc.mem) goes
                      (react-SameBut abi svc spares rdata i sc) in
                  let held =
                    HoldsAll-same abi structs is sc.mem sc'.mem (ptr + incoming_size abi i)
                      (λ q a b. sym (same q (omega arith))) hs in
                  rw goes (
                    parse_loop-run is fuel rdata (ptr + incoming_size abi i) end sc' held
                      (omega arith) small (omega arith) (omega arith))
            ]))

    -- If the read buffer holds commands to its end and does not overlap the 256 bytes in which
    -- handlers build replies, and handlers write nowhere else, `binder_parse` does what the plain
    -- interpreter does with these commands, one after another and each once. Transactions, deaths,
    -- reference counts, replies and failures are mixed in any order.
    pub binder_parse-run :
        (is : List Incoming) (rdata : ℕ) (wants : Bool) (ptr size : ℕ) (s : S) (mem : Memory)
        → HoldsAll abi mem ptr is
        → total_size abi is ≡ size
        → ptr + size < 2 ^ 64
        → Apart rdata 256 ptr size
        → binder_parse abi svc rdata wants ptr size s mem
          ≡ parsed_as abi svc (
              run abi svc rdata is
                (record { state = s; mem = mem; wants_reply = wants; received = none; r = pos 1 }))
    unfolding binder_parse
    binder_parse-run is rdata wants ptr size s mem h e small apart =
        parse_loop-run is (size + 1) rdata ptr (ptr + size) _ h (omega arith) small (omega arith)
          (omega arith)
