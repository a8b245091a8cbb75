-- ===== src/Binder/Call/Rounds.antt =====
-- `binder_loop` of Demos/BinderCDemo/binder4Server.c against a plain interpreter of what the driver
-- delivers: read buffers with commands, one after another.
use mathlib.Core.Path.{fun_ext}
use android_source_learn.Prelude.{ℕ, ◌≡◌, refl, ap, ◌∙◌, false, List, [], ◌∷◌}
use android_source_learn.Memory.{Memory}
use android_source_learn.Abi.{Abi}
use android_source_learn.Binder.Commands.{binder_write, enter_looper}
use android_source_learn.Binder.Parse.{Service, writes}
use android_source_learn.Binder.Parse.Incoming.{AreAllCodes, ReadsStructs}
use android_source_learn.Binder.Parse.Reference.{run, Spares}
use android_source_learn.Binder.Parse.Runs.{binder_parse-run}
use android_source_learn.Binder.Call.{Looped, loop_rounds, binder_loop}
use android_source_learn.Binder.Call.Deliveries.{
  continues, Delivery, responses, fresh_scan, after_run, serve_rounds, AreDelivered,
}
use android_source_learn.Binder.Call.Verdicts.{after_round-parsed_as, run-Judged}

module _ {S : Type 0} (abi : Abi) (svc : Service S) (rdata readbuf : ℕ) (codes : AreAllCodes abi)
    (structs : ReadsStructs abi) (spares : Spares abi svc) where
  loop_rounds-serve_rounds :
      (ds : List Delivery) (s : S) (mem : Memory)
      → AreDelivered abi rdata readbuf ds
      → loop_rounds abi svc rdata readbuf (responses ds) s mem ≡ serve_rounds abi svc rdata ds s mem
  unfolding loop_rounds
  loop_rounds-serve_rounds [] s mem h = refl
  loop_rounds-serve_rounds (d ∷ ds) s mem (h, hs) =
      rw (h.succeeds, loop_rounds)
        (rw
          (binder_parse-run abi svc codes structs spares d.commands rdata false readbuf
            d.response.read_consumed s d.response.mem h.holds h.consumed h.in_memory h.apart)
          (after_round-parsed_as abi svc rdata readbuf (continues d.commands)
              (λ s' mem'. loop_rounds abi svc rdata readbuf (responses ds) s' mem') _
              (run-Judged abi svc rdata d.commands (fresh_scan s d.response.mem))
            ∙ ap
                (λ (next : S → Memory → Looped S).
                  after_run abi svc rdata (continues d.commands) next
                    (run abi svc rdata d.commands (fresh_scan s d.response.mem)))
                (fun_ext (λ s'. fun_ext (λ mem'. loop_rounds-serve_rounds ds s' mem' hs)))))

  -- If the driver delivers read buffers that are full of commands, and handlers write only into
  -- the 256 bytes of their reply, `binder_loop` runs the commands of buffer after buffer, each
  -- once and in order, and is left after the first buffer with a reply or a failure, and after no
  -- other.
  pub binder_loop-serve_rounds :
      (ds : List Delivery) (s : S) (mem : Memory)
      → AreDelivered abi rdata readbuf ds
      → binder_loop abi svc rdata readbuf (responses ds) s mem
        ≡ serve_rounds abi svc rdata ds (writes abi svc (binder_write enter_looper) s) mem
  unfolding binder_loop
  binder_loop-serve_rounds ds s mem h =
      loop_rounds-serve_rounds ds (writes abi svc (binder_write enter_looper) s) mem h
