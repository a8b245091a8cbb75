-- ===== src/Tests/Deliveries.antt =====
-- Read buffers with several commands, delivered to the service manager.
use android_source_learn.Prelude.{ℕ, ◌+◌, ◌≡◌, refl, false, List, [], ◌∷◌, inl, arith}
use android_source_learn.Memory.{Memory, store, load, set_byte}
use android_source_learn.Memory.Frame.{Agree, load-Agree}
use android_source_learn.Binder.Commands.{binder_write, enter_looper}
use android_source_learn.Binder.Parse.{Service, writes, binder_parse}
use android_source_learn.Binder.Parse.Stream.{noop, counted, decrefs}
use android_source_learn.Binder.Parse.Incoming.{
  Incoming, sent, transaction, dead_binder, reply_dead, AreAllCodes, ReadsStructs, HoldsAll,
}
use android_source_learn.Binder.Parse.Reference.{run, parsed_as}
use android_source_learn.Binder.Parse.Runs.{binder_parse-run}
use android_source_learn.Binder.Open.{binder_open, binder_become_context_manager}
use android_source_learn.Binder.Call.{binder_loop}
use android_source_learn.Binder.Call.Deliveries.{
  Delivery, responses, fresh_scan, serve_rounds, AreDelivered,
}
use android_source_learn.Binder.Call.Rounds.{binder_loop-serve_rounds}
use android_source_learn.ServiceManager.Main.{Process, manager_service, first_process, svcmgr_main}
use android_source_learn.ServiceManager.Main.Handling.{manager_service-Spares}
use android_source_learn.ServiceManager.Main.Delivered.{IsServed, StartsUp, svcmgr_main-IsServed}
use android_source_learn.Tests.World.{zeros, kernel, kernel-IsObjectLayout, policy, read_words}
use android_source_learn.Tests.Exchanges.{kernel-AreCodes}
use android_source_learn.Tests.Manager.{bump_environment, bump-IsMalloc, smooth_start, nothing}

pub kernel-AreAllCodes : AreAllCodes kernel
kernel-AreAllCodes = record {
  replies = kernel-AreCodes;
  sec_ctx = ground arith;
  plain = ground arith;
  dead = ground arith;
  failed = ground arith;
  lost = ground arith;
}

word : (m m' : Memory) (p d n : ℕ) → Agree p (d + 8 + n) m m' → load 8 m (p + d) ≡ load 8 m' (p + d)
word m m' p d n same = load-Agree 8 m m' (p + d) (λ q a b. same q (omega arith) (omega arith))

read_words_same : (m m' : Memory) (p : ℕ) → Agree p 72 m m' → read_words m p ≡ read_words m' p
read_words_same m m' p same =
    rw
      (
        load-Agree 8 m m' p (λ q a b. same q a (omega arith)),
        word m m' p 8 56 same,
        word m m' p 16 48 same,
        word m m' p 24 40 same,
        word m m' p 32 32 same,
        word m m' p 40 24 same,
        word m m' p 48 16 same,
        word m m' p 56 8 same,
        word m m' p 64 0 same,
      )
      refl

pub kernel-ReadsStructs : ReadsStructs kernel
kernel-ReadsStructs = record {
  plain = read_words_same;
  sec_ctx = λ m m' p same.
      rw (read_words_same m m' p (λ q a b. same q a (omega arith)), word m m' p 72 0 same) refl;
}

abbrev pub manager : Service Process
manager = manager_service policy kernel bump_environment

-- BR_NOOP, BR_TRANSACTION with a ping and the buffer 9000, BR_DECREFS, and BR_DEAD_BINDER for the
-- node at 4096.
abbrev busy : Memory
busy =
    store 8
      (store 4
        (store 4
          (store 8 (store 8 (store 4 (store 4 zeros 512 0x720c) 516 0x7204) 528 0x5f504e47) 576
            9000)
          592 0x720a)
        612 0x720f)
      616 4096

abbrev busy_commands : List Incoming
busy_commands =
    sent noop ∷ transaction (read_words busy 520) ∷ sent (counted decrefs) ∷ dead_binder 4096 ∷ []

busy-HoldsAll : HoldsAll kernel busy 512 busy_commands
unfolding load store set_byte
busy-HoldsAll = (refl, ((refl, refl), (refl, ((refl, refl), tt))))

binder_parse-run_example :
    binder_parse kernel manager 256 false 512 112 (first_process 5) busy
    ≡ parsed_as kernel manager
        (run kernel manager 256 busy_commands (fresh_scan (first_process 5) busy))
binder_parse-run_example =
    binder_parse-run kernel manager kernel-AreAllCodes kernel-ReadsStructs
      (manager_service-Spares policy kernel bump_environment kernel-IsObjectLayout) busy_commands
      256 false 512 112 (first_process 5) busy busy-HoldsAll refl (omega arith) (inl (omega arith))

-- The buffer above, and one with a transaction and BR_DEAD_REPLY behind it.
abbrev dead : Memory
dead = store 4 (store 8 (store 8 (store 4 zeros 512 0x7204) 524 0x5f504e47) 572 9128) 588 0x7205

abbrev deliveries : List Delivery
deliveries =
    record {
      response = record { failed = false; mem = busy; read_consumed = 112 };
      commands = busy_commands;
    }
    ∷ record {
      response = record { failed = false; mem = dead; read_consumed = 80 };
      commands = transaction (read_words dead 516) ∷ reply_dead ∷ [];
    }
    ∷ []

deliveries-AreDelivered : AreDelivered kernel 256 512 deliveries
unfolding load store set_byte
deliveries-AreDelivered = (
  record {
    succeeds = refl;
    holds = busy-HoldsAll;
    consumed = refl;
    in_memory = omega arith;
    apart = inl (omega arith);
  },
  (
    record {
      succeeds = refl;
      holds = ((refl, refl), (refl, tt));
      consumed = refl;
      in_memory = omega arith;
      apart = inl (omega arith);
    },
    tt,
  ),
)

binder_loop-serve_rounds_example :
    binder_loop kernel manager 256 512 (responses deliveries) (first_process 5) zeros
    ≡ serve_rounds kernel manager 256 deliveries
        (writes kernel manager (binder_write enter_looper) (first_process 5))
        zeros
binder_loop-serve_rounds_example =
    binder_loop-serve_rounds kernel manager 256 512 kernel-AreAllCodes kernel-ReadsStructs
      (manager_service-Spares policy kernel bump_environment kernel-IsObjectLayout) deliveries
      (first_process 5) zeros deliveries-AreDelivered

smooth-StartsUp : StartsUp kernel smooth_start nothing
unfolding binder_open binder_become_context_manager
smooth-StartsUp = record { opened = λ e. cc; became = refl; contexts = λ e. cc; own = λ e. cc }

-- Two transactions are handled, and `main` ends after the second buffer.
svcmgr_main-IsServed_example :
    IsServed kernel false (read_words dead 516 ∷ read_words busy 520 ∷ []) (
      svcmgr_main policy kernel bump_environment smooth_start 256 512
        (responses deliveries)
        zeros
        nothing)
svcmgr_main-IsServed_example =
    svcmgr_main-IsServed policy kernel bump_environment 256 512 deliveries bump-IsMalloc
      kernel-AreAllCodes kernel-ReadsStructs kernel-IsObjectLayout deliveries-AreDelivered
      smooth_start zeros nothing smooth-StartsUp
