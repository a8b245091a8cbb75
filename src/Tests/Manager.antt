-- ===== src/Tests/Manager.antt =====
-- The service manager from its start.
use android_source_learn.Prelude.{ℕ, false, true, none, some, List, [], ◌∷◌, ◌+◌, ◌≤◌, ◌≢◌, arith}
use android_source_learn.Prelude.Int.{pos}
use android_source_learn.Memory.{store}
use android_source_learn.Binder.Call.{Response}
use android_source_learn.Binder.Open.{Held}
use android_source_learn.ServiceManager.Registry.{Svcinfo}
use android_source_learn.ServiceManager.Registry.Nodes.{All}
use android_source_learn.ServiceManager.Main.{Environment, StartAnswers, svcmgr_main}
use android_source_learn.ServiceManager.Main.Serving.{IsMalloc}
use android_source_learn.ServiceManager.Main.Starting.{IsServingMain, svcmgr_main-IsServingMain}
use android_source_learn.Tests.World.{zeros, kernel, policy}

-- An allocator that goes on behind the highest node.
abbrev behind_all : List Svcinfo → ℕ
behind_all [] = 4096
behind_all (si ∷ rest) = si.self + behind_all rest + 1

abbrev pub bump_environment : Environment
bump_environment = record {
  malloc = λ l. some (behind_all l);
  status_updated = λ n. false;
  new_sehandle = λ n. none;
}

above-All : (l : List Svcinfo) (p : ℕ) → behind_all l ≤ p → All (λ x. x.self ≢ p) l
above-All [] p far = tt
above-All (si ∷ rest) p far = (omega arith, above-All rest p (omega arith))

pub bump-IsMalloc : IsMalloc bump_environment
bump-IsMalloc l = above-All l (behind_all l) (omega arith)

abbrev pub smooth_start : StartAnswers
smooth_start = record {
  open_answers = record {
    malloc_ok = true;
    open_fd = some 3;
    version = some 8;
    mmap_at = some 65536;
  };
  set_ext = pos 0;
  set_original = pos 0;
  service_contexts = some 5;
  own_context = some 76;
}

-- The driver delivers a ping: BR_TRANSACTION with the code 0x5f504e47 and the buffer 9000.
abbrev pub ping : Response
ping = record {
  failed = false;
  mem = store 8 (store 8 (store 4 zeros 512 0x7204) 524 0x5f504e47) 572 9000;
  read_consumed = 76;
}

abbrev pub nothing : Held
nothing = record { blocks = 0; fds = 0; mappings = 0 }

svcmgr_main-IsServingMain_example :
    IsServingMain
      (svcmgr_main policy kernel bump_environment smooth_start 256 512 (ping ∷ []) zeros nothing)
svcmgr_main-IsServingMain_example =
    svcmgr_main-IsServingMain policy kernel bump_environment smooth_start 256 512 (ping ∷ []) zeros
      nothing bump-IsMalloc (λ e. cc) (λ e. cc)
