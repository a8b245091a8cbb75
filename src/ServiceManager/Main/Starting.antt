-- ===== src/ServiceManager/Main/Starting.antt =====
-- `main` of the service manager, from its first call to its loop.
use android_source_learn.Prelude.{◌*◌, ℕ, ◌≡◌, refl, ◌≢◌, Option, none, some, List, arith}
use android_source_learn.Prelude.Int.{minus_one}
use android_source_learn.Memory.{Memory}
use android_source_learn.Abi.{Abi}
use android_source_learn.Binder.Call.{Response, Looped, left_loop, waiting, died}
use android_source_learn.Binder.Call.Loops.{LoopedKept}
use android_source_learn.ServiceManager.Access.{System}
use android_source_learn.ServiceManager.Registry.{find_svc}
use android_source_learn.ServiceManager.Histories.{start-IsSound}
use android_source_learn.ServiceManager.Specification.{empty}
use android_source_learn.ServiceManager.Main.{
  Environment, Process, manager_service, first_process, StartAnswers, Ran, exited, served, waits,
  aborts, after_loop, serve, become_manager, svcmgr_main,
}
use android_source_learn.Binder.Open.{Held, BinderState, binder_open}
use android_source_learn.ServiceManager.Main.Serving.{IsMalloc, IsServing, binder_loop-IsServing}

-- What can come out of `main`, where the start-up succeeds up to the contexts.
abbrev pub IsServingMain : Ran → Type 0
IsServingMain (exited z h) = z ≡ minus_one
IsServingMain (served p h) = IsServing p
IsServingMain (waits p) = IsServing p
IsServingMain aborts = ⊥

pub first-IsServing : (c : ℕ) → IsServing (first_process c)
unfolding find_svc
first-IsServing c = record {
  sound = start-IsSound c;
  story = empty (λ t. refl);
  ready = λ e. cc;
  returned = refl;
}

after_loop-IsServing :
    (sys : System) (abi : Abi) (env : Environment) (h : Held) (l : Looped Process)
    → LoopedKept abi (manager_service sys abi env) IsServing ⊥ l
    → IsServingMain (after_loop h l)
after_loop-IsServing sys abi env h (left_loop p mem) v = v
after_loop-IsServing sys abi env h (waiting p mem) v = v
after_loop-IsServing sys abi env h died v = v

serve-IsServing :
    (sys : System) (abi : Abi) (env : Environment) (rdata readbuf : ℕ) (responses : List Response)
    (mem : Memory) (h : Held) (contexts own : Option ℕ)
    → IsMalloc env
    → contexts ≢ none
    → own ≢ none
    → IsServingMain (serve sys abi env rdata readbuf responses mem h contexts own)
serve-IsServing sys abi env rdata readbuf responses mem h none own malloc c o = c refl
serve-IsServing sys abi env rdata readbuf responses mem h (some contexts) none malloc c o = o refl
serve-IsServing sys abi env rdata readbuf responses mem h (some contexts) (some own) malloc c o =
    let sys' = record sys { service_manager_context = own } in
    after_loop-IsServing sys' abi env h _ (
      binder_loop-IsServing sys' abi env rdata readbuf responses (first_process contexts) mem malloc
        (first-IsServing contexts))

become_manager-IsServing :
    (ans : StartAnswers) (next : Held → Ran) (o : Option BinderState × Held)
    → ((h : Held) → IsServingMain (next h))
    → IsServingMain (become_manager ans next o)
become_manager-IsServing ans next (none, h) k = refl
become_manager-IsServing ans next (some bs, h) k = ground (arith, k h)

-- If libselinux gives the two contexts and `malloc` gives no address that is in use, `main` exits
-- with -1 before its loop, or it serves: whatever the driver answers, its loop never aborts, and
-- where it waits or is left the registry is sound, the handles by name have the history of the
-- specification, the service contexts are there, and the buffers of the handled transactions, and
-- no others, have been given back, each once and in order.
pub svcmgr_main-IsServingMain :
    (sys : System) (abi : Abi) (env : Environment) (ans : StartAnswers) (rdata readbuf : ℕ)
    (responses : List Response) (mem : Memory) (h : Held)
    → IsMalloc env
    → ans.service_contexts ≢ none
    → ans.own_context ≢ none
    → IsServingMain (svcmgr_main sys abi env ans rdata readbuf responses mem h)
unfolding svcmgr_main
svcmgr_main-IsServingMain sys abi env ans rdata readbuf responses mem h malloc contexts own =
    become_manager-IsServing ans _ (binder_open abi ans.open_answers (128 * 1024) h) (λ h'.
      serve-IsServing sys abi env rdata readbuf responses mem h' ans.service_contexts
        ans.own_context malloc contexts own)
