-- ===== src/ServiceManager/Handler/Ignored.antt =====
-- What does not look at references and death notifications is the same after a transaction, before
-- its answer.
use android_source_learn.Prelude.{
  ℕ, ◌≡◌, refl, ap, ◌∙◌, Bool, Option, some, List, ◌∷◌, inl, inr, Option-cases, Bool-cases, ltb,
  arith,
}
use android_source_learn.Prelude.Int.{ℤ}
use android_source_learn.Abi.{Abi, TransactionSecctx}
use android_source_learn.Bio.{BinderIo, Parcel}
use android_source_learn.Binder.Commands.{
  acquire, release, request_death_notification, Trace, binder_acquire, binder_release,
  binder_link_to_death,
}
use android_source_learn.Binder.Parse.Keeps.{freed}
use android_source_learn.Binder.Parse.Replied.{replied}
use android_source_learn.ServiceManager.Access.{System}
use android_source_learn.ServiceManager.Registry.{
  Svcinfo, Manager, deref, svcinfo_death, override, do_add_service,
}
use android_source_learn.ServiceManager.Registry.Add.{enter_cases, do_add_service-Accepted}
use android_source_learn.ServiceManager.Handler.{Answers, svcmgr_handler}
use android_source_learn.ServiceManager.Handler.Changes.{After, svcmgr_handler-After}
use android_source_learn.ServiceManager.Histories.{add_unless_zero}

-- A function of the commands that ignores what the registry writes.
pub record Ignores (f : Trace → List ℕ) : Type 0 where
  pub acquired : (h : ℕ) (bs : Trace) → f (acquire h ∷ bs) ≡ f bs
  pub released : (h : ℕ) (bs : Trace) → f (release h ∷ bs) ≡ f bs
  pub linked : (h p : ℕ) (bs : Trace) → f (request_death_notification h p ∷ bs) ≡ f bs

pub freed-Ignores : Ignores freed
freed-Ignores = record { acquired = λ h bs. refl; released = λ h bs. refl; linked = λ h p bs. refl }

pub replied-Ignores : Ignores replied
replied-Ignores = record {
  acquired = λ h bs. refl;
  released = λ h bs. refl;
  linked = λ h p bs. refl;
}

module _ (f : Trace → List ℕ) (ignores : Ignores f) where
  pub svcinfo_death-Ignores : (q : ℕ) (m : Manager) → f (svcinfo_death q m).written ≡ f m.written
  unfolding svcinfo_death binder_release
  svcinfo_death-Ignores q m = elim (Option-cases (deref q m.svclist)) [
    | inl gone ↦ rw (gone, svcinfo_death) refl
    | inr (si, there) ↦ elim (Bool-cases (ltb 0 si.handle)) [
      | inl live ↦ rw (there, live, svcinfo_death) (ignores.released si.handle m.written)
      | inr dead ↦ rw (there, dead, svcinfo_death) refl
    ]
  ]

  override-Ignores :
      (handle : ℕ) (si : Svcinfo) (m : Manager) → f (override handle si m).written ≡ f m.written
  unfolding override
  override-Ignores handle si m = ground (arith, svcinfo_death-Ignores si.self m)

module _ (sys : System) (f : Trace → List ℕ) (ignores : Ignores f) where
  do_add_service-Ignores :
      (fresh : Option ℕ) (s : List ℕ) (handle uid : ℕ) (allow : Bool) (priority spid sid : ℕ)
      (m m' : Manager) (z : ℤ)
      → do_add_service sys fresh s handle uid allow priority spid sid m ≡ some (m', z)
      → f m'.written ≡ f m.written
  unfolding binder_acquire binder_link_to_death
  do_add_service-Ignores fresh s handle uid allow priority spid sid m m' z e =
      elim (add_unless_zero sys fresh s handle uid allow priority spid sid m m' z e) [
        | inl same ↦ ap (λ (n : Manager). f n.written) same
        | inr zero ↦
            let a =
              do_add_service-Accepted sys fresh s handle uid allow priority spid sid m m'
                (rw zero at e) in
            ap (λ (n : Manager). f n.written) a.result
            ∙ ignores.linked handle a.at (acquire handle ∷ a.entered.written)
            ∙ ignores.acquired handle a.entered.written
            ∙ enter_cases (λ p n. f n.written ≡ f m.written) fresh s handle allow priority m a.at
                a.entered a.enter_eq (λ si e'. override-Ignores f ignores handle si m)
                (λ q e' g. refl)
      ]

  pub svcmgr_handler-Ignores :
      (abi : Abi) (ans : Answers) (m : Manager) (txn : TransactionSecctx) (msg : BinderIo)
      (reply : Parcel)
      → After (λ m'. f m'.written ≡ f m.written) (svcmgr_handler sys abi ans m txn msg reply)
  svcmgr_handler-Ignores abi ans m txn msg reply =
      svcmgr_handler-After sys abi (λ m'. f m'.written ≡ f m.written) ans m txn msg reply
        (λ m' l w. ap f w)
        (λ n l w s handle uid allow priority spid sid m' z' added.
          do_add_service-Ignores ans.fresh s handle uid allow priority spid sid n m' z' added
          ∙ ap f w)
