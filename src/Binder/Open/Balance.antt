-- ===== src/Binder/Open/Balance.antt =====
-- What opening and closing the driver leave held.
use android_source_learn.Prelude.{
  ℕ, ◌≡◌, refl, ◌⊎◌, inl, inr, true, false, Option, none, some, Option-cases, Bool-cases, arith,
}
use android_source_learn.Abi.{Abi}
use android_source_learn.Binder.Open.{
  Held, BinderState, OpenAnswers, open_one, version_fits, binder_open, binder_close,
}

-- The version of the driver does not fit, after the file was opened.
abbrev pub Misfits : Abi → OpenAnswers → Type 0
Misfits abi ans =
    (ans.malloc_ok ≡ true)
    × ((fd : ℕ) × (ans.open_fd ≡ some fd))
    × (version_fits abi ans.version ≡ false)

-- What can come out of `binder_open`.
abbrev pub Opened : Abi → OpenAnswers → ℕ → Held → Option BinderState × Held → Type 0
Opened abi ans mapsize h (some bs, h') = (bs.mapsize ≡ mapsize) × (binder_close h' ≡ h)
Opened abi ans mapsize h (none, h') =
    ((Misfits abi ans → ⊥) × (h' ≡ h)) ⊎ (Misfits abi ans × (h' ≡ open_one h))

-- After a `binder_open` that succeeds, `binder_close` leaves the process with what it held before.
-- One that fails leaves it so at once, unless the file was opened and the version of the driver does
-- not fit: then the file descriptor stays open.
pub binder_open-Opened :
    (abi : Abi) (ans : OpenAnswers) (mapsize : ℕ) (h : Held)
    → Opened abi ans mapsize h (binder_open abi ans mapsize h)
unfolding binder_open binder_close
binder_open-Opened abi ans mapsize h = elim (Bool-cases ans.malloc_ok) [
  | inr no_memory ↦ rw no_memory (inl (λ m. cc, refl))
  | inl got ↦ elim (Option-cases ans.open_fd) [
    | inl closed ↦ rw (got, closed, binder_open) (inl (λ m. cc, ground arith))
    | inr (fd, opened) ↦ elim (Bool-cases (version_fits abi ans.version)) [
      | inr differs ↦
          rw (got, opened, differs, binder_open) (inr ((refl, (fd, opened), differs), ground arith))
      | inl fits ↦ elim (Option-cases ans.mmap_at) [
        | inl unmapped ↦ rw (got, opened, fits, unmapped, binder_open) (inl (λ m. cc, ground arith))
        | inr (at, mapped) ↦ rw (got, opened, fits, mapped, binder_open) (refl, ground arith)
      ]
    ]
  ]
]
