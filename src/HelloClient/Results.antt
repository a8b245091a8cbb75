-- ===== src/HelloClient/Results.antt =====
-- What `svcmgr_lookup` makes of a reply of the service manager.
use android_source_learn.Prelude.{
  ℕ, ◌+◌, ◌-◌, ◌/◌, ◌≤◌, ◌<◌, ◌≡◌, refl, ap, ◌∙◌, true, ◌∷◌, ltb, arith,
}
use android_source_learn.Prelude.Int.{pos}
use android_source_learn.Memory.{Memory, load}
use android_source_learn.Abi.{Abi, TransactionData}
use android_source_learn.Bio.{align4, has_offset, bio_init_from_txn, bio_get_obj, bio_get_ref}
use android_source_learn.Bio.Objects.{bio_get_ref-found, has_offset-entry}
use android_source_learn.Bio.Reads.{advance}
use android_source_learn.Binder.Commands.{
  free_buffer, acquire, binder_write, binder_acquire, binder_done,
}
use android_source_learn.Binder.Parse.{Service, blank}
use android_source_learn.Binder.Call.{finished, ended}
use android_source_learn.HelloClient.{lookup_result}

-- A received transaction carries one reference, to the handle `h`: an object at the start of its
-- data, with an entry in its offsets.
pub record Refers (abi : Abi) (mem : Memory) (txn : TransactionData) (h : ℕ) : Type 0 where
  pub entries : txn.offsets_size ≡ 8
  pub entry : load 8 mem txn.offsets ≡ 0
  pub room : align4 abi.sizeof_object ≤ txn.data_size
  pub typed : load 4 mem (txn.buffer + abi.type_at) ≡ abi.type_handle
  pub held : load 4 mem (txn.buffer + abi.handle_at) ≡ h

module _ {S : Type 0} (abi : Abi) (svc : Service S) (rdata readbuf iodata : ℕ) where
  bio_get_ref-Refers :
      (mem : Memory) (txn : TransactionData) (h : ℕ)
      → Refers abi mem txn h
      → bio_get_ref abi mem (bio_init_from_txn blank txn)
        ≡ (h, advance (bio_init_from_txn blank txn) (align4 abi.sizeof_object))
  unfolding bio_init_from_txn
  bio_get_ref-Refers mem txn h r =
      bio_get_ref-found abi mem (bio_init_from_txn blank txn)
        (has_offset-entry mem txn.offsets (txn.buffer - txn.buffer) (txn.offsets_size / 8) 0
          (omega (arith, r.entries)) (ap (load 8 mem) (omega arith) ∙ r.entry ∙ omega arith))
        r.room r.typed
      ∙ rw r.held refl

  -- A reply with a reference: its handle is acquired, and then the buffer is given back.
  pub lookup_result-Refers :
      (mem : Memory) (txn : TransactionData) (h : ℕ) (s : S)
      → Refers abi mem txn h
      → 0 < h
      → lookup_result abi svc rdata readbuf iodata
          (finished (pos 0) (bio_init_from_txn blank txn) s mem)
        ≡ ended h (svc.with_trace (free_buffer txn.buffer ∷ acquire h ∷ svc.trace s) s) mem
  unfolding binder_done binder_acquire binder_write bio_init_from_txn
  lookup_result-Refers mem txn h s r live =
      let positive : ltb 0 h ≡ true = ground arith in
      rw (bio_get_ref-Refers mem txn h r, positive) refl

  -- A reply without objects: nothing is acquired, and the buffer is given back.
  pub lookup_result-missing :
      (mem : Memory) (txn : TransactionData) (s : S)
      → txn.offsets_size ≡ 0
      → lookup_result abi svc rdata readbuf iodata
          (finished (pos 0) (bio_init_from_txn blank txn) s mem)
        ≡ ended 0 (svc.with_trace (free_buffer txn.buffer ∷ svc.trace s) s) mem
  unfolding binder_done binder_write bio_get_ref bio_get_obj bio_init_from_txn has_offset
  lookup_result-missing mem txn s none_sent =
      let entries : txn.offsets_size / 8 ≡ 0 = omega (arith, none_sent) in rw entries refl
