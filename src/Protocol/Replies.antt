-- ===== src/Protocol/Replies.antt =====
-- The reply of the service manager, carried by the driver, in the hands of the client.
use android_source_learn.Prelude.{
  ℕ, ◌+◌, ◌-◌, ◌*◌, ◌^◌, ◌≤◌, ◌<◌, ◌≡◌, ◌∙◌, ap, ◌∷◌, ◌==◌, if◌then◌else◌, Bool-cases, inl, inr,
  arith,
}
use android_source_learn.Prelude.Int.{pos}
use android_source_learn.Memory.{Memory, load, store}
use android_source_learn.Memory.Frame.{Copied, load-Copied, load8-store}
use android_source_learn.Abi.{Abi, IsObjectLayout, TransactionData}
use android_source_learn.Bio.{
  Parcel, align4, bio_init, bio_init_from_txn, bio_alloc, bio_alloc_obj, alloc_ref, bio_put_ref,
  bio_put_uint32,
}
use android_source_learn.Bio.Objects.{
  bio_put_ref-room, fill_object-apart, fill_object-type, fill_object-word,
}
use android_source_learn.Binder.Commands.{
  Payload, status, buffers, ReplyTxn, reply_txn, free_buffer, acquire,
}
use android_source_learn.Binder.Parse.{Service, blank}
use android_source_learn.Binder.Call.{finished, ended}
use android_source_learn.ServiceManager.Access.{System}
use android_source_learn.ServiceManager.Handler.Requests.{find_reply}
use android_source_learn.HelloClient.{lookup_result}
use android_source_learn.HelloClient.Results.{Refers, lookup_result-Refers, lookup_result-missing}

-- The empty reply that `binder_parse` hands to a handler.
abbrev pub empty_reply : ℕ → Memory → Parcel
empty_reply rdata mem = record { io = bio_init blank rdata 256 4; mem = mem }

-- The objects of a parcel with its data at `b` and `n` bytes of entries at `o`, where the receiver
-- has them: the entries are the same, and in each object that one names a handle is translated into
-- the number that it has for the receiver.
pub record ConveysObjects (abi : Abi) (translate : ℕ → ℕ) (b o n : ℕ) (mem : Memory)
    (txn : TransactionData) (mem' : Memory) : Type 0 where
  pub entries : Copied n mem o mem' txn.offsets
  pub typed :
      (k : ℕ)
      → 8 * k < n
      → let at = load 8 mem (o + 8 * k) in
        load 4 mem' (txn.buffer + at + abi.type_at) ≡ load 4 mem (b + at + abi.type_at)
  pub translated :
      (k : ℕ)
      → 8 * k < n
      → let at = load 8 mem (o + 8 * k) in
        load 4 mem' (txn.buffer + at + abi.handle_at)
        ≡ translate (load 4 mem (b + at + abi.handle_at))

abbrev pub ConveysPayload : Abi → (ℕ → ℕ) → Payload → ℕ → Memory → TransactionData → Memory → Type 0
ConveysPayload abi translate (status w) n mem txn mem' = Unit {0}
ConveysPayload abi translate (buffers b o) n mem txn mem' =
    ConveysObjects abi translate b o n mem txn mem'

-- The driver carries what the BC_REPLY of one process says into the memory of the other: the sizes
-- are the same, and so are the objects, translated.
pub record Conveys (abi : Abi) (translate : ℕ → ℕ) (t : ReplyTxn) (mem : Memory)
    (txn : TransactionData) (mem' : Memory) : Type 0 where
  pub data_size : txn.data_size ≡ t.data_size
  pub offsets_size : txn.offsets_size ≡ t.offsets_size
  pub objects : ConveysPayload abi translate t.payload t.offsets_size mem txn mem'

-- A parcel with one reference, behind the room for four offsets.
record HoldsRef (abi : Abi) (handle : ℕ) (reply : Parcel) : Type 0 where
  moved : reply.io.cursor - reply.io.data0 ≡ align4 abi.sizeof_object
  entries : reply.io.offs - reply.io.offs0 ≡ 8
  entry : load 8 reply.mem reply.io.offs0 ≡ 0
  typed : load 4 reply.mem (reply.io.data0 + abi.type_at) ≡ abi.type_handle
  held : load 4 reply.mem (reply.io.data0 + abi.handle_at) ≡ handle

module _ (abi : Abi) (layout : IsObjectLayout abi) where
  bio_put_ref-io :
      (handle rdata : ℕ) (mem : Memory)
      → 0 < handle
      → align4 abi.sizeof_object ≤ 224
      → let io = (bio_put_ref abi handle (empty_reply rdata mem)).io in
        (io.cursor ≡ rdata + 32 + align4 abi.sizeof_object)
        × (io.data0 ≡ rdata + 32)
        × (io.offs ≡ rdata + 8)
        × (io.offs0 ≡ rdata)
  unfolding bio_put_ref alloc_ref bio_alloc_obj bio_alloc bio_init
  bio_put_ref-io handle rdata mem live room = ground arith

  bio_put_ref-HoldsRef :
      (handle rdata : ℕ) (mem : Memory)
      → 0 < handle
      → handle < 2 ^ 32
      → align4 abi.sizeof_object ≤ 224
      → HoldsRef abi handle (bio_put_ref abi handle (empty_reply rdata mem))
  unfolding bio_init
  bio_put_ref-HoldsRef handle rdata mem live small room =
      let p = empty_reply rdata mem in
      let (cur, base, offs, offs0) = bio_put_ref-io handle rdata mem live room in
      let written = bio_put_ref-room abi layout handle p live room (omega arith) in
      let m = store 8 mem rdata (rdata + 32 - (rdata + 32)) in
      record {
        moved = omega (arith, cur, base);
        entries = omega (arith, offs, offs0);
        entry =
            rw (written, offs0)
              (fill_object-apart abi layout 8 4 m (rdata + 32) abi.type_handle handle rdata
                  (omega arith)
                ∙ load8-store mem rdata (rdata + 32 - (rdata + 32))
                ∙ omega arith);
        typed =
            rw (written, base)
              (fill_object-type abi layout 4 m (rdata + 32) abi.type_handle handle (omega arith)
                ∙ omega (arith, layout.handle_word));
        held =
            rw (written, base)
              (fill_object-word abi layout m (rdata + 32) abi.type_handle handle ∙ omega arith);
      }

  -- The client finds the reference in what the driver conveys.
  HoldsRef-Refers :
      (translate : ℕ → ℕ) (handle : ℕ) (reply : Parcel) (txn : TransactionData) (mem : Memory)
      → HoldsRef abi handle reply
      → Conveys abi translate (reply_txn abi reply.io (pos 0)) reply.mem txn mem
      → Refers abi mem txn (translate handle)
  HoldsRef-Refers translate handle reply txn mem h c =
      let at : load 8 reply.mem (reply.io.offs0 + 8 * 0) ≡ 0 =
        ap (load 8 reply.mem) (omega arith) ∙ h.entry in
      record {
        entries = c.offsets_size ∙ h.entries;
        entry =
            load-Copied 8 reply.mem reply.io.offs0 mem txn.offsets
              (λ i small. c.objects.entries i (omega (arith, h.entries)))
            ∙ h.entry;
        room = omega (arith, c.data_size, h.moved);
        typed =
            ap (load 4 mem) (omega (arith, at))
            ∙ c.objects.typed 0 (omega (arith, h.entries))
            ∙ ap (load 4 reply.mem) (omega (arith, at))
            ∙ h.typed;
        held =
            ap (load 4 mem) (omega (arith, at))
            ∙ c.objects.translated 0 (omega (arith, h.entries))
            ∙ ap (λ (a : ℕ). translate (load 4 reply.mem a)) (omega (arith, at))
            ∙ ap translate h.held;
      }

  bio_put_uint32-offs :
      (n rdata : ℕ) (mem : Memory)
      → let io = (bio_put_uint32 n (empty_reply rdata mem)).io in io.offs - io.offs0 ≡ 0
  unfolding bio_put_uint32 bio_init
  bio_put_uint32-offs n rdata mem = ground arith

  module _ {S : Type 0} (sys : System) (svc : Service S) (rdata readbuf iodata : ℕ) where
    -- The client's end of a look-up that the manager has answered with `handle`, or with 0 for no
    -- service: it returns the number that the handle has for it, and has acquired it and then given
    -- the buffer back; or it returns 0 and has given the buffer back. The driver has conveyed the
    -- reply, and gives a handle other than 0 a number other than 0.
    pub lookup_result-find_reply :
        (translate : ℕ → ℕ) (handle replies : ℕ) (txn : TransactionData) (s : S) (mem mem' : Memory)
        → handle < 2 ^ 32
        → align4 abi.sizeof_object ≤ 224
        → (0 < handle → 0 < translate handle)
        → let reply = find_reply sys abi handle (empty_reply replies mem) in
          Conveys abi translate (reply_txn abi reply.io (pos 0)) reply.mem txn mem'
          → lookup_result abi svc rdata readbuf iodata
              (finished (pos 0) (bio_init_from_txn blank txn) s mem')
            ≡ (if handle == 0
                then ended 0 (svc.with_trace (free_buffer txn.buffer ∷ svc.trace s) s) mem'
                else ended
                    (translate handle)
                    (svc.with_trace
                      (free_buffer txn.buffer ∷ acquire (translate handle) ∷ svc.trace s)
                      s)
                    mem')
    lookup_result-find_reply translate handle replies txn s mem mem' small room live c =
        elim (Bool-cases (handle == 0)) [
          | inl missing ↦ rw missing (
              lookup_result-missing abi svc rdata readbuf iodata mem' txn s
                ((rw missing at c).offsets_size ∙ bio_put_uint32-offs 0 replies mem))
          | inr found ↦
              let positive : 0 < handle = ground arith in
              rw found (
                lookup_result-Refers abi svc rdata readbuf iodata mem' txn (translate handle) s
                  (HoldsRef-Refers translate handle _ txn mem'
                    (bio_put_ref-HoldsRef handle replies mem positive small room) (rw found at c))
                  (live positive))
        ]
