-- ===== src/Protocol/Registration.antt =====
-- The message with which the server registers, as `svcmgr_publish` marshals it.
use android_source_learn.Prelude.{
  ℕ, ◌+◌, ◌-◌, ◌%◌, ◌^◌, ◌≤◌, ◌<◌, ◌≡◌, sym, ◌∙◌, ap, false, List, [], ◌∷◌, length, arith, inr,
}
use mathlib.Core.Path.{subst}
use android_source_learn.Memory.{Memory, load, store}
use android_source_learn.Memory.Frame.{load-Agree, load8-store, store-Outside}
use android_source_learn.Abi.{Abi, IsObjectLayout}
use android_source_learn.Bio.{
  BinderIo, Parcel, align4, bio_init, bio_put_obj, c_string, max_units, fill_object,
}
use android_source_learn.Bio.Message.{word, text, put_items, total_size, Holds}
use android_source_learn.Bio.Message.Writing.{put_items-Grows, bio_put_string16_x-eq}
use android_source_learn.Bio.Message.Copying.{Holds-Copied}
use android_source_learn.Bio.Objects.{
  fill_object-apart, fill_object-type, fill_object-pointer, fill_object-below, bio_put_obj-room,
}
use android_source_learn.Binder.Parse.{Service}
use android_source_learn.ServiceManager.Handler.{svcmgr_id}
use android_source_learn.HelloServer.{put_header, publish_message}
use android_source_learn.Protocol.{request_items, fresh_parcel, IsSendable-lookup}

pub put_header-eq :
    (name : List ℕ) (p : Parcel) → put_header name p ≡ put_items (request_items name) p
unfolding put_header
put_header-eq name p =
    bio_put_string16_x-eq name _
    ∙ ap (λ q. put_items (text name ∷ []) q) (bio_put_string16_x-eq svcmgr_id _)

-- A parcel with the header, an object that points to `ptr` and has an entry, and two words.
pub record HoldsRequest (abi : Abi) (name : List ℕ) (ptr : ℕ) (sent : Parcel) : Type 0 where
  pub size :
      sent.io.cursor - sent.io.data0
      ≡ total_size (request_items name) + align4 abi.sizeof_object + 8
  pub clean : sent.io.flags.overflow ≡ false
  pub entries : sent.io.offs - sent.io.offs0 ≡ 8
  pub entry : load 8 sent.mem sent.io.offs0 ≡ total_size (request_items name)
  pub header : Holds sent.mem sent.io.data0 (request_items name)
  pub typed :
      load 4 sent.mem (sent.io.data0 + total_size (request_items name) + abi.type_at)
      ≡ abi.type_binder
  pub pointed :
      load 8 sent.mem (sent.io.data0 + total_size (request_items name) + abi.handle_at)
      ≡ ptr % 2 ^ 64
  pub words :
      Holds sent.mem
        (sent.io.data0 + total_size (request_items name) + align4 abi.sizeof_object)
        (word 0 ∷ word 0 ∷ [])

-- The parcel behind its header.
abbrev headed : List ℕ → ℕ → Memory → Parcel
headed name iodata mem = put_items (request_items name) (fresh_parcel iodata mem)

-- A parcel behind an object that points to `ptr`, and two words.
abbrev closed : Abi → ℕ → Parcel → Parcel
closed abi ptr p = put_items (word 0 ∷ word 0 ∷ []) (bio_put_obj abi ptr p)

-- What they add to a parcel.
record Closes (abi : Abi) (ptr : ℕ) (p q : Parcel) : Type 0 where
  cursor : q.io.cursor ≡ p.io.cursor + align4 abi.sizeof_object + 8
  data0 : q.io.data0 ≡ p.io.data0
  offs : q.io.offs ≡ p.io.offs + 8
  offs0 : q.io.offs0 ≡ p.io.offs0
  flags : q.io.flags ≡ p.io.flags
  entry : load 8 q.mem p.io.offs ≡ (p.io.cursor - p.io.data0) % 2 ^ 64
  typed : load 4 q.mem (p.io.cursor + abi.type_at) ≡ abi.type_binder
  pointed : load 8 q.mem (p.io.cursor + abi.handle_at) ≡ ptr % 2 ^ 64
  words : Holds q.mem (p.io.cursor + align4 abi.sizeof_object) (word 0 ∷ word 0 ∷ [])
  same : (a : ℕ) → p.io.offs + 8 ≤ a → a < p.io.cursor → q.mem a ≡ p.mem a

module _ (abi : Abi) (layout : IsObjectLayout abi) where
  closed-Closes :
      (ptr : ℕ) (p : Parcel)
      → align4 abi.sizeof_object + 8 ≤ p.io.data_avail
      → 0 < p.io.offs_avail
      → p.io.offs + 8 ≤ p.io.cursor
      → Closes abi ptr p (closed abi ptr p)
  closed-Closes ptr p room listed order =
      let q = closed abi ptr p in
      let m = store 8 p.mem p.io.offs (p.io.cursor - p.io.data0) in
      let object = bio_put_obj-room abi layout ptr p (omega arith) listed in
      let io = ap (λ (r : Parcel). r.io) object in
      let bytes = ap (λ (r : Parcel). r.mem) object in
      let cur = ap (λ (r : BinderIo). r.cursor) io in
      let (g, words) =
        put_items-Grows (word 0 ∷ word 0 ∷ []) (bio_put_obj abi ptr p) tt
          (omega (arith, ap (λ (r : BinderIo). r.data_avail) io)) in
      let unchanged : (n a : ℕ)
          → a + n ≤ p.io.cursor + align4 abi.sizeof_object
          → load n q.mem a ≡ load n (fill_object abi m p.io.cursor abi.type_binder 8 ptr) a =
        λ n a below.
          load-Agree n q.mem (bio_put_obj abi ptr p).mem a
            (λ b lo hi. g.same b (omega (arith, cur, lo, hi, below)))
          ∙ ap (λ (r : Memory). load n r a) bytes in
      record {
        cursor = omega (arith, g.moved, cur);
        data0 = g.based ∙ ap (λ (r : BinderIo). r.data0) io;
        offs = g.offsets.0 ∙ ap (λ (r : BinderIo). r.offs) io;
        offs0 = g.offsets.1 ∙ ap (λ (r : BinderIo). r.offs0) io;
        flags = g.kept ∙ ap (λ (r : BinderIo). r.flags) io;
        entry =
            unchanged 8 p.io.offs (omega arith)
            ∙ fill_object-apart abi layout 8 8 m p.io.cursor abi.type_binder ptr p.io.offs order
            ∙ load8-store p.mem p.io.offs (p.io.cursor - p.io.data0);
        typed =
            unchanged 4 (p.io.cursor + abi.type_at) (omega (arith, layout.type_in))
            ∙ fill_object-type abi layout 8 m p.io.cursor abi.type_binder ptr (omega arith)
            ∙ omega (arith, layout.binder_word);
        pointed =
            unchanged 8 (p.io.cursor + abi.handle_at) (omega (arith, layout.handle_in))
            ∙ fill_object-pointer abi layout m p.io.cursor abi.type_binder ptr;
        words = subst (λ a. Holds q.mem a (word 0 ∷ word 0 ∷ [])) cur words;
        same = λ a above below.
            g.same a (omega (arith, cur, below))
            ∙ ap (λ (r : Memory). r a) bytes
            ∙ fill_object-below abi layout 8 m p.io.cursor abi.type_binder ptr a below
            ∙ store-Outside 8 p.mem p.io.offs (p.io.cursor - p.io.data0) a (inr above);
      }

  -- The whole message: the header, and behind it the object and the words.
  closed-HoldsRequest :
      (name : List ℕ) (ptr iodata : ℕ) (mem : Memory)
      → length (c_string name) < max_units
      → total_size (request_items name) + align4 abi.sizeof_object + 8 ≤ 480
      → HoldsRequest abi name ptr (closed abi ptr (headed name iodata mem))
  unfolding bio_init
  closed-HoldsRequest name ptr iodata mem small fits =
      let T = total_size (request_items name) in
      let p = headed name iodata mem in
      let q = closed abi ptr p in
      let (g, holds) =
        put_items-Grows (request_items name) (fresh_parcel iodata mem)
          (IsSendable-lookup name small) (omega arith) in
      let c =
        closed-Closes ptr p (omega (arith, g.left)) (omega (arith, g.offsets.2))
          (omega (arith, g.offsets.0, g.moved)) in
      let behind : p.io.cursor ≡ q.io.data0 + T = omega (arith, g.moved, g.based, c.data0) in
      record {
        size = omega (arith, c.cursor, behind);
        clean = ap (λ f. f.overflow) (c.flags ∙ g.kept);
        entries = omega (arith, c.offs, c.offs0, g.offsets.0, g.offsets.1);
        entry =
            ap (load 8 q.mem) (omega (arith, c.offs0, g.offsets.0, g.offsets.1))
            ∙ c.entry
            ∙ omega (arith, behind, c.data0);
        header =
            Holds-Copied (request_items name) p.mem (iodata + 32) q.mem q.io.data0
              (λ i inside.
                ap q.mem (omega (arith, c.data0, g.based))
                ∙ c.same (iodata + 32 + i) (omega (arith, g.offsets.0))
                    (omega (arith, g.moved, inside)))
              holds;
        typed = ap (load 4 q.mem) (omega (arith, behind)) ∙ c.typed;
        pointed = ap (load 8 q.mem) (omega (arith, behind)) ∙ c.pointed;
        words =
            subst (λ a. Holds q.mem (a + align4 abi.sizeof_object) (word 0 ∷ word 0 ∷ [])) behind
              c.words;
      }

module _ {S : Type 0} (abi : Abi) (layout : IsObjectLayout abi) (svc : Service S)
    (rdata readbuf iodata : ℕ) where
  publish_message-eq :
      (name : List ℕ) (ptr : ℕ) (mem : Memory)
      → publish_message abi svc rdata readbuf iodata name ptr mem
        ≡ closed abi ptr (headed name iodata mem)
  unfolding publish_message
  publish_message-eq name ptr mem =
      ap (closed abi ptr) (put_header-eq name (fresh_parcel iodata mem))

  -- The message of `svcmgr_publish`, for a name that leaves room for the object and the words.
  pub publish_message-HoldsRequest :
      (name : List ℕ) (ptr : ℕ) (mem : Memory)
      → length (c_string name) < max_units
      → total_size (request_items name) + align4 abi.sizeof_object + 8 ≤ 480
      → HoldsRequest abi name ptr (publish_message abi svc rdata readbuf iodata name ptr mem)
  publish_message-HoldsRequest name ptr mem small fits =
      subst (HoldsRequest abi name ptr) (sym (publish_message-eq name ptr mem))
        (closed-HoldsRequest abi layout name ptr iodata mem small fits)
