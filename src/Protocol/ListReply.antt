-- ===== src/Protocol/ListReply.antt =====
-- The name in the reply to a request to list, as its sender reads it.
use mathlib.Core.Path.{subst, subst₂}
use android_source_learn.Prelude.{
  ℕ, ◌+◌, ◌-◌, ◌%◌, ◌^◌, ◌≤◌, ◌<◌, ◌≡◌, refl, ◌∙◌, some, List, [], ◌∷◌, map, length, ltb,
  if◌then◌else◌, Bool-cases, inl, inr, arith,
}
use android_source_learn.Memory.{Memory, load}
use android_source_learn.Memory.Frame.{Copied, load-Copied, load4-store}
use android_source_learn.Memory.Units.{unit16}
use android_source_learn.Bio.{
  BinderIo, Parcel, c_string, align4, max_units, bio_init, bio_alloc, bio_put_uint32,
  bio_put_string16, put_payload, string16_bytes, bio_get_string16,
}
use android_source_learn.Bio.Reads.{bio_get_uint32-room, bio_get-none, advance}
use android_source_learn.Bio.Message.{text, Holds, total_size, Value, got_units, got_null, get_item}
use android_source_learn.Bio.Message.Writing.{put_items-Grows, bio_put_string16-short}
use android_source_learn.Bio.Message.Reading.{get_item-Reads}
use android_source_learn.Bio.Message.Copying.{Holds-Copied}
use android_source_learn.Protocol.Replies.{empty_reply}

-- The reader of a copy of all data of a reply.
pub record Received (reply : Parcel) (reader : BinderIo) (mem : Memory) : Type 0 where
  pub size : reader.data_avail ≡ reply.io.cursor - reply.io.data0
  pub copied : Copied (reply.io.cursor - reply.io.data0) reply.mem reply.io.data0 mem reader.cursor

-- What the sender of a request reads in the reply: the name, or nothing.
abbrev pub read_name : Memory → BinderIo → Value
read_name mem reader = (get_item (text []) mem reader).0

put_payload-long :
    (xs : List ℕ) (p : Parcel)
    → p.io.data_avail < align4 (string16_bytes (length xs))
    → ((put_payload xs p).io.cursor ≡ p.io.cursor)
      × ((put_payload xs p).io.data0 ≡ p.io.data0)
      × ((put_payload xs p).mem ≡ p.mem)
unfolding put_payload bio_alloc
put_payload-long xs p long = ground arith

module _ (rdata : ℕ) (mem mem' : Memory) (reader : BinderIo) (name : List ℕ) where
  read_name-short :
      length (c_string name) < 110
      → Received (bio_put_string16 (some name) (empty_reply rdata mem)) reader mem'
      → read_name mem' reader ≡ got_units (map unit16 (c_string name))
  unfolding bio_init
  read_name-short short r =
      let p = empty_reply rdata mem in
      let reply = bio_put_string16 (some name) p in
      let (grown, holds) = put_items-Grows (text name ∷ []) p (omega arith, tt) (omega arith) in
      let moved : reply.io.cursor - reply.io.data0 ≡ total_size (text name ∷ []) =
        omega (arith, grown.moved, grown.based) in
      let there : Holds mem' reader.cursor (text name ∷ []) =
        Holds-Copied (text name ∷ []) reply.mem p.io.cursor mem' reader.cursor
          (subst₂ (λ k a. Copied k reply.mem a mem' reader.cursor) moved grown.based r.copied)
          holds in
      (get_item-Reads (text name) mem' reader there.0 (omega (arith, r.size, moved))).0

  long_reply :
      110 ≤ length (c_string name)
      → length (c_string name) < max_units
      → let reply = bio_put_string16 (some name) (empty_reply rdata mem) in
        (reply.io.cursor - reply.io.data0 ≡ 4)
        × (load 4 reply.mem reply.io.data0 ≡ length (c_string name))
  unfolding bio_put_uint32 bio_alloc bio_init
  long_reply long small =
      let p = bio_put_uint32 (length (c_string name) % 2 ^ 32) (empty_reply rdata mem) in
      let (cur, base, same) = put_payload-long (c_string name) p (omega arith) in
      rw (bio_put_string16-short name (empty_reply rdata mem) small)
        (omega (arith, cur, base), rw (base, same) (load4-store mem (rdata + 32) _ ∙ omega arith))

  read_name-long :
      110 ≤ length (c_string name)
      → length (c_string name) < max_units
      → Received (bio_put_string16 (some name) (empty_reply rdata mem)) reader mem'
      → read_name mem' reader ≡ got_null
  unfolding bio_get_string16
  read_name-long long small r =
      let reply = bio_put_string16 (some name) (empty_reply rdata mem) in
      let (size, header) = long_reply long small in
      let len : load 4 mem' reader.cursor ≡ length (c_string name) =
        load-Copied 4 reply.mem reply.io.data0 mem' reader.cursor
          (subst (λ k. Copied k reply.mem reply.io.data0 mem' reader.cursor) size r.copied)
        ∙ header in
      rw (bio_get_uint32-room mem' reader (omega (arith, r.size, size)), len)
        (rw
          (bio_get-none (advance reader 4) (string16_bytes (length (c_string name)))
            (omega (arith, r.size, size)))
          refl)

  -- The name is read, or nothing if it has 110 characters or more: the reply has room for 109.
  pub read_name_cases :
      length (c_string name) ≤ 127
      → Received (bio_put_string16 (some name) (empty_reply rdata mem)) reader mem'
      → read_name mem' reader ≡ (
          if ltb (length (c_string name)) 110
          then got_units (map unit16 (c_string name))
          else got_null)
  read_name_cases small r = elim (Bool-cases (ltb (length (c_string name)) 110)) [
    | inl short ↦ rw short (read_name-short (ground arith) r)
    | inr long ↦ rw long (read_name-long (ground arith) (omega arith) r)
  ]
