-- ===== src/Bio.antt =====
-- The parcels of Demos/BinderCDemo/binder4Server.c: the writers `bio_put_*` and the readers
-- `bio_get_*`; `struct binder_io` itself is in Io. A writer takes and returns a `Parcel`, the `binder_io` beside the
-- memory; a reader returns the new `binder_io`. A pointer that may be NULL is an option.
mod Io
pub mod Puts
pub mod Safety
pub mod Reads
pub mod Message
pub mod Objects
unfoldable pub use Io.*
use android_source_learn.Prelude.{
  ℕ, zero, suc, ◌+◌, ◌-◌, ◌*◌, ◌/◌, ◌%◌, ◌^◌, Bool, true, false, Option, none, some, List, [], ◌∷◌,
  ◌++◌, length, ltb, leb, ◌==◌, if◌then◌else◌,
}
use android_source_learn.Memory.{Memory, store, load, store_units, load_units, size_mod}
use android_source_learn.Abi.{Abi, TransactionData}

unfoldable pub bio_alloc : BinderIo → ℕ → Option ℕ × BinderIo
bio_alloc bio size = if ltb bio.data_avail (align4 size) then (none, set_overflow bio) else (
  some bio.cursor,
  record bio { cursor = bio.cursor + align4 size; data_avail = bio.data_avail - align4 size },
)

-- The entry of the offsets array that an allocated object gets.
abbrev pub record_offset : Parcel → ℕ → Parcel
record_offset p obj = record {
  io = record (p.io) { offs = p.io.offs + 8; offs_avail = p.io.offs_avail - 1 };
  mem = store 8 p.mem p.io.offs (obj - p.io.data0);
}

module _ (abi : Abi) where
  unfoldable pub bio_alloc_obj : Parcel → Option ℕ × Parcel
  unfolding bio_alloc
  bio_alloc_obj p =
      let (obj, io) = bio_alloc p.io abi.sizeof_object in
      elim obj [
        | none ↦ (none, record p { io = set_overflow io })
        | some a ↦
            if ltb 0 io.offs_avail
            then (some a, record_offset (record p { io = io }) a)
            else (none, record p { io = set_overflow io })
      ]

  -- The four assignments to the fields of the object; `word` fills the union, with 8 bytes for a
  -- `binder` pointer and 4 for a `handle`.
  unfoldable pub fill_object : Memory → ℕ → ℕ → ℕ → ℕ → Memory
  fill_object m obj type width word =
      store 8
        (store width
          (store 4 (store 4 m (obj + abi.flags_at) abi.object_flags) (obj + abi.type_at) type)
          (obj + abi.handle_at) word)
        (obj + abi.cookie_at) 0

  unfoldable pub bio_put_obj : ℕ → Parcel → Parcel
  bio_put_obj ptr p =
      let (obj, p') = bio_alloc_obj p in
      elim obj [
        | none ↦ p'
        | some a ↦ record p' { mem = fill_object p'.mem a abi.type_binder 8 ptr }
      ]

  -- Only an object with a handle gets an entry in the offsets array.
  unfoldable pub alloc_ref : ℕ → Parcel → Option ℕ × Parcel
  alloc_ref handle p =
      if ltb 0 handle
      then bio_alloc_obj p
      else (let (a, io) = bio_alloc p.io abi.sizeof_object in (a, record p { io = io }))

  unfoldable pub bio_put_ref : ℕ → Parcel → Parcel
  bio_put_ref handle p =
      let (obj, p') = alloc_ref handle p in
      elim obj [
        | none ↦ p'
        | some a ↦ record p' { mem = fill_object p'.mem a abi.type_handle 4 handle }
      ]

unfoldable pub bio_put_uint32 : ℕ → Parcel → Parcel
unfolding bio_alloc
bio_put_uint32 n p =
    let (ptr, io) = bio_alloc p.io 4 in
    elim ptr [ none ↦ record p { io = io } | some a ↦ record { io = io; mem = store 4 p.mem a n } ]

-- The units of a C string, up to its terminator.
unfoldable pub c_string : List ℕ → List ℕ
c_string [] = []
c_string (x ∷ xs) = if x == 0 then [] else x ∷ c_string xs

-- `(len + 1) * sizeof(uint16_t)`, as a `size_t`.
abbrev pub string16_bytes : ℕ → ℕ
string16_bytes len = (len + 1) % size_mod * 2 % size_mod

-- The payload of a string that is `xs` before its terminator.
unfoldable pub put_payload : List ℕ → Parcel → Parcel
unfolding bio_alloc
put_payload xs p =
    let (ptr, io) = bio_alloc p.io (string16_bytes (length xs)) in
    elim ptr [
      | none ↦ record p { io = io }
      | some a ↦ record { io = io; mem = store_units p.mem a (xs ++ 0 ∷ []) }
    ]

unfoldable pub bio_put_string16 : Option (List ℕ) → Parcel → Parcel
bio_put_string16 none p = bio_put_uint32 0xffffffff p
bio_put_string16 (some str) p =
    let len = length (c_string str) in
    if leb max_units len
    then bio_put_uint32 0xffffffff p
    else put_payload (c_string str) (bio_put_uint32 (len % 2 ^ 32) p)

-- The same from a string of bytes, each written as a unit of its own.
unfoldable pub bio_put_string16_x : Option (List ℕ) → Parcel → Parcel
bio_put_string16_x none p = bio_put_uint32 0xffffffff p
bio_put_string16_x (some str) p =
    let len = length (c_string str) in
    if leb max_units len
    then bio_put_uint32 0xffffffff p
    else put_payload (c_string str) (bio_put_uint32 (len % 2 ^ 32) p)

unfoldable pub bio_get : BinderIo → ℕ → Option ℕ × BinderIo
bio_get bio size =
    if ltb bio.data_avail (align4 size)
    then (none, set_overflow (record bio { data_avail = 0 }))
    else (
      some bio.cursor,
      record bio { cursor = bio.cursor + align4 size; data_avail = bio.data_avail - align4 size },
    )

unfoldable pub bio_get_uint32 : Memory → BinderIo → ℕ × BinderIo
unfolding bio_get
bio_get_uint32 m bio =
    let (ptr, bio') = bio_get bio 4 in elim ptr [ none ↦ (0, bio') | some a ↦ (load 4 m a, bio') ]

-- The address of the units, or NULL; the length goes through `sz` in both cases.
unfoldable pub bio_get_string16 : Memory → BinderIo → Option ℕ × ℕ × BinderIo
bio_get_string16 m bio =
    let (len, bio') = bio_get_uint32 m bio in
    let (ptr, bio'') = bio_get bio' (string16_bytes len) in (ptr, len, bio'')

-- The loop over the offsets array: one of the `n` entries at `offs` is `off`.
unfoldable pub has_offset : Memory → ℕ → ℕ → ℕ → Bool
has_offset m offs off zero = false
has_offset m offs off (suc n) = if load 8 m offs == off then true else has_offset m (offs + 8) off n

module _ (abi : Abi) where
  unfoldable pub bio_get_obj : Memory → BinderIo → Option ℕ × BinderIo
  bio_get_obj m bio =
      if has_offset m bio.offs (bio.cursor - bio.data0) bio.offs_avail
      then bio_get bio abi.sizeof_object
      else (none, set_overflow (record bio { data_avail = 0 }))

  unfoldable pub bio_get_ref : Memory → BinderIo → ℕ × BinderIo
  bio_get_ref m bio =
      let (obj, bio') = bio_get_obj m bio in
      elim obj [
        | none ↦ (0, bio')
        | some a ↦
            if load 4 m (a + abi.type_at) == abi.type_handle
            then (load 4 m (a + abi.handle_at), bio')
            else (0, bio')
      ]
