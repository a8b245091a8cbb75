-- ===== src/Bio/Objects.antt =====
-- A reference that is written into a parcel is found through the offsets array and read back.
use android_source_learn.Prelude.{
  ℕ, zero, suc, ◌+◌, ◌-◌, ◌*◌, ◌%◌, ◌^◌, ◌≤◌, ◌<◌, ◌≡◌, refl, ◌∙◌, ap, true, false, ltb, Option,
  some, ◌==◌, Bool-cases, inl, inr, arith,
}
use android_source_learn.Memory.{Memory, store, load}
use android_source_learn.Memory.Frame.{store-Outside, load-store_apart, load4-store, load8-store}
use android_source_learn.Abi.{Abi, IsObjectLayout}
use android_source_learn.Bio.{
  BinderIo, Parcel, align4, bio_alloc, bio_alloc_obj, alloc_ref, fill_object, bio_put_ref,
  bio_put_obj, has_offset, bio_get_obj, bio_get_ref,
}
use android_source_learn.Bio.Reads.{advance, bio_get-some}
use android_source_learn.Bio.Safety.{InBuffer}

-- An entry of the offsets array is found wherever it stands.
pub has_offset-entry :
    (m : Memory) (offs off n k : ℕ)
    → k < n
    → load 8 m (offs + 8 * k) ≡ off
    → has_offset m offs off n ≡ true
unfolding has_offset
has_offset-entry m offs off zero k small here = absurd (omega arith)
has_offset-entry m offs off (suc n) zero small here =
    let found : (load 8 m offs == off) ≡ true = ground (arith, ap (load 8 m) base) in rw found
  where
    base : offs + 8 * 0 ≡ offs
    base = omega arith
has_offset-entry m offs off (suc n) (suc k) small here =
    let rest =
      has_offset-entry m (offs + 8) off n k (omega arith) (ap (load 8 m) (omega arith) ∙ here) in
    elim (Bool-cases (load 8 m offs == off)) [ inl found ↦ rw found | inr other ↦ rw other rest ]

module _ (abi : Abi) where
  bio_get_obj-listed :
      (m : Memory) (reader : BinderIo)
      → has_offset m reader.offs (reader.cursor - reader.data0) reader.offs_avail ≡ true
      → align4 abi.sizeof_object ≤ reader.data_avail
      → bio_get_obj abi m reader ≡ (some reader.cursor, advance reader (align4 abi.sizeof_object))
  unfolding bio_get_obj
  bio_get_obj-listed m reader listed room = rw listed (bio_get-some reader abi.sizeof_object room)

  -- A reader that stands at an object whose entry it has reads its handle.
  pub bio_get_ref-found :
      (m : Memory) (reader : BinderIo)
      → has_offset m reader.offs (reader.cursor - reader.data0) reader.offs_avail ≡ true
      → align4 abi.sizeof_object ≤ reader.data_avail
      → load 4 m (reader.cursor + abi.type_at) ≡ abi.type_handle
      → bio_get_ref abi m reader
        ≡ (load 4 m (reader.cursor + abi.handle_at), advance reader (align4 abi.sizeof_object))
  unfolding bio_get_ref
  bio_get_ref-found m reader listed room typed =
      let is_handle : (load 4 m (reader.cursor + abi.type_at) == abi.type_handle) ≡ true =
        ground arith in
      let object = bio_get_obj-listed m reader listed room in
      rw (object, is_handle, bio_get_ref)
        (ap (λ (got : Option ℕ × BinderIo). (load 4 m (reader.cursor + abi.handle_at), got.1))
          object)

module _ (abi : Abi) (layout : IsObjectLayout abi) where
  pub fill_object-apart :
      (n width : ℕ) (m : Memory) (a type word q : ℕ)
      → q + n ≤ a
      → load n (fill_object abi m a type width word) q ≡ load n m q
  unfolding fill_object
  fill_object-apart n width m a type word q below =
      load-store_apart n 8 _ (a + abi.cookie_at) 0 q (inl (omega arith))
      ∙ load-store_apart n width _ (a + abi.handle_at) word q (inl (omega arith))
      ∙ load-store_apart n 4 _ (a + abi.type_at) type q (inl (omega arith))
      ∙ load-store_apart n 4 _ (a + abi.flags_at) abi.object_flags q (inl (omega arith))

  pub fill_object-type :
      (width : ℕ) (m : Memory) (a type word : ℕ)
      → width ≤ 8
      → load 4 (fill_object abi m a type width word) (a + abi.type_at) ≡ type % 2 ^ 32
  unfolding fill_object
  fill_object-type width m a type word small =
      load-store_apart 4 8 _ (a + abi.cookie_at) 0 (a + abi.type_at)
        (omega (arith, layout.type_cookie_apart))
      ∙ load-store_apart 4 width _ (a + abi.handle_at) word (a + abi.type_at)
          (omega (arith, layout.type_handle_apart))
      ∙ load4-store _ (a + abi.type_at) type

  pub fill_object-pointer :
      (m : Memory) (a type word : ℕ)
      → load 8 (fill_object abi m a type 8 word) (a + abi.handle_at) ≡ word % 2 ^ 64
  unfolding fill_object
  fill_object-pointer m a type word =
      load-store_apart 8 8 _ (a + abi.cookie_at) 0 (a + abi.handle_at)
        (omega (arith, layout.handle_cookie_apart))
      ∙ load8-store _ (a + abi.handle_at) word

  pub fill_object-word :
      (m : Memory) (a type word : ℕ)
      → load 4 (fill_object abi m a type 4 word) (a + abi.handle_at) ≡ word % 2 ^ 32
  unfolding fill_object
  fill_object-word m a type word =
      load-store_apart 4 8 _ (a + abi.cookie_at) 0 (a + abi.handle_at)
        (omega (arith, layout.handle_cookie_apart))
      ∙ load4-store _ (a + abi.handle_at) word

  -- What `bio_put_ref` leaves in memory, with room for the object and for its entry.
  pub bio_put_ref-room :
      (handle : ℕ) (p : Parcel)
      → 0 < handle
      → align4 abi.sizeof_object ≤ p.io.data_avail
      → 0 < p.io.offs_avail
      → (bio_put_ref abi handle p).mem
        ≡ fill_object abi
            (store 8 p.mem p.io.offs (p.io.cursor - p.io.data0))
            p.io.cursor
            abi.type_handle
            4
            handle
  unfolding bio_put_ref alloc_ref bio_alloc_obj bio_alloc
  bio_put_ref-room handle p live room entry = ground arith

  pub fill_object-below :
      (width : ℕ) (m : Memory) (a type word q : ℕ)
      → q < a
      → fill_object abi m a type width word q ≡ m q
  unfolding fill_object
  fill_object-below width m a type word q below =
      store-Outside 8 _ (a + abi.cookie_at) 0 q (inl (omega arith))
      ∙ store-Outside width _ (a + abi.handle_at) word q (inl (omega arith))
      ∙ store-Outside 4 _ (a + abi.type_at) type q (inl (omega arith))
      ∙ store-Outside 4 _ (a + abi.flags_at) abi.object_flags q (inl (omega arith))

  -- What `bio_put_obj` does with room for the object and for its entry.
  pub bio_put_obj-room :
      (ptr : ℕ) (p : Parcel)
      → align4 abi.sizeof_object ≤ p.io.data_avail
      → 0 < p.io.offs_avail
      → bio_put_obj abi ptr p ≡ record {
        io = record (p.io) {
          cursor = p.io.cursor + align4 abi.sizeof_object;
          data_avail = p.io.data_avail - align4 abi.sizeof_object;
          offs = p.io.offs + 8;
          offs_avail = p.io.offs_avail - 1;
        };
        mem =
            fill_object abi
              (store 8 p.mem p.io.offs (p.io.cursor - p.io.data0))
              p.io.cursor
              abi.type_binder
              8
              ptr;
      }
  unfolding bio_put_obj bio_alloc_obj bio_alloc
  bio_put_obj-room ptr p room entry =
      let enough : ltb p.io.data_avail (align4 abi.sizeof_object) ≡ false = ground arith in
      let listed : ltb 0 p.io.offs_avail ≡ true = ground arith in
      let allocated : bio_alloc p.io abi.sizeof_object ≡ (
        some p.io.cursor,
        record (p.io) {
          cursor = p.io.cursor + align4 abi.sizeof_object;
          data_avail = p.io.data_avail - align4 abi.sizeof_object;
        },
      ) =
        rw (enough, bio_alloc) refl in
      rw (allocated, bio_put_obj)
        (rw (allocated, listed) (rw (bio_alloc_obj, allocated) (rw (allocated, listed) refl)))

  -- A reference to a handle other than 0, written with room for the object and for its entry into
  -- a parcel inside its buffer, is read back as the same handle, and the reader goes on behind the
  -- object: the reader stands at the object, has its size left, and has the entry of the object as
  -- the `k`-th of its offsets.
  pub bio_get_ref-bio_put_ref :
      (lo hi handle : ℕ) (p : Parcel) (reader : BinderIo) (k : ℕ)
      → InBuffer lo hi p.io
      → hi < 2 ^ 64
      → 0 < handle
      → handle < 2 ^ 32
      → align4 abi.sizeof_object ≤ p.io.data_avail
      → 0 < p.io.offs_avail
      → reader.cursor ≡ p.io.cursor
      → reader.data0 ≡ p.io.data0
      → align4 abi.sizeof_object ≤ reader.data_avail
      → k < reader.offs_avail
      → reader.offs + 8 * k ≡ p.io.offs
      → bio_get_ref abi (bio_put_ref abi handle p).mem reader
        ≡ (handle, advance reader (align4 abi.sizeof_object))
  bio_get_ref-bio_put_ref lo hi handle p reader k v in_memory live small room entry start base
        enough listed at =
      let m = store 8 p.mem p.io.offs (p.io.cursor - p.io.data0) in
      let m' = fill_object abi m p.io.cursor abi.type_handle 4 handle in
      let offset : load 8 m' (reader.offs + 8 * k) ≡ reader.cursor - reader.data0 =
        rw (at, start, base)
          (fill_object-apart 8 4 m p.io.cursor abi.type_handle handle p.io.offs
              (omega (arith, v.offs_room, v.data_from))
            ∙ load8-store p.mem p.io.offs (p.io.cursor - p.io.data0)
            ∙ omega (arith, v.data_room)) in
      let typed : load 4 m' (reader.cursor + abi.type_at) ≡ abi.type_handle = rw start (
        fill_object-type 4 m p.io.cursor abi.type_handle handle (omega arith)
        ∙ omega (arith, layout.handle_word)) in
      let held : load 4 m' (reader.cursor + abi.handle_at) ≡ handle =
        rw start (fill_object-word m p.io.cursor abi.type_handle handle ∙ omega arith) in
      rw (bio_put_ref-room handle p live room entry) (
        bio_get_ref-found abi m' reader
          (has_offset-entry m' reader.offs (reader.cursor - reader.data0) reader.offs_avail k listed
            offset)
          enough typed
        ∙ rw held refl)
