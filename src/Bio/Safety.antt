-- ===== src/Bio/Safety.antt =====
-- The writers of a parcel stay inside its buffer, whatever is written and however often.
use android_source_learn.Prelude.{
  ℕ, ◌+◌, ◌-◌, ◌*◌, ◌%◌, ◌^◌, ◌≤◌, ◌<◌, ◌≡◌, refl, ◌∙◌, ◌⊎◌, inl, inr, Option, none, some, List, [],
  ◌∷◌, ◌++◌, length, length-append, leb, ltb, Bool-cases, arith,
}
use android_source_learn.Memory.{Memory}
use android_source_learn.Memory.Frame.{store-Outside}
use android_source_learn.Memory.Units.{store_units-Outside}
use android_source_learn.Abi.{Abi, IsObjectLayout}
use android_source_learn.Bio.{
  BinderIo, Parcel, bio_init, bio_alloc, bio_alloc_obj, fill_object, bio_put_uint32, alloc_ref,
  bio_put_obj, bio_put_ref, bio_put_string16, bio_put_string16_x, put_payload, c_string, max_units,
}
use android_source_learn.Bio.Puts.{Put, uint32, obj, ref, string16, string16_x, put, put_all}

-- The free entries of the offsets array and the free bytes of the data lie in the buffer from `lo`
-- up to `hi`, the offsets before the data.
pub record InBuffer (lo hi : ℕ) (io : BinderIo) : Type 0 where
  pub offs_from : lo ≤ io.offs
  pub offs_room : io.offs + 8 * io.offs_avail ≤ io.data0
  pub data_from : io.data0 ≤ io.cursor
  pub data_room : io.cursor + io.data_avail ≤ hi

-- After the step the parcel is in its buffer, and no byte outside of the buffer has changed.
pub record Stays (lo hi : ℕ) (p p' : Parcel) : Type 0 where
  pub inside : InBuffer lo hi p'.io
  pub same : (q : ℕ) → (q < lo) ⊎ (hi ≤ q) → p'.mem q ≡ p.mem q

-- `bio_init` lays the offsets and then the data into the buffer that it is given.
pub bio_init-InBuffer :
    (bio : BinderIo) (start maxdata maxoffs : ℕ)
    → maxoffs < 2 ^ 32
    → maxoffs * 8 ≤ maxdata
    → InBuffer start (start + maxdata) (bio_init bio start maxdata maxoffs)
unfolding bio_init
bio_init-InBuffer bio start maxdata maxoffs small fits = ground arith

-- An allocated object of `size` bytes lies in the buffer.
abbrev ObjectIn : ℕ → ℕ → ℕ → Option ℕ → Type 0
ObjectIn lo hi size none = Unit {0}
ObjectIn lo hi size (some a) = (lo ≤ a) × (a + size ≤ hi)

module _ {lo hi : ℕ} where
  pub stay : (p : Parcel) → InBuffer lo hi p.io → Stays lo hi p p
  stay p v = record { inside = v; same = λ q o. refl }

  pub Stays-trans : {p p' p'' : Parcel} → Stays lo hi p p' → Stays lo hi p' p'' → Stays lo hi p p''
  Stays-trans s t = record { inside = t.inside; same = λ q o. t.same q o ∙ s.same q o }

  pub bio_put_uint32-Stays :
      (n : ℕ) (p : Parcel) → InBuffer lo hi p.io → Stays lo hi p (bio_put_uint32 n p)
  unfolding bio_put_uint32
  bio_put_uint32-Stays n p v = record {
    inside = ground arith;
    same = λ q o. ground (arith, store-Outside 4 p.mem p.io.cursor n q);
  }

  put_payload-Stays :
      (xs : List ℕ) (p : Parcel)
      → length xs < max_units
      → InBuffer lo hi p.io
      → Stays lo hi p (put_payload xs p)
  unfolding put_payload
  put_payload-Stays xs p small v = record {
    inside = ground arith;
    same = λ q o.
        ground (
          arith,
          store_units-Outside p.mem p.io.cursor (xs ++ 0 ∷ []) q,
          length-append xs (0 ∷ []),
        );
  }

  pub bio_put_string16-Stays :
      (s : Option (List ℕ)) (p : Parcel)
      → InBuffer lo hi p.io
      → Stays lo hi p (bio_put_string16 s p)
  unfolding bio_put_string16
  bio_put_string16-Stays none p v = bio_put_uint32-Stays 0xffffffff p v
  bio_put_string16-Stays (some s) p v = elim (Bool-cases (leb max_units (length (c_string s)))) [
    | inl long ↦ rw long (bio_put_uint32-Stays 0xffffffff p v)
    | inr short ↦
        let first = bio_put_uint32-Stays (length (c_string s) % 2 ^ 32) p v in
        rw short (Stays-trans first (put_payload-Stays (c_string s) _ (ground arith) first.inside))
  ]

  bio_put_string16_x-Stays :
      (s : Option (List ℕ)) (p : Parcel)
      → InBuffer lo hi p.io
      → Stays lo hi p (bio_put_string16_x s p)
  unfolding bio_put_string16_x
  bio_put_string16_x-Stays none p v = bio_put_uint32-Stays 0xffffffff p v
  bio_put_string16_x-Stays (some s) p v = elim (Bool-cases (leb max_units (length (c_string s)))) [
    | inl long ↦ rw long (bio_put_uint32-Stays 0xffffffff p v)
    | inr short ↦
        let first = bio_put_uint32-Stays (length (c_string s) % 2 ^ 32) p v in
        rw short (Stays-trans first (put_payload-Stays (c_string s) _ (ground arith) first.inside))
  ]

  module _ (abi : Abi) (layout : IsObjectLayout abi) where
    bio_alloc_obj-Stays :
        (p : Parcel)
        → InBuffer lo hi p.io
        → Stays lo hi p (bio_alloc_obj abi p).1
          × ObjectIn lo hi abi.sizeof_object (bio_alloc_obj abi p).0
    unfolding bio_alloc_obj
    bio_alloc_obj-Stays p v = (
      record {
        inside = ground arith;
        same = λ q o. ground (arith, store-Outside 8 p.mem p.io.offs (p.io.cursor - p.io.data0) q);
      },
      ground arith,
    )

    fill_object-same :
        (m : Memory) (a type width word q : ℕ)
        → width ≤ 8
        → lo ≤ a
        → a + abi.sizeof_object ≤ hi
        → (q < lo) ⊎ (hi ≤ q)
        → fill_object abi m a type width word q ≡ m q
    unfolding fill_object
    fill_object-same m a type width word q w l h o =
        store-Outside 8 _ (a + abi.cookie_at) 0 q (omega arith)
        ∙ store-Outside width _ (a + abi.handle_at) word q (omega arith)
        ∙ store-Outside 4 _ (a + abi.type_at) type q (omega arith)
        ∙ store-Outside 4 _ (a + abi.flags_at) abi.object_flags q (omega arith)

    fill-Stays :
        (o : Option ℕ) (p p' : Parcel) (type width word : ℕ)
        → width ≤ 8
        → Stays lo hi p p'
        → ObjectIn lo hi abi.sizeof_object o
        → Stays lo hi p (elim o [
          | none ↦ p'
          | some a ↦ record p' { mem = fill_object abi p'.mem a type width word }
        ])
    fill-Stays none p p' type width word w s o = s
    fill-Stays (some a) p p' type width word w s o = record {
      inside = s.inside;
      same = λ q out. fill_object-same p'.mem a type width word q w o.0 o.1 out ∙ s.same q out;
    }

    bio_put_obj-Stays :
        (ptr : ℕ) (p : Parcel) → InBuffer lo hi p.io → Stays lo hi p (bio_put_obj abi ptr p)
    unfolding bio_put_obj
    bio_put_obj-Stays ptr p v =
        let got = bio_alloc_obj-Stays p v in
        fill-Stays (bio_alloc_obj abi p).0 p _ abi.type_binder 8 ptr (omega arith) got.0 got.1

    bio_alloc-Stays :
        (p : Parcel)
        → InBuffer lo hi p.io
        → Stays lo hi p (record p { io = (bio_alloc p.io abi.sizeof_object).1 })
          × ObjectIn lo hi abi.sizeof_object (bio_alloc p.io abi.sizeof_object).0
    unfolding bio_alloc
    bio_alloc-Stays p v = (record { inside = ground arith; same = λ q o. refl }, ground arith)

    alloc_ref-Stays :
        (handle : ℕ) (p : Parcel)
        → InBuffer lo hi p.io
        → Stays lo hi p (alloc_ref abi handle p).1
          × ObjectIn lo hi abi.sizeof_object (alloc_ref abi handle p).0
    unfolding alloc_ref
    alloc_ref-Stays handle p v = elim (Bool-cases (ltb 0 handle)) [
      | inl some_handle ↦ rw some_handle (bio_alloc_obj-Stays p v)
      | inr no_handle ↦ rw no_handle (bio_alloc-Stays p v)
    ]

    pub bio_put_ref-Stays :
        (handle : ℕ) (p : Parcel) → InBuffer lo hi p.io → Stays lo hi p (bio_put_ref abi handle p)
    unfolding bio_put_ref
    bio_put_ref-Stays handle p v =
        let got = alloc_ref-Stays handle p v in
        fill-Stays (alloc_ref abi handle p).0 p _ abi.type_handle 4 handle (omega arith) got.0 got.1

    put-Stays : (c : Put) (p : Parcel) → InBuffer lo hi p.io → Stays lo hi p (put abi c p)
    put-Stays (uint32 n) p v = bio_put_uint32-Stays n p v
    put-Stays (obj ptr) p v = bio_put_obj-Stays ptr p v
    put-Stays (ref h) p v = bio_put_ref-Stays h p v
    put-Stays (string16 s) p v = bio_put_string16-Stays s p v
    put-Stays (string16_x s) p v = bio_put_string16_x-Stays s p v

    -- Any sequence of writes keeps the free space of the parcel inside its buffer from `lo` up to
    -- `hi`, and changes no byte outside of that buffer, whether or not the writes overflow.
    pub put_all-Stays :
        (cs : List Put) (p : Parcel) → InBuffer lo hi p.io → Stays lo hi p (put_all abi cs p)
    put_all-Stays [] p v = stay p v
    put_all-Stays (c ∷ cs) p v =
        let first = put-Stays c p v in
        Stays-trans first (put_all-Stays cs (put abi c p) first.inside)
