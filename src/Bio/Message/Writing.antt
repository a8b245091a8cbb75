-- ===== src/Bio/Message/Writing.antt =====
-- The writers put a message into a parcel with room for it.
use android_source_learn.Prelude.{
  ℕ, ◌+◌, ◌%◌, ◌^◌, ◌≤◌, ◌<◌, ◌≡◌, refl, ◌∙◌, false, some, List, [], ◌∷◌, ◌++◌, length,
  length-append, leb, arith,
}
use android_source_learn.Memory.{Memory, load, store_units}
use android_source_learn.Memory.Frame.{Outside, Agree, store-Outside, load-Agree, load4-store}
use android_source_learn.Memory.Units.{
  store_units-Outside, load_units-Agree, load_units-store_units,
}
use android_source_learn.Bio.{
  Parcel, align4, bio_put_uint32, bio_put_string16, bio_put_string16_x, put_payload, c_string,
  string16_bytes, max_units,
}
use android_source_learn.Bio.Message.{
  Item, word, text, put_item, put_items, size_of, total_size, IsSendable, HoldsItem, Holds,
}

-- `p'` is `p` after `n` more bytes, which alone have changed.
pub record Grows (n : ℕ) (p p' : Parcel) : Type 0 where
  pub moved : p'.io.cursor ≡ p.io.cursor + n
  pub left : p'.io.data_avail + n ≡ p.io.data_avail
  pub kept : p'.io.flags ≡ p.io.flags
  pub based : p'.io.data0 ≡ p.io.data0
  pub offsets :
      (p'.io.offs ≡ p.io.offs) × (p'.io.offs0 ≡ p.io.offs0) × (p'.io.offs_avail ≡ p.io.offs_avail)
  pub same : (q : ℕ) → Outside p.io.cursor n q → p'.mem q ≡ p.mem q

bio_put_uint32-Grows :
    (n : ℕ) (p : Parcel)
    → 4 ≤ p.io.data_avail
    → Grows 4 p (bio_put_uint32 n p) × (load 4 (bio_put_uint32 n p).mem p.io.cursor ≡ n % 2 ^ 32)
unfolding bio_put_uint32
bio_put_uint32-Grows n p room = (
  record {
    moved = ground arith;
    left = ground arith;
    kept = ground arith;
    based = ground arith;
    offsets = ground arith;
    same = λ q o. ground (arith, store-Outside 4 p.mem p.io.cursor n q);
  },
  ground (arith, load4-store p.mem p.io.cursor n),
)

put_payload-Grows :
    (xs : List ℕ) (p : Parcel)
    → length xs < max_units
    → align4 (string16_bytes (length xs)) ≤ p.io.data_avail
    → Grows (align4 (string16_bytes (length xs))) p (put_payload xs p)
      × ((put_payload xs p).mem ≡ store_units p.mem p.io.cursor (xs ++ 0 ∷ []))
unfolding put_payload
put_payload-Grows xs p small room = (
  record {
    moved = ground arith;
    left = ground arith;
    kept = ground arith;
    based = ground arith;
    offsets = ground arith;
    same = λ q o.
        ground (
          arith,
          store_units-Outside p.mem p.io.cursor (xs ++ 0 ∷ []) q,
          length-append xs (0 ∷ []),
        );
  },
  ground arith,
)

Grows-trans : (a b : ℕ) {p p' p'' : Parcel} → Grows a p p' → Grows b p' p'' → Grows (a + b) p p''
Grows-trans a b g h = record {
  moved = omega (arith, g.moved, h.moved);
  left = omega (arith, g.left, h.left);
  kept = h.kept ∙ g.kept;
  based = h.based ∙ g.based;
  offsets = (cc, cc, cc);
  same = λ q o. h.same q (omega (arith, g.moved)) ∙ g.same q (omega arith);
}

-- Bytes from `d` on are not touched by what is written behind them.
behind :
    {n : ℕ} {p p' : Parcel} (d k : ℕ) → Grows n p p' → d + k ≤ p.io.cursor → Agree d k p'.mem p.mem
behind d k g h = λ q a b. g.same q (omega arith)

-- A short string is its length and then its payload.
pub bio_put_string16-short :
    (s : List ℕ) (p : Parcel)
    → length (c_string s) < max_units
    → bio_put_string16 (some s) p
      ≡ put_payload (c_string s) (bio_put_uint32 (length (c_string s) % 2 ^ 32) p)
unfolding bio_put_string16
bio_put_string16-short s p small =
    let short : leb max_units (length (c_string s)) ≡ false = ground arith in rw short

bio_put_string16-Grows :
    (s : List ℕ) (p : Parcel)
    → length (c_string s) < max_units
    → size_of (text s) ≤ p.io.data_avail
    → Grows (size_of (text s)) p (bio_put_string16 (some s) p)
      × HoldsItem (bio_put_string16 (some s) p).mem p.io.cursor (text s)
bio_put_string16-Grows s p small room =
    let len = length (c_string s) in
    let (first, header) = bio_put_uint32-Grows (len % 2 ^ 32) p (omega arith) in
    let p' = bio_put_uint32 (len % 2 ^ 32) p in
    let (second, stored) = put_payload-Grows (c_string s) p' small (omega (arith, first.left)) in
    rw (bio_put_string16-short s p small) (
      Grows-trans 4 (align4 (string16_bytes len)) first second,
      (
        load-Agree 4 _ _ p.io.cursor (behind p.io.cursor 4 second (omega (arith, first.moved)))
            ∙ header
            ∙ omega arith,
        rw (stored, ← first.moved)
            (load_units-store_units p'.mem p'.io.cursor (c_string s) (0 ∷ [])),
        small,
      ),
    )

put_item-Grows :
    (i : Item) (p : Parcel)
    → IsSendable (i ∷ [])
    → size_of i ≤ p.io.data_avail
    → Grows (size_of i) p (put_item i p) × HoldsItem (put_item i p).mem p.io.cursor i
put_item-Grows (word n) p ok room = bio_put_uint32-Grows n p room
put_item-Grows (text s) p ok room = bio_put_string16-Grows s p ok.0 room

HoldsItem-Agree :
    (i : Item) (m m' : Memory) (d : ℕ)
    → Agree d (size_of i) m m'
    → HoldsItem m' d i
    → HoldsItem m d i
HoldsItem-Agree (word n) m m' d same h = load-Agree 4 m m' d same ∙ h
HoldsItem-Agree (text s) m m' d same (len, units, small) = (
  load-Agree 4 m m' d (λ q a b. same q a (omega arith)) ∙ len,
  load_units-Agree (length (c_string s)) m m' (d + 4) (λ q a b. same q (omega arith) (omega arith))
      ∙ units,
  small,
)

split : (i : Item) (is : List Item) → IsSendable (i ∷ is) → IsSendable (i ∷ []) × IsSendable is
split (word n) is ok = (tt, ok)
split (text s) is ok = ((ok.0, tt), ok.1)

pub put_items-Grows :
    (is : List Item) (p : Parcel)
    → IsSendable is
    → total_size is ≤ p.io.data_avail
    → Grows (total_size is) p (put_items is p) × Holds (put_items is p).mem p.io.cursor is
put_items-Grows [] p ok room = (
  record {
    moved = omega arith;
    left = omega arith;
    kept = refl;
    based = refl;
    offsets = (refl, refl, refl);
    same = λ q o. refl;
  },
  tt,
)
put_items-Grows (i ∷ is) p ok room =
    let (ok_first, ok_rest) = split i is ok in
    let (first, held) = put_item-Grows i p ok_first (omega arith) in
    let (rest, holds) = put_items-Grows is (put_item i p) ok_rest (omega (arith, first.left)) in
    (
      Grows-trans (size_of i) (total_size is) first rest,
      (
        HoldsItem-Agree i _ _ p.io.cursor
            (behind p.io.cursor (size_of i) rest (omega (arith, first.moved))) held,
        rw first.moved at holds,
      ),
    )

-- The two writers of strings do the same with the same characters.
pub bio_put_string16_x-eq :
    (s : List ℕ) (p : Parcel) → bio_put_string16_x (some s) p ≡ bio_put_string16 (some s) p
unfolding bio_put_string16 bio_put_string16_x
bio_put_string16_x-eq s p = refl
