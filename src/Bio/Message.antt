-- ===== src/Bio/Message.antt =====
-- A message that is written item by item is read back item by item.
pub mod Writing
pub mod Reading
pub mod Copying
use android_source_learn.Prelude.{
  ℕ, ◌+◌, ◌*◌, ◌%◌, ◌^◌, ◌≤◌, ◌<◌, ◌≡◌, refl, ◌∙◌, ap, false, Option, none, some, List, [], ◌∷◌,
  ◌++◌, map, length, length-append, leb, arith,
}
use mathlib.Core.Path.{ap₂}
use android_source_learn.Memory.{Memory, load, store_units, load_units}
use android_source_learn.Memory.Frame.{
  Outside, Agree, store-Outside, load-Agree, load4-store, Copied, Copied-part, load-Copied,
}
use android_source_learn.Memory.Units.{
  unit16, store_units-Outside, load_units-Agree, load_units-store_units, load_units-Copied,
}
use android_source_learn.Bio.Reads.{bio_get_uint32-room, bio_get_string16-room}
use android_source_learn.Bio.{
  BinderIo, Parcel, align4, bio_put_uint32, bio_put_string16, bio_put_string16_x, put_payload,
  c_string, string16_bytes, max_units, bio_get_uint32, bio_get_string16,
}

-- What a message carries: words and strings.
pub data Item : Type 0 where
  word : ℕ → Item
  text : List ℕ → Item

abbrev pub put_item : Item → Parcel → Parcel
put_item (word n) p = bio_put_uint32 n p
put_item (text s) p = bio_put_string16 (some s) p

abbrev pub put_items : List Item → Parcel → Parcel
put_items [] p = p
put_items (i ∷ is) p = put_items is (put_item i p)

-- A reader that knows the shape of the message reads each item: a word, or the units of a string.
pub data Value : Type 0 where
  got_word : ℕ → Value
  got_units : List ℕ → Value
  got_null : Value

abbrev pub units_at : Memory → Option ℕ → ℕ → Value
units_at m none len = got_null
units_at m (some a) len = got_units (load_units m a len)

abbrev pub get_item : Item → Memory → BinderIo → Value × BinderIo
get_item (word _) m io = let (n, io') = bio_get_uint32 m io in (got_word n, io')
get_item (text _) m io = let (a, len, io') = bio_get_string16 m io in (units_at m a len, io')

abbrev pub get_items : List Item → Memory → BinderIo → List Value
get_items [] m io = []
get_items (i ∷ is) m io = let (v, io') = get_item i m io in v ∷ get_items is m io'

-- The value that an item has for its reader: a 32-bit word, or the 16-bit units up to the first
-- zero.
abbrev pub value_of : Item → Value
value_of (word n) = got_word (n % 2 ^ 32)
value_of (text s) = got_units (map unit16 (c_string s))

-- The bytes that an item takes.
abbrev pub size_of : Item → ℕ
size_of (word n) = 4
size_of (text s) = 4 + align4 (string16_bytes (length (c_string s)))

abbrev pub total_size : List Item → ℕ
total_size [] = 0
total_size (i ∷ is) = size_of i + total_size is

-- A string is short enough to be sent.
abbrev pub IsSendable : List Item → Type 0
IsSendable [] = Unit {0}
IsSendable (word n ∷ is) = IsSendable is
IsSendable (text s ∷ is) = (length (c_string s) < max_units) × IsSendable is

-- The memory holds the item at `d`.
abbrev pub HoldsItem : Memory → ℕ → Item → Type 0
HoldsItem m d (word n) = load 4 m d ≡ n % 2 ^ 32
HoldsItem m d (text s) =
    (load 4 m d ≡ length (c_string s))
    × (load_units m (d + 4) (length (c_string s)) ≡ map unit16 (c_string s))
    × (length (c_string s) < max_units)

abbrev pub Holds : Memory → ℕ → List Item → Type 0
Holds m d [] = Unit {0}
Holds m d (i ∷ is) = HoldsItem m d i × Holds m (d + size_of i) is
