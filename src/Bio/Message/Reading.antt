-- ===== src/Bio/Message/Reading.antt =====
-- A message in memory is read back, and so is one that was written.
use android_source_learn.Prelude.{ℕ, ◌+◌, ◌≤◌, ◌≡◌, refl, ap, List, [], ◌∷◌, map, arith}
use mathlib.Core.Path.{ap₂}
use android_source_learn.Memory.{Memory}
use android_source_learn.Bio.Reads.{bio_get_uint32-room, bio_get_string16-room}
use android_source_learn.Bio.{BinderIo, Parcel}
use android_source_learn.Bio.Message.{
  Item, word, text, put_items, Value, got_units, get_item, get_items, value_of, size_of, total_size,
  IsSendable, HoldsItem, Holds,
}
use android_source_learn.Bio.Message.Writing.{put_items-Grows}

-- The reader of an item that the memory holds gets its value and goes on behind it.
abbrev pub Reads : ℕ → BinderIo → Value × BinderIo → Value → Type 0
Reads n io (v, io') w =
    (v ≡ w) × (io'.cursor ≡ io.cursor + n) × (io'.data_avail + n ≡ io.data_avail)

pub get_item-Reads :
    (i : Item) (m : Memory) (io : BinderIo)
    → HoldsItem m io.cursor i
    → size_of i ≤ io.data_avail
    → Reads (size_of i) io (get_item i m io) (value_of i)
get_item-Reads (word n) m io h room =
    rw (bio_get_uint32-room m io room) (rw h (refl, refl, omega arith))
get_item-Reads (text s) m io (len, units, small) room =
    rw (bio_get_string16-room m io (rw len room))
      (rw len (ap got_units units, omega arith, omega arith))

get_items-Holds :
    (is : List Item) (m : Memory) (io : BinderIo)
    → Holds m io.cursor is
    → total_size is ≤ io.data_avail
    → get_items is m io ≡ map value_of is
get_items-Holds [] m io h room = refl
get_items-Holds (i ∷ is) m io (held, holds) room =
    let (got, moved, left) = get_item-Reads i m io held (omega arith) in
    ap₂ ◌∷◌ got (get_items-Holds is m (get_item i m io).1 (rw moved holds) (omega arith))

-- A message of words and of strings that can be sent, written into a parcel with room for all of
-- it, is read back by any reader that starts where the message starts and has at least its size
-- left: each word modulo `2 ^ 32`, and each string as its 16-bit units up to the first zero.
pub get_items-put_items :
    (is : List Item) (p : Parcel) (reader : BinderIo)
    → IsSendable is
    → total_size is ≤ p.io.data_avail
    → reader.cursor ≡ p.io.cursor
    → total_size is ≤ reader.data_avail
    → get_items is (put_items is p).mem reader ≡ map value_of is
get_items-put_items is p reader ok room start enough =
    let (grown, holds) = put_items-Grows is p ok room in
    get_items-Holds is _ reader (rw start holds) enough
