-- ===== src/HelloCpp/Fifo.antt =====
-- What the class Parcel of libbinder is documented to do: a parcel is read in the order in which it
-- was written.
use android_source_learn.Prelude.{ℕ, ◌^◌, ◌<◌, ◌≡◌, List, [], ◌∷◌, ◌++◌}
use android_source_learn.Prelude.Int.{ℤ, pos, negsuc}
use android_source_learn.HelloCpp.{ParcelClass}

pub data Item : Type 0 where
  number : ℤ → Item
  text : List ℕ → Item

-- An `int32_t`.
abbrev pub IsInt32 : ℤ → Type 0
IsInt32 (pos n) = n < 2 ^ 31
IsInt32 (negsuc n) = n < 2 ^ 31

-- `Written p is` says that `is` has been written to a parcel, whose position is at its end, and
-- `Unread p is` that `is` is what is left behind the position of a parcel that is read.
pub record IsFifo (c : ParcelClass) : Type 1 where
  pub Written : c.Parcel → List Item → Type 0
  pub Unread : c.Parcel → List Item → Type 0
  pub empty : Written c.empty []
  pub write_int32 :
      (p : c.Parcel) (is : List Item) (z : ℤ)
      → Written p is
      → Written (c.write_int32 z p) (is ++ number z ∷ [])
  pub write_string16 :
      (p : c.Parcel) (is : List Item) (s : List ℕ)
      → Written p is
      → Written (c.write_string16 s p) (is ++ text s ∷ [])
  pub read_int32 :
      (p : c.Parcel) (is : List Item) (z : ℤ)
      → IsInt32 z
      → Unread p (number z ∷ is)
      → ((c.read_int32 p).0 ≡ z) × Unread (c.read_int32 p).1 is
  pub read_string16 :
      (p : c.Parcel) (is : List Item) (s : List ℕ)
      → Unread p (text s ∷ is)
      → ((c.read_string16 p).0 ≡ s) × Unread (c.read_string16 p).1 is

-- The transport delivers what was written as a parcel that is read from its start.
abbrev pub Delivers : (c : ParcelClass) → IsFifo c → (c.Parcel → c.Parcel) → Type 0
Delivers c fifo deliver =
    (p : c.Parcel) (is : List Item) → fifo.Written p is → fifo.Unread (deliver p) is
