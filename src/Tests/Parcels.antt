-- ===== src/Tests/Parcels.antt =====
-- Parcels at concrete addresses.
use android_source_learn.Prelude.{◌≡◌, refl, none, some, List, [], ◌∷◌, map, arith}
use android_source_learn.Bio.Objects.{bio_get_ref-bio_put_ref}
use android_source_learn.Bio.Reads.{advance}
use android_source_learn.Bio.{
  BinderIo, Parcel, no_flags, align4, bio_put_ref, bio_get_ref, bio_init, c_string,
}
use android_source_learn.Bio.Puts.{Put, uint32, obj, ref, string16, string16_x, put_all}
use android_source_learn.Bio.Safety.{Stays, bio_init-InBuffer, put_all-Stays}
use android_source_learn.Bio.Message.{Item, word, text, put_items, get_items, value_of}
use android_source_learn.Bio.Message.Reading.{get_items-put_items}
use android_source_learn.Binder.Parse.{blank}
use android_source_learn.Tests.World.{
  zeros, kernel, kernel-IsObjectLayout, hello, reader_at, parcel_at,
}

abbrev greeting : List Item
greeting = word 3 ∷ text hello ∷ word 0x100000005 ∷ []

get_items-put_items_example :
    get_items greeting (put_items greeting (parcel_at 64 480 zeros)).mem (reader_at 64 100)
    ≡ map value_of greeting
unfolding c_string
get_items-put_items_example =
    get_items-put_items greeting (parcel_at 64 480 zeros) (reader_at 64 100) ((omega arith), tt)
      (omega arith) refl (omega arith)

abbrev writes : List Put
writes = uint32 7 ∷ ref 3 ∷ obj 4096 ∷ string16 (some hello) ∷ string16_x none ∷ []

put_all-Stays_example :
    Stays 1024 1056
      (record { io = bio_init blank 1024 32 1; mem = zeros })
      (put_all kernel writes (record { io = bio_init blank 1024 32 1; mem = zeros }))
put_all-Stays_example =
    put_all-Stays kernel kernel-IsObjectLayout writes
      (record { io = bio_init blank 1024 32 1; mem = zeros })
      (bio_init-InBuffer blank 1024 32 1 (omega arith) (omega arith))

abbrev object_parcel : Parcel
object_parcel = record { io = bio_init blank 1024 512 4; mem = zeros }

-- A reader at the first object of the parcel, with its one entry.
abbrev object_reader : BinderIo
object_reader = record {
  cursor = 1056;
  offs = 1024;
  data_avail = 24;
  offs_avail = 1;
  data0 = 1056;
  offs0 = 1024;
  flags = no_flags;
}

bio_get_ref-bio_put_ref_example :
    bio_get_ref kernel (bio_put_ref kernel 7 object_parcel).mem object_reader
    ≡ (7, advance object_reader (align4 24))
unfolding bio_init
bio_get_ref-bio_put_ref_example =
    bio_get_ref-bio_put_ref kernel kernel-IsObjectLayout 1024 1536 7 object_parcel object_reader 0
      (bio_init-InBuffer blank 1024 512 4 (omega arith) (omega arith)) (omega arith) (omega arith)
      (omega arith) (omega arith) (omega arith) refl refl (omega arith) (omega arith) refl
