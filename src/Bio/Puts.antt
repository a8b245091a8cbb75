-- ===== src/Bio/Puts.antt =====
-- The writers of a parcel as one command type, so that a whole message is a list of commands.
use android_source_learn.Prelude.{ℕ, Option, List, [], ◌∷◌}
use android_source_learn.Abi.{Abi}
use android_source_learn.Bio.{
  Parcel, bio_put_uint32, bio_put_obj, bio_put_ref, bio_put_string16, bio_put_string16_x,
}

pub data Put : Type 0 where
  uint32 : ℕ → Put
  obj : ℕ → Put
  ref : ℕ → Put
  string16 : Option (List ℕ) → Put
  string16_x : Option (List ℕ) → Put

module _ (abi : Abi) where
  abbrev pub put : Put → Parcel → Parcel
  put (uint32 n) p = bio_put_uint32 n p
  put (obj ptr) p = bio_put_obj abi ptr p
  put (ref handle) p = bio_put_ref abi handle p
  put (string16 s) p = bio_put_string16 s p
  put (string16_x s) p = bio_put_string16_x s p

  abbrev pub put_all : List Put → Parcel → Parcel
  put_all [] p = p
  put_all (c ∷ cs) p = put_all cs (put c p)
