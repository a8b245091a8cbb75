-- ===== src/Bio/Reads.antt =====
-- What the readers of a parcel return, when enough is left and when it is not.
use android_source_learn.Prelude.{ℕ, ◌+◌, ◌-◌, ◌≤◌, ◌<◌, ◌≡◌, true, false, none, some, ltb, arith}
use android_source_learn.Memory.{Memory, load}
use android_source_learn.Bio.{
  BinderIo, align4, set_overflow, string16_bytes, bio_get, bio_get_uint32, bio_get_string16,
}

abbrev pub advance : BinderIo → ℕ → BinderIo
advance io n = record io { cursor = io.cursor + n; data_avail = io.data_avail - n }

-- The state after a read that failed: nothing is left, and the overflow flag is up.
abbrev pub spent : BinderIo → BinderIo
spent io = set_overflow (record io { data_avail = 0 })

module _ (io : BinderIo) where
  pub bio_get-some :
      (size : ℕ)
      → align4 size ≤ io.data_avail
      → bio_get io size ≡ (some io.cursor, advance io (align4 size))
  unfolding bio_get
  bio_get-some size room =
      let enough : ltb io.data_avail (align4 size) ≡ false = ground arith in rw enough

  pub bio_get-none : (size : ℕ) → io.data_avail < align4 size → bio_get io size ≡ (none, spent io)
  unfolding bio_get
  bio_get-none size short =
      let less : ltb io.data_avail (align4 size) ≡ true = ground arith in rw less

module _ (m : Memory) (io : BinderIo) where
  pub bio_get_uint32-room :
      4 ≤ io.data_avail → bio_get_uint32 m io ≡ (load 4 m io.cursor, advance io 4)
  unfolding bio_get_uint32
  bio_get_uint32-room room = ground (arith, bio_get-some io 4 room)

  pub bio_get_uint32-short : io.data_avail < 4 → bio_get_uint32 m io ≡ (0, spent io)
  unfolding bio_get_uint32
  bio_get_uint32-short short = ground (arith, bio_get-none io 4 short)

  pub bio_get_string16-room :
      4 + align4 (string16_bytes (load 4 m io.cursor)) ≤ io.data_avail
      → bio_get_string16 m io ≡ (
        some (io.cursor + 4),
        load 4 m io.cursor,
        advance (advance io 4) (align4 (string16_bytes (load 4 m io.cursor))),
      )
  unfolding bio_get_string16
  bio_get_string16-room room =
      rw (bio_get_uint32-room (omega arith))
        (rw (bio_get-some (advance io 4) (string16_bytes (load 4 m io.cursor)) (omega arith)))
