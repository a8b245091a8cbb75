-- ===== src/Bio/Io.antt =====
-- `struct binder_io` of Demos/BinderCDemo/binder4Server.h, and how binder4Server.c sets one up.
use android_source_learn.Prelude.{
  ℕ, ◌+◌, ◌-◌, ◌*◌, ◌/◌, ◌%◌, ◌^◌, Bool, true, false, ltb, if◌then◌else◌,
}
use android_source_learn.Memory.{Memory, size_mod}
use android_source_learn.Abi.{TransactionData}

-- The bits of `binder_io.flags`: BIO_F_SHARED, BIO_F_OVERFLOW, BIO_F_IOERROR and BIO_F_MALLOCED.
pub record BioFlags : Type 0 where
  pub shared : Bool
  pub overflow : Bool
  pub io_error : Bool
  pub malloced : Bool

abbrev pub no_flags : BioFlags
no_flags = record { shared = false; overflow = false; io_error = false; malloced = false }

pub record BinderIo : Type 0 where
  pub cursor : ℕ
  pub offs : ℕ
  pub data_avail : ℕ
  pub offs_avail : ℕ
  pub data0 : ℕ
  pub offs0 : ℕ
  pub flags : BioFlags

pub record Parcel : Type 0 where
  pub io : BinderIo
  pub mem : Memory

abbrev pub set_overflow : BinderIo → BinderIo
set_overflow io = record io {
  flags = record {
    shared = io.flags.shared;
    overflow = true;
    io_error = io.flags.io_error;
    malloced = io.flags.malloced;
  };
}

-- `size = (size + 3) & (~3)`
abbrev pub align4 : ℕ → ℕ
align4 size = (size + 3) % size_mod / 4 * 4

-- MAX_BIO_SIZE / sizeof(uint16_t)
abbrev pub max_units : ℕ
max_units = 2 ^ 30 / 2

unfoldable pub bio_init_from_txn : BinderIo → TransactionData → BinderIo
bio_init_from_txn bio txn = record {
  cursor = txn.buffer;
  offs = txn.offsets;
  data_avail = txn.data_size;
  offs_avail = txn.offsets_size / 8;
  data0 = txn.buffer;
  offs0 = txn.offsets;
  flags = record { shared = true; overflow = false; io_error = false; malloced = false };
}

-- On overflow the four pointers keep what `bio` held before.
unfoldable pub bio_init : BinderIo → ℕ → ℕ → ℕ → BinderIo
bio_init bio start maxdata maxoffs =
    let n = maxoffs * 8 % size_mod in
    if ltb maxdata n
    then record bio {
      flags = record { shared = false; overflow = true; io_error = false; malloced = false };
      data_avail = 0;
      offs_avail = 0;
    }
    else record {
      cursor = start + n;
      offs = start;
      data_avail = maxdata - n;
      offs_avail = maxoffs;
      data0 = start + n;
      offs0 = start;
      flags = no_flags;
    }
