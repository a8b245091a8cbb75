-- ===== src/Tests/World.antt =====
-- Concrete surroundings: a layout with the numbers of a 64-bit kernel, a policy that admits every
-- caller below the application uids, and a memory that holds zeros.
use android_source_learn.Prelude.{ℕ, ◌+◌, ◌%◌, true, false, none, some, List, [], ◌∷◌, arith}
use android_source_learn.Memory.{Memory, load}
use android_source_learn.Abi.{Abi, TransactionData, TransactionSecctx, IsObjectLayout}
use android_source_learn.Bio.{BinderIo, Parcel, no_flags}
use android_source_learn.ServiceManager.Access.{System}
use android_source_learn.ServiceManager.Registry.{Svcinfo, Manager}
use android_source_learn.ServiceManager.Handler.{Answers}
use android_source_learn.Binder.Parse.Stream.{
  Count, increfs, acquire, release, decrefs, count_code, Unlike, empty_codes,
}

abbrev pub zeros : Memory
zeros q = 0

-- The words of the transaction lie one after another, eight bytes each.
abbrev pub read_words : Memory → ℕ → TransactionData
read_words m p = record {
  target = load 8 m p;
  code = load 8 m (p + 8);
  flags = load 8 m (p + 16);
  sender_pid = load 8 m (p + 24);
  sender_euid = load 8 m (p + 32);
  data_size = load 8 m (p + 40);
  offsets_size = load 8 m (p + 48);
  buffer = load 8 m (p + 56);
  offsets = load 8 m (p + 64);
}

abbrev pub kernel : Abi
kernel = record {
  sizeof_object = 24;
  type_at = 0;
  flags_at = 4;
  handle_at = 8;
  cookie_at = 16;
  type_binder = 0x73622a85;
  type_handle = 0x73682a85;
  object_flags = 0x17f;
  br_noop = 0x720c;
  br_transaction_complete = 0x7206;
  br_increfs = 0x7207;
  br_acquire = 0x7208;
  br_release = 0x7209;
  br_decrefs = 0x720a;
  br_transaction_sec_ctx = 0x7202;
  br_transaction = 0x7204;
  br_reply = 0x7203;
  br_dead_binder = 0x720f;
  br_failed_reply = 0x7211;
  br_dead_reply = 0x7205;
  sizeof_ptr_cookie = 16;
  sizeof_txn = 72;
  sizeof_txn_secctx = 80;
  read_txn = read_words;
  read_txn_secctx = λ m p. record { transaction_data = read_words m p; secctx = load 8 m (p + 72) };
  tf_one_way = 1;
  tf_status_code = 8;
  protocol_version = 8;
  ping_transaction = 0x5f504e47;
}

pub kernel-IsObjectLayout : IsObjectLayout kernel
kernel-IsObjectLayout = record {
  small = omega arith;
  type_in = omega arith;
  flags_in = omega arith;
  handle_in = omega arith;
  cookie_in = omega arith;
  type_handle_apart = omega arith;
  type_flags_apart = omega arith;
  type_cookie_apart = omega arith;
  flags_handle_apart = omega arith;
  handle_cookie_apart = omega arith;
  binder_word = omega arith;
  handle_word = omega arith;
  types_differ = omega arith;
}

abbrev pub policy : System
policy = record {
  getpidcon = λ pid. some pid;
  selabel_lookup = λ handle name. some 77;
  selinux_check_access = λ sid tctx perm ad. true;
  service_manager_context = 76;
  multiuser_get_app_id = λ uid. uid % 100000;
  aid_app = 10000;
  aid_user = 100000;
  aid_isolated_start = 99000;
  aid_isolated_end = 99999;
}

-- "hello"
abbrev pub hello : List ℕ
hello = b'h' ∷ b'e' ∷ b'l' ∷ b'l' ∷ b'o' ∷ []

-- The service "hello" in the node at 4096, under the handle 7.
abbrev pub hello_node : Svcinfo
hello_node = record {
  self = 4096;
  handle = 7;
  allow_isolated = true;
  dumpsys_priority = 1;
  name = hello;
}

abbrev pub one_service : Manager
one_service = record { svclist = hello_node ∷ []; sehandle = some 5; written = [] }

abbrev pub no_service : Manager
no_service = record { svclist = []; sehandle = some 5; written = [] }

abbrev pub quiet : Answers
quiet = record { fresh = some 8192; status_updated = false; new_sehandle = none }

-- A transaction for the manager with a given code, from the process 40 of the user 1000.
abbrev pub request : ℕ → TransactionSecctx
request code = record {
  transaction_data = record {
    target = 0;
    code = code;
    flags = 0;
    sender_pid = 40;
    sender_euid = 1000;
    data_size = 100;
    offsets_size = 0;
    buffer = 1000;
    offsets = 2000;
  };
  secctx = 9;
}

-- A reader of `n` bytes from `start`.
abbrev pub reader_at : (start n : ℕ) → BinderIo
reader_at start n = record {
  cursor = start;
  offs = 0;
  data_avail = n;
  offs_avail = 0;
  data0 = start;
  offs0 = 0;
  flags = no_flags;
}

abbrev pub parcel_at : (start n : ℕ) → Memory → Parcel
parcel_at start n mem = record { io = reader_at start n; mem = mem }

pub count_code-Unlike : (c : Count) → Unlike (count_code kernel c) (empty_codes kernel)
count_code-Unlike increfs = (omega arith, (omega arith, tt))
count_code-Unlike acquire = (omega arith, (omega arith, tt))
count_code-Unlike release = (omega arith, (omega arith, tt))
count_code-Unlike decrefs = (omega arith, (omega arith, tt))
