-- ===== src/Tests/Exchanges.antt =====
-- Whole exchanges at concrete addresses. All processes look at one memory, so that what the driver
-- copies stays where it is.
use android_source_learn.Prelude.{
  ◌-◌, ◌≡◌, refl, false, some, [], ◌∷◌, map, ◌==◌, if◌then◌else◌, arith,
}
use android_source_learn.Prelude.Int.{pos}
use android_source_learn.Memory.{Memory, store, load, set_byte, store_units, load_units}
use android_source_learn.Memory.Units.{unit16}
use android_source_learn.Abi.{TransactionData}
use android_source_learn.Bio.{
  BinderIo, Parcel, bio_init, bio_init_from_txn, bio_alloc, bio_alloc_obj, alloc_ref, fill_object,
  put_payload, bio_put_uint32, bio_put_ref, bio_put_string16_x, bio_get, bio_get_uint32,
  bio_get_string16, c_string,
}
use android_source_learn.Binder.Commands.{reply_txn, free_buffer, acquire}
use android_source_learn.Binder.Parse.{blank}
use android_source_learn.Binder.Parse.Stream.{noop, complete, reply, AreCodes}
use android_source_learn.Binder.Call.{call_txn, Response, ended, finished, binder_call}
use android_source_learn.Binder.Call.Replies.{Delivers, binder_call-replied}
use android_source_learn.ServiceManager.Access.{
  svc_can_find, check_mac_perms, check_mac_perms_from_lookup,
}
use android_source_learn.ServiceManager.Registry.{same_name, find_svc, do_find_service}
use android_source_learn.ServiceManager.Handler.{
  svcmgr_handler, enforce_interface, dispatch, handle_find, find_named, refresh_sehandle,
  svc_mgr_check_service,
}
use android_source_learn.HelloServer.{put_header}
use android_source_learn.HelloClient.Main.{hello_client}
use android_source_learn.HelloClient.{lookup_message, svcmgr_lookup}
use android_source_learn.Protocol.Replies.{empty_reply, Conveys}
use android_source_learn.Protocol.Exchange.{Hands, svcmgr_lookup-exchange}
use android_source_learn.Tests.World.{
  count_code-Unlike, zeros, kernel, kernel-IsObjectLayout, policy, hello, one_service, quiet,
  request, reader_at, read_words,
}

pub kernel-AreCodes : AreCodes kernel
kernel-AreCodes = record {
  noop = omega arith;
  complete = omega arith;
  increfs = omega arith;
  acquire = omega arith;
  release = omega arith;
  decrefs = omega arith;
  sec_ctx = omega arith;
  transaction = omega arith;
  counts = count_code-Unlike;
}

-- BR_REPLY in the read buffer at 512, with 24 bytes of data at 8224 and 8 of offsets at 8192.
abbrev pub ready : Memory
ready =
    store 8 (store 8 (store 8 (store 8 (store 4 zeros 512 0x7203) 556 24) 564 8) 572 8224) 580 8192

abbrev pub sent : Parcel
sent = lookup_message 1024 hello ready

abbrev pub answer : Parcel
answer = bio_put_ref kernel 7 (empty_reply 8192 sent.mem)

abbrev pub incoming : BinderIo
incoming = reader_at 1056 (sent.io.cursor - 1056)

-- BR_NOOP and BR_TRANSACTION_COMPLETE, and then the reply.
abbrev pub first_answer : Response
first_answer = record {
  failed = false;
  mem = store 4 (store 4 zeros 512 0x720c) 516 0x7206;
  read_consumed = 8;
}

abbrev pub second_answer : Response
second_answer = record { failed = false; mem = answer.mem; read_consumed = 76 }

abbrev pub received : TransactionData
received = read_words answer.mem 516

pub sent-Hands :
    Hands
      (call_txn sent.io 0 svc_mgr_check_service)
      sent.mem
      (request svc_mgr_check_service)
      incoming
      sent.mem
unfolding bio_init lookup_message put_header bio_put_string16_x put_payload bio_put_uint32 bio_alloc
    c_string
sent-Hands = record { target = λ e. refl; coded = refl; size = refl; copied = λ i small. refl }

pub found_hello :
    do_find_service policy
      (map unit16 (c_string hello))
      1000
      40
      9
      (refresh_sehandle quiet one_service)
    ≡ some 7
unfolding do_find_service find_svc same_name svc_can_find check_mac_perms_from_lookup
    check_mac_perms refresh_sehandle c_string
found_hello = refl

pub handled :
    svcmgr_handler policy kernel quiet one_service
      (request svc_mgr_check_service)
      incoming
      (empty_reply 8192 sent.mem)
    ≡ some (one_service, answer, pos 0)
unfolding svcmgr_handler enforce_interface dispatch handle_find find_named refresh_sehandle
    do_find_service find_svc same_name svc_can_find check_mac_perms_from_lookup check_mac_perms
    bio_get bio_get_uint32 bio_get_string16 load load_units store set_byte store_units bio_init
    lookup_message put_header bio_put_string16_x put_payload bio_put_uint32 bio_alloc c_string
handled = refl

pub first_answer-Delivers : Delivers kernel 512 first_answer (noop ∷ complete ∷ [])
unfolding load store set_byte
first_answer-Delivers = record {
  succeeds = refl;
  holds = (refl, (refl, tt));
  consumed = refl;
  in_memory = omega arith;
}

pub second_answer-Delivers : Delivers kernel 512 second_answer (reply received ∷ [])
unfolding load store set_byte fill_object bio_put_ref alloc_ref bio_alloc_obj bio_init
    lookup_message put_header bio_put_string16_x put_payload bio_put_uint32 bio_alloc c_string
    store_units
second_answer-Delivers = record {
  succeeds = refl;
  holds = ((refl, refl), tt);
  consumed = refl;
  in_memory = omega arith;
}

pub answer-Conveys :
    Conveys kernel (λ h. h) (reply_txn kernel answer.io (pos 0)) answer.mem received answer.mem
unfolding load store set_byte fill_object bio_put_ref alloc_ref bio_alloc_obj bio_init
    lookup_message put_header bio_put_string16_x put_payload bio_put_uint32 bio_alloc c_string
    store_units
answer-Conveys = record {
  data_size = refl;
  offsets_size = refl;
  objects = record {
    entries = λ i small. refl;
    typed = λ k small. refl;
    translated = λ k small. refl;
  };
}

svcmgr_lookup-exchange_example :
    svcmgr_lookup kernel hello_client 256 512 1024
      (λ t m. first_answer ∷ second_answer ∷ [])
      0
      hello
      []
      ready
    ≡ (if 7 == 0
        then ended 0 (free_buffer received.buffer ∷ []) answer.mem
        else ended 7 (free_buffer received.buffer ∷ acquire 7 ∷ []) answer.mem)
unfolding c_string
svcmgr_lookup-exchange_example =
    svcmgr_lookup-exchange policy kernel kernel-IsObjectLayout kernel-AreCodes hello_client 256 512
      1024 (λ t m. first_answer ∷ second_answer ∷ []) hello [] ready quiet one_service one_service
      (request svc_mgr_check_service) incoming 8192 sent.mem answer (pos 0) 7 (λ h. h)
      (first_answer ∷ []) second_answer [] (reply received ∷ []) received (omega arith)
      (omega arith) (omega arith) (omega arith) sent-Hands found_hello (omega arith) handled refl
      ((noop ∷ complete ∷ [], first_answer-Delivers, refl), tt) second_answer-Delivers refl
      answer-Conveys (λ live. live)

binder_call-replied_example :
    binder_call kernel hello_client 256 512
      (λ t m. first_answer ∷ second_answer ∷ [])
      (reader_at 64 0)
      0
      1
      []
      zeros
    ≡ finished (pos 0) (bio_init_from_txn blank received) [] answer.mem
binder_call-replied_example =
    binder_call-replied kernel hello_client 256 512 kernel-AreCodes
      (λ t m. first_answer ∷ second_answer ∷ []) (reader_at 64 0) 0 1 [] zeros (first_answer ∷ [])
      second_answer [] (reply received ∷ []) received refl refl
      ((noop ∷ complete ∷ [], first_answer-Delivers, refl), tt) second_answer-Delivers refl
