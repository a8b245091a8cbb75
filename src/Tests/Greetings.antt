-- ===== src/Tests/Greetings.antt =====
-- Two calls of HELLO_SVR_CMD_SAYHELLO, delivered to the server after its registration.
use android_source_learn.Prelude.{◌≡◌, refl, ap, false, true, [], ◌∷◌, inl, arith}
use android_source_learn.Prelude.Int.{pos}
use android_source_learn.Memory.{Memory, store, load, set_byte}
use android_source_learn.Abi.{TransactionData}
use android_source_learn.Bio.{
  Parcel, bio_init, bio_init_from_txn, bio_alloc, bio_alloc_obj, bio_put_obj, bio_put_uint32,
  bio_put_string16_x, put_payload, bio_get_uint32, bio_get, c_string,
}
use android_source_learn.Binder.Commands.{free_buffer, binder_write, binder_done}
use android_source_learn.Binder.Parse.Stream.{noop, reply}
use android_source_learn.Binder.Parse.Incoming.{sent, transaction}
use android_source_learn.Binder.Open.{binder_open}
use android_source_learn.Binder.Call.{Response, ended}
use android_source_learn.Binder.Call.Replies.{Delivers, binder_call-replied}
use android_source_learn.Binder.Call.Deliveries.{Delivery, responses, IsDelivered, AreDelivered}
use android_source_learn.HelloServer.{publish_message, publish_status, put_header, svcmgr_publish}
use android_source_learn.HelloServer.Main.{
  Session, hello_server, first_session, hello_name, server_main,
}
use android_source_learn.HelloServer.Main.Delivered.{IsGreeting, server_main-IsGreeting}
use android_source_learn.Tests.World.{zeros, kernel, read_words}
use android_source_learn.Tests.Exchanges.{kernel-AreCodes}
use android_source_learn.Tests.Manager.{smooth_start, nothing}
use android_source_learn.Tests.Deliveries.{kernel-AreAllCodes, kernel-ReadsStructs}

-- The manager's status 0, in the buffer at 8224.
abbrev accepted : Response
accepted = record {
  failed = false;
  mem = store 8 (store 8 (store 4 zeros 512 0x7203) 556 4) 572 8224;
  read_consumed = 76;
}

abbrev arrived : TransactionData
arrived = read_words accepted.mem 516

accepted-Delivers : Delivers kernel 512 accepted (reply arrived ∷ [])
unfolding load store set_byte
accepted-Delivers = record {
  succeeds = refl;
  holds = ((refl, refl), tt);
  consumed = refl;
  in_memory = omega arith;
}

abbrev message : Parcel
message = publish_message kernel (hello_server 4096) 256 512 1024 hello_name 4096 zeros

message_clean : message.io.flags.overflow ≡ false
unfolding publish_message put_header bio_put_obj bio_alloc_obj bio_init bio_put_string16_x
    put_payload bio_put_uint32 bio_alloc c_string
message_clean = refl

abbrev registered : Session
registered = record {
  hello = record { hellos = 0; hellos_to = 0; written = free_buffer 8224 ∷ [] };
  handled = [];
}

registers :
    svcmgr_publish kernel
      (hello_server 4096)
      256
      512
      1024
      (λ t m. accepted ∷ [])
      0
      hello_name
      4096
      first_session
      zeros
    ≡ ended (pos 0) registered accepted.mem
unfolding svcmgr_publish bio_init_from_txn bio_get_uint32 bio_get binder_done binder_write load
    store set_byte
registers = ap (publish_status kernel (hello_server 4096) 256 512 1024) (
    binder_call-replied kernel (hello_server 4096) 256 512 kernel-AreCodes (λ t m. accepted ∷ [])
      message.io 0 3 first_session message.mem [] accepted [] (reply arrived ∷ []) arrived
      message_clean refl tt accepted-Delivers refl)

-- BR_NOOP and BR_TRANSACTION with the target 4096, the code 1 and the buffer 9000.
abbrev greeting : Memory
greeting =
    store 8 (store 8 (store 8 (store 4 (store 4 zeros 512 0x720c) 516 0x7204) 520 4096) 528 1) 576
      9000

abbrev call : Delivery
call = record {
  response = record { failed = false; mem = greeting; read_consumed = 80 };
  commands = sent noop ∷ transaction (read_words greeting 520) ∷ [];
}

calls-AreDelivered : AreDelivered kernel 256 512 (call ∷ call ∷ [])
unfolding load store set_byte
calls-AreDelivered =
    let one : IsDelivered kernel 256 512 call = record {
      succeeds = refl;
      holds = (refl, ((refl, refl), tt));
      consumed = refl;
      in_memory = omega arith;
      apart = inl (omega arith);
    } in
    (one, (one, tt))

server_main-IsGreeting_example :
    IsGreeting kernel 4096
      (call ∷ call ∷ [])
      true
      (read_words greeting 520 ∷ read_words greeting 520 ∷ [])
      (server_main kernel smooth_start.open_answers
        (λ t m. accepted ∷ [])
        4096
        256
        512
        1024
        (responses (call ∷ call ∷ []))
        zeros
        nothing)
unfolding binder_open
server_main-IsGreeting_example =
    server_main-IsGreeting kernel 4096 256 512 (call ∷ call ∷ []) kernel-AreAllCodes
      kernel-ReadsStructs calls-AreDelivered smooth_start.open_answers (λ t m. accepted ∷ []) 1024
      registered zeros accepted.mem nothing (λ e. cc) registers
