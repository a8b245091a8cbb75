-- ===== src/Tests/Registering.antt =====
-- A registration of "hello", from the server's message to the registry. All processes look at one
-- memory, in which the driver replaces the pointer 4096 by the handle 7.
use android_source_learn.Binder.Call.{call_txn}
use android_source_learn.Prelude.{
  ℕ, ◌+◌, ◌-◌, ◌*◌, ◌^◌, ◌%◌, ◌<◌, ◌≡◌, refl, sym, ◌∙◌, ap, false, map, if◌then◌else◌, ◌==◌, arith,
  inl,
}
use android_source_learn.Memory.{Memory, store, load}
use android_source_learn.Memory.Frame.{store-Outside, load4-store, load-store_apart}
use android_source_learn.Memory.Units.{unit16}
use android_source_learn.Bio.{
  BinderIo, Parcel, c_string, bio_init, bio_alloc, bio_alloc_obj, bio_put_obj, bio_put_uint32,
  bio_put_string16_x, put_payload,
}
use android_source_learn.Bio.Message.{total_size}
use android_source_learn.ServiceManager.Registry.{do_add_service}
use android_source_learn.ServiceManager.Handler.{
  svc_mgr_add_service, finish_add, refresh_sehandle, svcmgr_handler,
}
use android_source_learn.ServiceManager.Histories.{start}
use android_source_learn.HelloServer.{publish_message, put_header}
use android_source_learn.HelloClient.Main.{hello_client}
use android_source_learn.Protocol.{request_items}
use android_source_learn.Protocol.Replies.{empty_reply}
use android_source_learn.Protocol.Registration.{HoldsRequest, publish_message-HoldsRequest}
use android_source_learn.Protocol.Registering.{Translates, svcmgr_handler-publish_message}
use android_source_learn.Tests.World.{
  zeros, kernel, kernel-IsObjectLayout, policy, hello, quiet, request,
}

-- The memory before, with BR_REPLY in the read buffer at 512, four bytes of data at 8224.
abbrev pub prepared : Memory
prepared =
    store 8 (store 8 (store 8 (store 8 (store 4 zeros 512 0x7203) 556 4) 564 0) 572 8224) 580 8192

abbrev pub sent : Parcel
sent = publish_message kernel hello_client 256 512 1024 hello 4096 prepared

sent-HoldsRequest : HoldsRequest kernel hello 4096 sent
unfolding c_string
sent-HoldsRequest =
    publish_message-HoldsRequest kernel kernel-IsObjectLayout hello_client 256 512 1024 hello 4096
      prepared (omega arith) (omega arith)

-- Where the object lies.
abbrev object : ℕ
object = sent.io.data0 + total_size (request_items hello)

abbrev pub translated : Memory
translated = store 4 (store 4 sent.mem object kernel.type_handle) (object + 8) 7

abbrev pub receiver : BinderIo
receiver = record sent.io {
  cursor = sent.io.data0;
  offs = sent.io.offs0;
  offs_avail = 1;
  data_avail = sent.io.cursor - sent.io.data0;
}

-- The handle that the manager has for the handler.
abbrev pub handle_of : ℕ → ℕ
handle_of ptr = if ptr == 4096 then 7 else 0

-- The offsets stand in front of the data.
before_data : sent.io.offs0 + 32 ≡ sent.io.data0
unfolding publish_message put_header bio_put_obj bio_put_string16_x put_payload bio_put_uint32
    bio_alloc_obj bio_alloc bio_init c_string
before_data = refl

at_object :
    (k : ℕ)
    → 8 * k < sent.io.offs - sent.io.offs0
    → load 8 sent.mem (sent.io.offs0 + 8 * k) ≡ total_size (request_items hello)
at_object k small =
    ap (load 8 sent.mem) (omega (arith, sent-HoldsRequest.entries)) ∙ sent-HoldsRequest.entry

pub sent-Translates :
    Translates kernel handle_of
      (call_txn sent.io 0 svc_mgr_add_service)
      sent.mem
      receiver
      translated
sent-Translates = record {
  size = refl;
  based = refl;
  entries_size = omega (arith, sent-HoldsRequest.entries);
  entries = λ i small.
      store-Outside 4 _ (object + 8) 7 (sent.io.offs0 + i)
        (inl (omega (arith, sent-HoldsRequest.entries, before_data)))
      ∙ store-Outside 4 sent.mem object kernel.type_handle (sent.io.offs0 + i)
          (inl (omega (arith, sent-HoldsRequest.entries, before_data)));
  copied = λ i small plain.
      let outside = plain 0 (omega (arith, sent-HoldsRequest.entries)) in
      let at = at_object 0 (omega (arith, sent-HoldsRequest.entries)) in
      store-Outside 4 _ (object + 8) 7 (sent.io.data0 + i) (omega (arith, outside, at))
      ∙ store-Outside 4 sent.mem object kernel.type_handle (sent.io.data0 + i)
          (omega (arith, outside, at));
  typed = λ k small points.
      ap (load 4 translated) (omega (arith, at_object k small))
      ∙ load-store_apart 4 4 _ (object + 8) 7 object (inl (omega arith))
      ∙ load4-store sent.mem object kernel.type_handle;
  translated = λ k small points.
      ap (load 4 translated) (omega (arith, at_object k small))
      ∙ load4-store _ (object + 8) 7
      ∙ sym (
          ap handle_of
            (ap (load 8 sent.mem) (omega (arith, at_object k small)) ∙ sent-HoldsRequest.pointed));
}

svcmgr_handler-publish_message_example :
    svcmgr_handler policy kernel quiet
      (start 5)
      (request svc_mgr_add_service)
      receiver
      (empty_reply 8192 translated)
    ≡ finish_add
        (do_add_service policy quiet.fresh
          (map unit16 (c_string hello))
          (handle_of (4096 % 2 ^ 64))
          1000
          false
          0
          40
          9
          (refresh_sehandle quiet (start 5)))
        (empty_reply 8192 translated)
unfolding c_string
svcmgr_handler-publish_message_example =
    svcmgr_handler-publish_message policy kernel kernel-IsObjectLayout hello_client 256 512 1024
      hello 4096 prepared handle_of quiet (start 5) (request svc_mgr_add_service) receiver
      (empty_reply 8192 translated) (omega arith) (omega arith) refl refl (omega arith)
      sent-Translates
