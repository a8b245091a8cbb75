-- ===== src/Tests/Listing.antt =====
-- A request for the first service of a manager with one.
use mathlib.Core.Path.{subst}
use mathlib.Core.Option.{some-injective}
use android_source_learn.Prelude.{◌-◌, ◌≤◌, length, ◌≡◌, refl, true, some, arith}
use android_source_learn.Prelude.Int.{pos}
use android_source_learn.Bio.{
  BinderIo, Parcel, bio_init, bio_alloc, bio_put_uint32, bio_put_string16, put_payload, c_string,
}
use android_source_learn.Bio.Message.{Holds, put_items}
use android_source_learn.Bio.Message.Writing.{put_items-Grows}
use android_source_learn.ServiceManager.Access.{
  svc_can_list, check_mac_perms_from_getcon, check_mac_perms,
}
use android_source_learn.ServiceManager.Registry.{Svcinfo}
use android_source_learn.ServiceManager.Handler.{
  svc_mgr_list_services, svcmgr_handler, refresh_sehandle,
}
use android_source_learn.Protocol.Replies.{empty_reply}
use android_source_learn.Protocol.ListReply.{read_name, Received}
use android_source_learn.Protocol.Listing.{
  list_items, ListAnswer, svcmgr_handler-listed, svcmgr_handler-list_services,
}
use android_source_learn.Bio.Safety.{bio_init-InBuffer}
use android_source_learn.Binder.Parse.{blank}
use android_source_learn.ServiceManager.Handler.Staying.{StaysIn, svcmgr_handler-StaysIn}
use android_source_learn.Tests.World.{
  kernel-IsObjectLayout, zeros, kernel, policy, one_service, hello_node, quiet, request, reader_at,
  parcel_at,
}

-- The message with the index 0 and the priority 1.
abbrev asked : Parcel
asked = put_items (list_items 0 1) (parcel_at 1056 480 zeros)

asked_items : Holds asked.mem 1056 (list_items 0 1)
unfolding c_string
asked_items =
    (put_items-Grows (list_items 0 1) (parcel_at 1056 480 zeros) (omega arith, tt) (omega arith)).1

abbrev answer : Parcel
answer = bio_put_string16 (some hello_node.name) (empty_reply 8192 asked.mem)

abbrev receiver : BinderIo
receiver = reader_at 8224 (answer.io.cursor - answer.io.data0)

may_list : svc_can_list policy 40 9 1000 ≡ true
unfolding svc_can_list check_mac_perms_from_getcon check_mac_perms
may_list = refl

answered :
    svcmgr_handler policy kernel quiet one_service
      (request svc_mgr_list_services)
      (reader_at 1056 100)
      (empty_reply 8192 asked.mem)
    ≡ some (refresh_sehandle quiet one_service, answer, pos 0)
unfolding c_string
answered =
    svcmgr_handler-listed policy kernel quiet one_service (request svc_mgr_list_services)
      (reader_at 1056 100) (empty_reply 8192 asked.mem) 0 1 refl refl (omega arith) may_list
      asked_items (omega arith)

answer-Received : Received answer receiver answer.mem
unfolding bio_init bio_put_string16 put_payload bio_put_uint32 bio_alloc c_string
answer-Received = record { size = refl; copied = λ i small. refl }

svcmgr_handler-list_services_example :
    ListAnswer (some hello_node) (pos 0) (read_name answer.mem receiver)
unfolding c_string
svcmgr_handler-list_services_example =
    svcmgr_handler-list_services policy kernel quiet one_service
      (refresh_sehandle quiet one_service) (request svc_mgr_list_services) (reader_at 1056 100) 8192
      asked.mem answer.mem receiver 0 1 answer (pos 0) refl refl (omega arith) may_list asked_items
      (omega arith)
      (λ si e.
        subst (λ (s : Svcinfo). length (c_string s.name) ≤ 127) (some-injective _ _ e)
          (omega arith))
      answered answer-Received

svcmgr_handler-StaysIn_example : StaysIn 8192 8448 (empty_reply 8192 asked.mem) (
    svcmgr_handler policy kernel quiet one_service
      (request svc_mgr_list_services)
      (reader_at 1056 100)
      (empty_reply 8192 asked.mem))
svcmgr_handler-StaysIn_example =
    svcmgr_handler-StaysIn policy kernel kernel-IsObjectLayout quiet one_service
      (request svc_mgr_list_services) (reader_at 1056 100) (empty_reply 8192 asked.mem)
      (bio_init-InBuffer blank 8192 256 4 (omega arith) (omega arith))
