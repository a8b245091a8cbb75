-- ===== src/Tests/Finding.antt =====
-- The registration of Tests/Registering, and then the look-up of Tests/Exchanges.
use android_source_learn.Prelude.{◌%◌, ◌^◌, ◌≡◌, refl, ◌∙◌, ◌∷◌, [], false, some, arith}
use android_source_learn.Prelude.Int.{pos}
use android_source_learn.Bio.{Parcel, bio_put_uint32, c_string}
use android_source_learn.Binder.Commands.{
  request_death_notification, acquire, binder_acquire, binder_link_to_death,
}
use android_source_learn.ServiceManager.Access.{
  svc_can_register, svc_can_find, check_mac_perms, check_mac_perms_from_lookup,
}
use android_source_learn.ServiceManager.Registry.{
  Manager, same_name, find_svc, enter, do_add_service, new_svcinfo,
}
use android_source_learn.ServiceManager.Handler.{
  svc_mgr_add_service, svc_mgr_check_service, finish_add, refresh_sehandle, svcmgr_handler,
}
use android_source_learn.ServiceManager.Handler.Requests.{find_reply}
use android_source_learn.ServiceManager.Histories.{start}
use android_source_learn.HelloClient.Main.{hello_client}
use android_source_learn.Protocol.Replies.{empty_reply}
use android_source_learn.Protocol.Registering.{svcmgr_handler-publish_message}
use android_source_learn.Protocol.Finding.{lookup_message-publish_message}
use android_source_learn.Tests.World.{kernel, kernel-IsObjectLayout, policy, hello, quiet, request}
use android_source_learn.Tests.Registering.{
  prepared, translated, receiver, handle_of, sent-Translates,
}
use android_source_learn.Tests.Exchanges.{sent, incoming, ready, sent-Hands}

abbrev pub registry : Manager
registry = record {
  svclist = new_svcinfo 8192 hello 7 false 0 ∷ [];
  sehandle = some 5;
  written = request_death_notification 7 8192 ∷ acquire 7 ∷ [];
}

abbrev pub registered : Parcel
registered = bio_put_uint32 0 (empty_reply 8192 translated)

registers :
    svcmgr_handler policy kernel quiet
      (start 5)
      (request svc_mgr_add_service)
      receiver
      (empty_reply 8192 translated)
    ≡ some (registry, registered, pos 0)
unfolding c_string finish_add do_add_service enter find_svc same_name svc_can_register
    check_mac_perms_from_lookup check_mac_perms refresh_sehandle binder_acquire binder_link_to_death
registers =
    svcmgr_handler-publish_message policy kernel kernel-IsObjectLayout hello_client 256 512 1024
      hello 4096 prepared handle_of quiet (start 5) (request svc_mgr_add_service) receiver
      (empty_reply 8192 translated) (omega arith) (omega arith) refl refl (omega arith)
      sent-Translates
    ∙ refl

lookup_message-publish_message_example :
    svcmgr_handler policy kernel quiet registry
      (request svc_mgr_check_service)
      incoming
      (empty_reply 8192 sent.mem)
    ≡ some (
      refresh_sehandle quiet registry,
      find_reply policy kernel (handle_of (4096 % 2 ^ 64)) (empty_reply 8192 sent.mem),
      pos 0,
    )
unfolding c_string svc_can_find check_mac_perms_from_lookup check_mac_perms refresh_sehandle
lookup_message-publish_message_example =
    lookup_message-publish_message policy kernel kernel-IsObjectLayout hello_client 256 512 1024
      1024 hello 4096 prepared ready handle_of quiet quiet (start 5) registry
      (request svc_mgr_add_service) (request svc_mgr_check_service) receiver incoming
      (empty_reply 8192 translated) registered (empty_reply 8192 sent.mem) (omega arith)
      (omega arith) (omega arith) (omega arith) tt tt refl refl sent-Translates registers sent-Hands
      refl refl
