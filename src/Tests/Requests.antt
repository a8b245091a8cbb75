-- ===== src/Tests/Requests.antt =====
-- Whole requests to the service manager, from the message to the answer.
use android_source_learn.ServiceManager.Specification.{handles}
use android_source_learn.ServiceManager.Promises.Stories.{story, handles-story}
use android_source_learn.Prelude.{◌-◌, ◌≡◌, refl, false, some, [], ◌∷◌}
use android_source_learn.Prelude.Int.{pos}
use android_source_learn.Memory.{load, store, set_byte, load_units, store_units}
use android_source_learn.Bio.{
  BinderIo, Parcel, c_string, bio_init, bio_alloc, bio_alloc_obj, alloc_ref, fill_object,
  put_payload, bio_put_uint32, bio_put_ref, bio_put_string16, bio_put_string16_x, bio_get,
  bio_get_uint32, bio_get_string16, has_offset, bio_get_obj, bio_get_ref,
}
use android_source_learn.Binder.Commands.{
  request_death_notification, acquire, binder_acquire, binder_link_to_death,
}
use android_source_learn.ServiceManager.Access.{
  svc_can_register, check_mac_perms, check_mac_perms_from_lookup,
}
use android_source_learn.ServiceManager.Registry.{
  Manager, same_name, find_svc, svcinfo_death, enter, do_add_service, new_svcinfo,
}
use android_source_learn.ServiceManager.Handler.{
  svcmgr_handler, enforce_interface, dispatch, handle_add, finish_add, refresh_sehandle,
  svc_mgr_add_service,
}
use android_source_learn.ServiceManager.Histories.{
  start, IsSound, Reach, transact, death, here, next, Reach-IsSound,
}
use android_source_learn.HelloServer.{put_header}
use android_source_learn.Protocol.{fresh_parcel}
use android_source_learn.Tests.World.{zeros, kernel, policy, hello, quiet, request, parcel_at}

-- A registration of "hello" under the handle 7, as the driver hands it over.
abbrev publication : Parcel
publication =
    bio_put_uint32 1
      (bio_put_uint32 0 (bio_put_ref kernel 7 (put_header hello (fresh_parcel 1024 zeros))))

abbrev publisher : BinderIo
publisher = record publication.io {
  cursor = 1056;
  offs = 1024;
  offs_avail = 1;
  data_avail = publication.io.cursor - 1056;
}

abbrev registered_one : Manager
registered_one = record {
  svclist = new_svcinfo 8192 hello 7 false 1 ∷ [];
  sehandle = some 5;
  written = request_death_notification 7 8192 ∷ acquire 7 ∷ [];
}

abbrev to_publisher : Parcel
to_publisher = parcel_at 8192 256 publication.mem

published :
    svcmgr_handler policy kernel quiet
      (start 5)
      (request svc_mgr_add_service)
      publisher
      to_publisher
    ≡ some (registered_one, bio_put_uint32 0 to_publisher, pos 0)
unfolding svcmgr_handler enforce_interface dispatch handle_add finish_add refresh_sehandle
    do_add_service enter find_svc same_name svc_can_register check_mac_perms_from_lookup
    check_mac_perms binder_acquire binder_link_to_death bio_put_uint32 bio_put_ref
    bio_put_string16_x put_header bio_put_string16 put_payload bio_init bio_alloc bio_alloc_obj
    alloc_ref fill_object c_string bio_get bio_get_uint32 bio_get_string16 has_offset bio_get_obj
    bio_get_ref load store set_byte load_units store_units
published = refl

-- The registration, and then the death of the service.
abbrev one_life : Reach policy kernel (start 5) (svcinfo_death 8192 registered_one)
one_life =
    next
      (next here (
        transact quiet (request svc_mgr_add_service) publisher to_publisher
          (bio_put_uint32 0 to_publisher) (pos 0) tt published))
      (death 8192 refl)

Reach-IsSound_example : IsSound (svcinfo_death 8192 registered_one)
Reach-IsSound_example = Reach-IsSound policy kernel 5 one_life

handles-story_example :
    handles (svcinfo_death 8192 registered_one) hello ≡ story policy kernel one_life hello
handles-story_example = handles-story policy kernel 5 one_life hello
