-- ===== src/Tests/Services.antt =====
-- The service manager at concrete requests and registrations.
use android_source_learn.Memory.Frame.{Outside}
use android_source_learn.ServiceManager.Access.{AuditData}
use android_source_learn.ServiceManager.Audit.{audit_callback}
use android_source_learn.ServiceManager.Audit.Texts.{IsAudited, audit_callback-IsAudited}
use android_source_learn.Prelude.{
  ℕ, ◌<◌, ◌≡◌, refl, ◌⊎◌, true, false, Option, none, some, List, [], ◌∷◌, map, take, length, ltb,
  if◌then◌else◌, arith,
}
use android_source_learn.Prelude.Int.{ℤ, pos, minus_one}
use android_source_learn.Memory.{Memory}
use android_source_learn.Bio.{c_string}
use android_source_learn.Binder.Commands.{
  request_death_notification, acquire, release, binder_release, binder_acquire,
  binder_link_to_death,
}
use android_source_learn.HelloClient.{lookup_message}
use android_source_learn.ServiceManager.Strings.{str8}
use android_source_learn.ServiceManager.Strings.Laws.{low_byte, str8-prefix}
use android_source_learn.ServiceManager.Access.{
  svc_can_register, svc_can_find, check_mac_perms, check_mac_perms_from_lookup, is_isolated,
}
use android_source_learn.ServiceManager.Registry.{
  Svcinfo, Manager, same_name, find_svc, deref, set_handle, svcinfo_death, override, enter,
  do_find_service, do_add_service,
}
use android_source_learn.ServiceManager.Registry.Nodes.{Distinct, with_handle}
use android_source_learn.ServiceManager.Registry.Lookup.{
  IsFresh, handle_of, handle_of-svcinfo_death, do_find_service-found,
}
use android_source_learn.ServiceManager.Registry.Add.{
  do_add_service-handle_of, do_add_service-refused, do_add_service-keeps_flags,
}
use android_source_learn.ServiceManager.Registry.References.{Balanced, do_add_service-Balanced}
use android_source_learn.ServiceManager.Handler.{svcmgr_handler, svc_mgr_list_services}
use android_source_learn.ServiceManager.Handler.Effects.{Leaves, svcmgr_handler-Leaves}
use android_source_learn.ServiceManager.Handler.Progress.{Serves, svcmgr_handler-Serves}
use android_source_learn.Tests.World.{
  zeros, kernel, policy, hello, hello_node, one_service, quiet, request, reader_at, parcel_at,
}

-- What a registration of `s` under the handle `h` by the user 1000 does.
abbrev added : List ℕ → ℕ → Manager → Option (Manager × ℤ)
added s h m = do_add_service policy (some 8192) s h 1000 false 2 40 9 m

abbrev other_name : List ℕ
other_name = b'b' ∷ []

-- The manager after "hello" was registered again, under the handle 9.
abbrev overridden : Manager
overridden = record {
  svclist = with_handle 9 hello_node ∷ [];
  sehandle = some 5;
  written = request_death_notification 9 4096 ∷ acquire 9 ∷ release 7 ∷ [];
}

added_again : added hello 9 one_service ≡ some (overridden, pos 0)
unfolding do_add_service enter svcinfo_death override find_svc same_name deref set_handle
    svc_can_register check_mac_perms_from_lookup check_mac_perms binder_release binder_acquire
    binder_link_to_death
added_again = refl

found_hello : find_svc hello one_service.svclist ≡ some hello_node
unfolding find_svc same_name
found_hello = refl

Distinct-one : Distinct one_service.svclist
Distinct-one = (tt, tt)

IsFresh-one : IsFresh (some 8192) one_service.svclist
IsFresh-one = ((omega arith), tt)

do_add_service-handle_of_example :
    Distinct overridden.svclist
    × ((t : List ℕ)
        → handle_of t overridden ≡ (if same_name hello t then 9 else handle_of t one_service))
do_add_service-handle_of_example =
    do_add_service-handle_of policy (some 8192) hello 9 1000 false 2 40 9 one_service overridden
      Distinct-one IsFresh-one added_again

do_add_service-keeps_flags_example :
    find_svc hello overridden.svclist ≡ some (with_handle 9 hello_node)
do_add_service-keeps_flags_example =
    do_add_service-keeps_flags policy (some 8192) hello 9 1000 false 2 40 9 one_service overridden
      hello_node Distinct-one found_hello added_again

-- The manager with the reference on the handle 7 that its service holds.
abbrev holding : Manager
holding = record one_service { written = acquire 7 ∷ [] }

abbrev holding_again : Manager
holding_again = record overridden {
  written = request_death_notification 9 4096 ∷ acquire 9 ∷ release 7 ∷ acquire 7 ∷ [];
}

held_again : added hello 9 holding ≡ some (holding_again, pos 0)
unfolding do_add_service enter svcinfo_death override find_svc same_name deref set_handle
    svc_can_register check_mac_perms_from_lookup check_mac_perms binder_release binder_acquire
    binder_link_to_death
held_again = refl

do_add_service-Balanced_example : Balanced 7 holding_again
do_add_service-Balanced_example =
    do_add_service-Balanced policy (some 8192) hello 9 1000 false 2 40 9 holding holding_again 7
      Distinct-one held_again (omega arith) refl

abbrev no_handle : ℕ
no_handle = 0

refused_zero : added hello no_handle one_service ≡ some (one_service, minus_one)
unfolding do_add_service
refused_zero = refl

do_add_service-refused_example :
    (one_service ≡ one_service)
    × ((no_handle ≡ 0)
        ⊎ (length hello ≡ 0)
        ⊎ (127 < length hello)
        ⊎ (svc_can_register policy (some 5) hello 40 9 1000 ≡ some false)
        ⊎ ((find_svc hello one_service.svclist ≡ none) × (quiet.fresh ≡ none)))
do_add_service-refused_example =
    do_add_service-refused policy (some 8192) hello no_handle 1000 false 2 40 9 one_service
      one_service refused_zero

handle_of-svcinfo_death_example :
    handle_of other_name (svcinfo_death 4096 one_service)
    ≡ (if same_name hello other_name then 0 else handle_of other_name one_service)
handle_of-svcinfo_death_example =
    handle_of-svcinfo_death hello other_name one_service hello_node Distinct-one found_hello

found_for_1000 : do_find_service policy hello 1000 40 9 one_service ≡ some 7
unfolding do_find_service find_svc same_name svc_can_find check_mac_perms_from_lookup
    check_mac_perms
found_for_1000 = refl

do_find_service-found_example :
    (handle_of hello one_service ≡ 7)
    × (svc_can_find policy (some 5) hello 40 9 1000 ≡ some true)
    × ((is_isolated policy 1000 ≡ false)
        ⊎ ((si : Svcinfo) × (find_svc hello one_service.svclist ≡ some si)
            × (si.allow_isolated ≡ true)))
do_find_service-found_example =
    do_find_service-found policy hello 1000 40 9 one_service 7 found_for_1000 (omega arith)

str8-prefix_example :
    (str8 hello 5 ≡ map low_byte (take (if ltb 5 127 then 5 else 127) (c_string hello)))
    × (length (str8 hello 5) < 128)
str8-prefix_example = str8-prefix hello 5

abbrev asked : Memory
asked = (lookup_message 1024 hello zeros).mem

svcmgr_handler-Serves_example : Serves (
    svcmgr_handler policy kernel quiet one_service
      (request svc_mgr_list_services)
      (reader_at 1056 100)
      (parcel_at 8192 256 asked))
svcmgr_handler-Serves_example =
    svcmgr_handler-Serves policy kernel quiet one_service (request svc_mgr_list_services)
      (reader_at 1056 100) (parcel_at 8192 256 asked) (λ e. cc)

svcmgr_handler-Leaves_example : Leaves one_service (
    svcmgr_handler policy kernel quiet one_service
      (request svc_mgr_list_services)
      (reader_at 1056 100)
      (parcel_at 8192 256 asked))
svcmgr_handler-Leaves_example =
    svcmgr_handler-Leaves policy kernel quiet one_service (request svc_mgr_list_services)
      (reader_at 1056 100) (parcel_at 8192 256 asked) (omega arith)

-- A buffer for the first 15 bytes of the text and the terminator.
audit_callback-IsAudited_example :
    let named : Option AuditData = some (record { pid = 40; uid = 1000; name = some hello }) in
    let (z, m') = audit_callback named 4096 16 zeros in
    (z ≡ pos 0) × ((q : ℕ) → Outside 4096 16 q → m' q ≡ 0) × IsAudited named 4096 16 zeros m'
audit_callback-IsAudited_example =
    audit_callback-IsAudited (some (record { pid = 40; uid = 1000; name = some hello })) 4096 16
      zeros (omega arith)
