-- ===== src/ServiceManager/Access.antt =====
-- The access checks of Demos/BinderCDemo/service_manager.c. `none` as the result of a check is
-- `abort()`. A security context is the pointer that libselinux hands out, 0 for NULL.
use android_source_learn.Prelude.{
  ℕ, ◌%◌, Bool, false, Option, none, some, List, length, leb, ◌==◌, ◌&&◌, if◌then◌else◌,
}
use android_source_learn.ServiceManager.Strings.{str8}

-- The permissions "add", "find" and "list" of the class "service_manager".
pub data Perm : Type 0 where
  add find list : Perm

-- `struct audit_data`
pub record AuditData : Type 0 where
  pub pid : ℕ
  pub uid : ℕ
  pub name : Option (List ℕ)

-- What the code takes from libselinux, libcutils and android_filesystem_config.h.
pub record System : Type 0 where
  -- `none` is a negative result.
  pub getpidcon : ℕ → Option ℕ
  -- `none` is a result other than 0.
  pub selabel_lookup : (handle : ℕ) → (name : List ℕ) → Option ℕ
  -- The result is 0.
  pub selinux_check_access : (sid tctx : ℕ) → Perm → AuditData → Bool
  pub service_manager_context : ℕ
  pub multiuser_get_app_id : ℕ → ℕ
  pub aid_app : ℕ
  pub aid_user : ℕ
  pub aid_isolated_start : ℕ
  pub aid_isolated_end : ℕ

module _ (sys : System) where
  unfoldable pub check_mac_perms : (spid sid uid tctx : ℕ) → Perm → Option (List ℕ) → Bool
  check_mac_perms spid sid uid tctx perm name =
      let ad : AuditData = record { pid = spid; uid = uid; name = name } in
      if sid == 0
      then elim (sys.getpidcon spid) [
        | none ↦ false
        | some lookup_sid ↦ sys.selinux_check_access lookup_sid tctx perm ad
      ]
      else sys.selinux_check_access sid tctx perm ad

  unfoldable pub check_mac_perms_from_getcon : (spid sid uid : ℕ) → Perm → Bool
  unfolding check_mac_perms
  check_mac_perms_from_getcon spid sid uid perm =
      check_mac_perms spid sid uid sys.service_manager_context perm none

  unfoldable pub check_mac_perms_from_lookup :
      Option ℕ → (spid sid uid : ℕ) → Perm → List ℕ → Option Bool
  unfolding check_mac_perms
  check_mac_perms_from_lookup none spid sid uid perm name = none
  check_mac_perms_from_lookup (some sehandle) spid sid uid perm name =
      elim (sys.selabel_lookup sehandle name) [
        | none ↦ some false
        | some tctx ↦ some (check_mac_perms spid sid uid tctx perm (some name))
      ]

  unfoldable pub svc_can_register : Option ℕ → List ℕ → (spid sid uid : ℕ) → Option Bool
  unfolding check_mac_perms_from_lookup
  svc_can_register sehandle name spid sid uid =
      if leb sys.aid_app (sys.multiuser_get_app_id uid)
      then some false
      else check_mac_perms_from_lookup sehandle spid sid uid add (str8 name (length name))

  unfoldable pub svc_can_list : (spid sid uid : ℕ) → Bool
  unfolding check_mac_perms_from_getcon
  svc_can_list spid sid uid = check_mac_perms_from_getcon spid sid uid list

  unfoldable pub svc_can_find : Option ℕ → List ℕ → (spid sid uid : ℕ) → Option Bool
  unfolding check_mac_perms_from_lookup
  svc_can_find sehandle name spid sid uid =
      check_mac_perms_from_lookup sehandle spid sid uid find (str8 name (length name))

  -- The uid of an isolated process: `appid >= AID_ISOLATED_START && appid <= AID_ISOLATED_END`.
  abbrev pub is_isolated : ℕ → Bool
  is_isolated uid =
      leb sys.aid_isolated_start (uid % sys.aid_user)
      && leb (uid % sys.aid_user) sys.aid_isolated_end
