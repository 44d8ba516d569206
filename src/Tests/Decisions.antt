-- ===== src/Tests/Decisions.antt =====
-- Roles and authorization decisions at concrete members.
use gereh.Prelude.{
  ◌==◌, contains, ◌≡◌, refl, ◌≢◌, ◌↔◌, true, false, ◌&&◌, ◌||◌, not, none, arith, string_eq, nat_eq,
}
use gereh.Tenant.Model.{
  Status, active, owner, admin, member, viewer, is_active, is_archived, is_owner, Tenant,
  Membership,
}
use gereh.Tenant.Permissions.{
  permission_tenant_read, permission_tenant_archive, permission_member_add,
  permission_member_update_role, permission_member_remove, admin_permissions, viewer_permissions,
  mutation_permissions,
}
use gereh.Tenant.Authorization.{
  DenialReason, permissions_for_role, role_allows, is_mutation_permission, effective_permissions,
  evaluate_authorization, is_known_role, can_manage_member,
}
use gereh.Tenant.Authorization.Decisions.{is_barred, evaluate_authorization-reason}
use gereh.Tenant.Authorization.Roles.{
  role_allows_mono, role_allows-admin, viewer_reads_only, can_manage_member_sound,
}

abbrev tenant_in : Status → Tenant
tenant_in status = record {
  id = "t1";
  slug = "acme";
  display_name = "Acme";
  status = status;
  region = "eu";
  retention_days = 30;
  version = 4;
  created_by_user_id = "u1";
  created_at = 1;
  updated_at = 1;
  archived_at = none;
}

abbrev an_admin : Membership
an_admin = record {
  tenant_id = "t1";
  user_id = "u2";
  role = admin;
  version = 2;
  created_by = "u1";
  created_at = 1;
  updated_at = 1;
}

evaluate_authorization-reason_example :
    let d = evaluate_authorization (tenant_in active) an_admin permission_tenant_archive in
    ((d.allowed ≡ true) ↔ (d.denial_reason ≡ DenialReason.none))
    × ((d.denial_reason ≡ DenialReason.none)
        ↔ (contains (effective_permissions active admin) permission_tenant_archive ≡ true))
    × ((d.denial_reason ≡ DenialReason.permission_not_granted) ↔ (
        ((status : Status)
          → contains (effective_permissions status admin) permission_tenant_archive ≡ false)
        × (is_barred active permission_tenant_archive ≡ false)))
    × ((d.denial_reason ≡ DenialReason.tenant_archived)
        ↔ ((is_mutation_permission permission_tenant_archive && is_archived active) ≡ true))
    × ((d.denial_reason ≡ DenialReason.tenant_not_active) ↔ (
        (is_mutation_permission permission_tenant_archive
          && (not (is_active active) && not (is_archived active)))
        ≡ true))
    × (d.denial_reason ≢ DenialReason.not_member)
evaluate_authorization-reason_example =
    evaluate_authorization-reason (tenant_in active) an_admin permission_tenant_archive

-- An admin cannot archive the tenant, for want of the permission.
archive_not_granted :
    (evaluate_authorization (tenant_in active) an_admin permission_tenant_archive).denial_reason
    ≡ DenialReason.permission_not_granted
unfolding evaluate_authorization role_allows permissions_for_role admin_permissions
    is_mutation_permission mutation_permissions
archive_not_granted = refl

viewer-reads_tenant : role_allows viewer permission_tenant_read ≡ true
unfolding role_allows permissions_for_role viewer_permissions
viewer-reads_tenant = refl

role_allows_mono_example : role_allows admin permission_tenant_read ≡ true
role_allows_mono_example =
    role_allows_mono viewer admin permission_tenant_read (omega arith) viewer-reads_tenant

role_allows-admin_example : role_allows admin permission_member_add ≡ (
    role_allows owner permission_member_add
    && not (permission_member_add == permission_tenant_archive))
role_allows-admin_example = role_allows-admin permission_member_add

viewer_reads_only_example : is_mutation_permission permission_tenant_read ≡ false
viewer_reads_only_example = viewer_reads_only permission_tenant_read viewer-reads_tenant

admin-manages : can_manage_member admin viewer member ≡ true
unfolding can_manage_member is_known_role
admin-manages = refl

can_manage_member_sound_example :
    (is_known_role member ≡ true)
    × ((is_owner viewer || is_owner member) ≡ true → admin ≡ owner)
    × (role_allows admin permission_member_add ≡ true)
    × (role_allows admin permission_member_update_role ≡ true)
    × (role_allows admin permission_member_remove ≡ true)
can_manage_member_sound_example = can_manage_member_sound admin viewer member admin-manages
