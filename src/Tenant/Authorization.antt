-- ===== src/Tenant/Authorization.antt =====
-- services/tenant/internal/domain/authorization.go and policy.go: what a role grants, what the
-- state of the tenant takes away, and who may manage whom.
pub mod Decisions
pub mod Roles
use gereh.Prelude.{
  if◌then◌else◌, keep_if, contains, ℕ, String, Bool, true, false, ◌&&◌, not, List, [], string_eq,
  nat_eq,
}
use gereh.Tenant.Model.{
  Status, Role, owner, admin, member, viewer, is_active, is_archived, is_owner, Tenant, Membership,
}
use gereh.Tenant.Permissions.{
  Permission, permission_tenant_read, permission_tenant_update, permission_tenant_archive,
  known_permissions, owner_permissions, admin_permissions, member_permissions, viewer_permissions,
  mutation_permissions,
}

pub data DenialReason : Type 0 where
  none not_member tenant_archived tenant_not_active permission_not_granted : DenialReason

pub record AuthorizationDecision : Type 0 where
  pub allowed : Bool
  pub tenant_id : String
  pub actor_user_id : String
  pub permission : Permission
  pub role : Role
  pub tenant_version : ℕ
  pub membership_version : ℕ
  pub denial_reason : DenialReason

unfoldable pub is_known_permission : Permission → Bool
unfolding known_permissions
is_known_permission permission = contains known_permissions permission

unfoldable pub permissions_for_role : Role → List Permission
permissions_for_role owner = owner_permissions
permissions_for_role admin = admin_permissions
permissions_for_role member = member_permissions
permissions_for_role viewer = viewer_permissions
permissions_for_role _ = []

unfoldable pub role_allows : Role → Permission → Bool
role_allows role permission = contains (permissions_for_role role) permission

unfoldable pub is_mutation_permission : Permission → Bool
is_mutation_permission permission = contains mutation_permissions permission

unfoldable pub effective_permissions : Status → Role → List Permission
effective_permissions status role =
    let role_permissions = permissions_for_role role in
    if is_active status
    then role_permissions
    else keep_if (λ permission. not (is_mutation_permission permission)) role_permissions

unfoldable pub evaluate_authorization : Tenant → Membership → Permission → AuthorizationDecision
evaluate_authorization tenant membership permission =
    let decision : AuthorizationDecision = record {
      allowed = false;
      tenant_id = tenant.id;
      actor_user_id = membership.user_id;
      permission = permission;
      role = membership.role;
      tenant_version = tenant.version;
      membership_version = membership.version;
      denial_reason = permission_not_granted;
    } in
    if is_mutation_permission permission && not (is_active tenant.status)
    then (if is_archived tenant.status
        then record decision { denial_reason = tenant_archived }
        else record decision { denial_reason = tenant_not_active })
    else if not (role_allows membership.role permission)
    then decision
    else record decision { allowed = true; denial_reason = none }

unfoldable pub is_known_role : Role → Bool
is_known_role owner = true
is_known_role admin = true
is_known_role member = true
is_known_role viewer = true
is_known_role _ = false

unfoldable pub can_read_tenant : Role → Bool
can_read_tenant role = role_allows role permission_tenant_read

unfoldable pub can_update_tenant : Role → Bool
can_update_tenant role = role_allows role permission_tenant_update

unfoldable pub can_archive_tenant : Role → Bool
can_archive_tenant role = role_allows role permission_tenant_archive

-- The arguments are the actor's role, the target's and the new role.
unfoldable pub can_manage_member : Role → Role → Role → Bool
unfolding is_known_role
can_manage_member owner target new_role = is_known_role new_role
can_manage_member admin target new_role =
    not (is_owner target) && not (is_owner new_role) && is_known_role new_role
can_manage_member _ target new_role = false
