-- ===== src/Tenant/Authorization/Decisions.antt =====
-- The two ways in which the service answers an authorization question agree.
use gereh.Prelude.{
  contains, contains-keep_if, ◌≡◌, ◌≢◌, ◌↔◌, Bool, true, false, ◌&&◌, ◌||◌, not, arith, string_eq,
  nat_eq,
}
use gereh.Tenant.Model.{Status, active, Role, is_active, is_archived, Tenant, Membership}
use gereh.Tenant.Permissions.{Permission}
use gereh.Tenant.Authorization.{
  DenialReason, permission_not_granted, permissions_for_role, role_allows, is_mutation_permission,
  effective_permissions, evaluate_authorization,
}

-- A permission is effective exactly when the role has it and the tenant's state does not bar it.
pub contains-effective_permissions :
    (status : Status) (role : Role) (permission : Permission)
    → contains (effective_permissions status role) permission ≡ (
        role_allows role permission
        && (is_active status || not (is_mutation_permission permission)))
unfolding effective_permissions role_allows
contains-effective_permissions status role permission = ground (
  arith,
  contains-keep_if (λ p. not (is_mutation_permission p)) (permissions_for_role role) permission,
)

-- Whether the state of a tenant bars a permission.
abbrev pub is_barred : Status → Permission → Bool
is_barred status permission = is_mutation_permission permission && not (is_active status)

-- In an active tenant only the role counts.
lacking :
    (role : Role) (permission : Permission)
    → ((status : Status) → contains (effective_permissions status role) permission ≡ false)
    → role_allows role permission ≡ false
lacking role permission h =
    ground (arith, h active, contains-effective_permissions active role permission)

not_granted :
    (tenant : Tenant) (membership : Membership) (permission : Permission)
    → ((evaluate_authorization tenant membership permission).denial_reason ≡ permission_not_granted)
      ↔ (((status : Status)
            → contains (effective_permissions status membership.role) permission ≡ false)
          × (is_barred tenant.status permission ≡ false))
unfolding evaluate_authorization
not_granted tenant membership permission = (
  λ reason. (
    λ status.
        ground (arith, reason, contains-effective_permissions status membership.role permission),
    ground (arith, reason),
  ),
  λ (never, free). ground (arith, lacking membership.role permission never, free),
)

-- For any tenant, membership and permission, the denial reason of a decision is none exactly when
-- the permission is in the effective list of the tenant's status and the member's role, and exactly
-- when the decision allows; it is permission_not_granted exactly when the tenant's state does not
-- bar the permission and the role has it in no status of a tenant; where the permission changes the
-- tenant, and only there, it names the archived tenant exactly when the tenant is archived, and an
-- inactive one exactly when it is neither active nor archived; and it is never not_member.
pub evaluate_authorization-reason :
    (tenant : Tenant) (membership : Membership) (permission : Permission)
    → let d = evaluate_authorization tenant membership permission in
      ((d.allowed ≡ true) ↔ (d.denial_reason ≡ DenialReason.none))
      × ((d.denial_reason ≡ DenialReason.none)
          ↔ (contains (effective_permissions tenant.status membership.role) permission ≡ true))
      × ((d.denial_reason ≡ permission_not_granted) ↔ (
          ((status : Status)
            → contains (effective_permissions status membership.role) permission ≡ false)
          × (is_barred tenant.status permission ≡ false)))
      × ((d.denial_reason ≡ DenialReason.tenant_archived)
          ↔ ((is_mutation_permission permission && is_archived tenant.status) ≡ true))
      × ((d.denial_reason ≡ DenialReason.tenant_not_active) ↔ (
          (is_mutation_permission permission
            && (not (is_active tenant.status) && not (is_archived tenant.status)))
          ≡ true))
      × (d.denial_reason ≢ DenialReason.not_member)
unfolding evaluate_authorization
evaluate_authorization-reason tenant membership permission = (
  ground arith,
  ground (arith, contains-effective_permissions tenant.status membership.role permission),
  not_granted tenant membership permission,
  ground arith,
  ground arith,
  λ h. ground (arith, h),
)
