-- ===== src/Tenant/Tenants/Inversion.antt =====
-- What a tenant operation that succeeded has checked, and the store that it leaves.
use gereh.Prelude.{
  Option-cases, find_row, update_where, ok, continue-inv, ◌==◌, ℕ, String, ◌≡◌, ◌⊎◌, inl, inr, Bool,
  true, ◌&&◌, Option, none, some, [], ◌∷◌, ◌++◌, arith, string_eq, nat_eq,
}
use gereh.Tenant.Model.{provisioning, is_active, TenantContext, Operation, CreateTenantResult}
use gereh.Tenant.Authorization.{can_update_tenant, can_archive_tenant}
use gereh.Tenant.Store.{TenantRow, Store, is_tenant, is_member, find_context}
use gereh.Tenant.Tenants.{
  CreateTenantParams, UpdateTenantParams, ArchiveTenantParams, clashes_with, clashes_with_operation,
  find_requested, created_result, insert_all, create_requested, create_tenant, with_settings,
  with_archived, update_tenant, archive_tenant,
}

-- The WHERE clause of an optimistic change of a tenant.
abbrev pub at_version : String → ℕ → TenantRow → Bool
at_version tenant_id expected r = is_tenant tenant_id r && r.tenant.version == expected

pub record UpdatedTenant (params : UpdateTenantParams) (s s' : Store) (actor : TenantContext)
    : Type 0 where
  pub found : find_context params.tenant.id params.actor_user_id s ≡ some actor
  pub active_tenant : is_active actor.tenant.status ≡ true
  pub allowed : can_update_tenant actor.membership.role ≡ true
  pub version_matched : actor.tenant.version ≡ params.expected_version
  pub tenants_after :
      s'.tenants
      ≡ update_where
          (at_version params.tenant.id params.expected_version)
          (λ r. record r { tenant = with_settings params.tenant r.tenant })
          s.tenants
  pub outbox_after : s'.outbox ≡ s.outbox ++ (params.tenant.id, params.event) ∷ []
  pub memberships_after : s'.memberships ≡ s.memberships
  pub entitlements_after : s'.entitlements ≡ s.entitlements
  pub operations_after : s'.operations ≡ s.operations

pub update_tenant-inv :
    (params : UpdateTenantParams) (s s' : Store) (c : TenantContext)
    → update_tenant params s ≡ (ok c, s')
    → (actor : TenantContext) × UpdatedTenant params s s' actor
unfolding update_tenant
update_tenant-inv params s s' c h =
    elim (Option-cases (find_context params.tenant.id params.actor_user_id s)) [
      | inl e ↦ absurd (ground (arith, e))
      | inr (actor, e) ↦ (actor, ground (arith, e))
    ]

pub record ArchivedTenant (params : ArchiveTenantParams) (s s' : Store) (actor : TenantContext)
    : Type 0 where
  pub found : find_context params.tenant.id params.actor_user_id s ≡ some actor
  pub allowed : can_archive_tenant actor.membership.role ≡ true
  pub version_matched : actor.tenant.version ≡ params.expected_version
  pub tenants_after :
      s'.tenants
      ≡ update_where
          (at_version params.tenant.id params.expected_version)
          (λ r. record r { tenant = with_archived params.tenant r.tenant })
          s.tenants
  pub outbox_after : s'.outbox ≡ s.outbox ++ (params.tenant.id, params.event) ∷ []
  pub memberships_after : s'.memberships ≡ s.memberships
  pub entitlements_after : s'.entitlements ≡ s.entitlements
  pub operations_after : s'.operations ≡ s.operations

pub archive_tenant-inv :
    (params : ArchiveTenantParams) (s s' : Store) (c : TenantContext)
    → archive_tenant params s ≡ (ok c, s')
    → (actor : TenantContext) × ArchivedTenant params s s' actor
unfolding archive_tenant
archive_tenant-inv params s s' c h =
    elim (Option-cases (find_context params.tenant.id params.actor_user_id s)) [
      | inl e ↦ absurd (ground (arith, e))
      | inr (actor, e) ↦ (actor, ground (arith, e))
    ]

-- The rows that a creation adds.
abbrev pub new_row : CreateTenantParams → TenantRow
new_row params = record {
  tenant = record (params.context.tenant) { status = provisioning; archived_at = none };
  creation_request_id = params.request_id;
}

abbrev pub new_operation : Operation → Operation
new_operation operation = record operation {
  workflow_id = "";
  workflow_run_id = "";
  error = none;
  started_at = none;
  completed_at = none;
}

pub record CreatedTenant (params : CreateTenantParams) (s s' : Store) : Type 0 where
  pub fresh_tenant :
      find_row (clashes_with params.context.tenant params.request_id) s.tenants ≡ none
  pub fresh_membership :
      find_row
        (is_member params.context.membership.tenant_id params.context.membership.user_id)
        s.memberships
      ≡ none
  pub fresh_operation : find_row (clashes_with_operation params.operation) s.operations ≡ none
  pub tenants_after : s'.tenants ≡ s.tenants ++ new_row params ∷ []
  pub memberships_after : s'.memberships ≡ s.memberships ++ params.context.membership ∷ []
  pub entitlements_after : s'.entitlements ≡ s.entitlements ++ params.context.entitlements ∷ []
  pub operations_after : s'.operations ≡ s.operations ++ new_operation params.operation ∷ []
  pub outbox_after : s'.outbox ≡ s.outbox ++ (params.context.tenant.id, params.event) ∷ []

insert_all-inv :
    (params : CreateTenantParams) (s s' : Store)
    → insert_all params s ≡ ok (tt, s')
    → CreatedTenant params s s'
unfolding insert_all
insert_all-inv params s s' h = ground arith

-- Reading changes nothing.
created_result-same :
    (visible : Operation → Bool) (tenant_id user_id : String) (s s' : Store)
    (r : CreateTenantResult)
    → created_result visible tenant_id user_id s ≡ ok (r, s')
    → s' ≡ s
unfolding created_result
created_result-same visible tenant_id user_id s s' r h = ground arith

pub create_requested-inv :
    (known : Option String) (params : CreateTenantParams) (s s' : Store) (r : CreateTenantResult)
    → create_requested known params s ≡ ok (r, s')
    → (s' ≡ s) ⊎ CreatedTenant params s s'
unfolding create_requested
create_requested-inv (some existing_id) params s s' r h = inl (created_result-same _ _ _ s s' r h)
create_requested-inv none params s s' r h =
    let (u, s1, inserted, rest) = continue-inv (insert_all params s) _ (r, s') h in
    let same : s' ≡ s1 = created_result-same _ _ _ s1 s' r rest in
    inr (rw same (insert_all-inv params s s1 inserted))

pub create_tenant-inv :
    (params : CreateTenantParams) (s s' : Store) (r : CreateTenantResult)
    → create_tenant params s ≡ (ok r, s')
    → (s' ≡ s) ⊎ CreatedTenant params s s'
unfolding create_tenant
create_tenant-inv params s s' r h =
    create_requested-inv
      (find_requested params.context.tenant.created_by_user_id params.request_id s) params s s' r
      (ground arith)
