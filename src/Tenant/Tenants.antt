-- ===== src/Tenant/Tenants.antt =====
-- services/tenant/internal/adapters/postgres/tenant.go: the creation of a tenant, and the changes
-- of its settings and of its status. The encodings of features, limits and metadata as JSON are
-- taken to be read back as they were written.
pub mod Inversion
use gereh.Prelude.{
  find_row, count_where, update_where, Result, ok, err, ◌>>=◌, ◌>>◌, pure, throw_if, transact,
  row_or, OutboxEvent, ◌==◌, ℕ, String, Bool, ◌&&◌, ◌||◌, not, Option, none, some, [], ◌∷◌, ◌++◌,
  string_eq, nat_eq,
}
use gereh.Tenant.Model.{
  provisioning, archived, is_active, Tenant, Entitlements, TenantContext, Operation,
  CreateTenantResult, Error, not_found, forbidden, conflict, version_conflict, archived_tenant,
}
use gereh.Tenant.Authorization.{can_update_tenant, can_archive_tenant}
use gereh.Tenant.Store.{TenantRow, Store, Tx, is_tenant, entitles, query_context, insert_outbox}
use gereh.Tenant.Members.{insert_membership}

pub record CreateTenantParams : Type 0 where
  pub context : TenantContext
  pub operation : Operation
  pub request_id : String
  pub event : OutboxEvent

pub record UpdateTenantParams : Type 0 where
  pub actor_user_id : String
  pub tenant : Tenant
  pub expected_version : ℕ
  pub event : OutboxEvent

pub record ArchiveTenantParams : Type 0 where
  pub actor_user_id : String
  pub tenant : Tenant
  pub expected_version : ℕ
  pub event : OutboxEvent

-- The idempotency key of a creation.
abbrev pub was_requested : String → String → TenantRow → Bool
was_requested actor_user_id request_id row =
    row.tenant.created_by_user_id == actor_user_id && row.creation_request_id == request_id

abbrev pub clashes_with : Tenant → String → TenantRow → Bool
clashes_with tenant request_id row =
    is_tenant tenant.id row
    || (row.tenant.slug == tenant.slug || was_requested tenant.created_by_user_id request_id row)

-- INSERT INTO tenant_tenants: the id, the slug and the idempotency key must be new.
unfoldable pub insert_tenant : Tenant → String → Tx (Unit {0})
insert_tenant tenant request_id s = elim (find_row (clashes_with tenant request_id) s.tenants) [
  | some _ ↦ err conflict
  | none ↦ ok (
    tt,
    record s {
      tenants =
          s.tenants
          ++ record {
            tenant = record tenant { status = provisioning; archived_at = none };
            creation_request_id = request_id;
          }
            ∷ [];
    },
  )
]

-- INSERT INTO tenant_entitlements: one row for a tenant.
unfoldable pub insert_entitlements : Entitlements → Tx (Unit {0})
insert_entitlements e s = elim (find_row (entitles e.tenant_id) s.entitlements) [
  | some _ ↦ err conflict
  | none ↦ ok (tt, record s { entitlements = s.entitlements ++ e ∷ [] })
]

abbrev pub is_operation : String → Operation → Bool
is_operation operation_id row = row.id == operation_id

abbrev pub is_operation_of : String → Operation → Bool
is_operation_of tenant_id row = row.tenant_id == tenant_id

abbrev pub is_operation_by : String → Operation → Bool
is_operation_by actor_user_id row = row.actor_user_id == actor_user_id

abbrev pub clashes_with_operation : Operation → Operation → Bool
clashes_with_operation operation row =
    is_operation operation.id row
    || (is_operation_of operation.tenant_id row
        || (row.actor_user_id == operation.actor_user_id && row.request_id == operation.request_id))

-- INSERT INTO tenant_onboarding_operations. The columns that it does not name are null, and read
-- back as an empty text where the query says so.
unfoldable pub insert_operation : Operation → Tx (Unit {0})
insert_operation operation s = elim (find_row (clashes_with_operation operation) s.operations) [
  | some _ ↦ err conflict
  | none ↦ ok (
    tt,
    record s {
      operations =
          s.operations
          ++ record operation {
            workflow_id = "";
            workflow_run_id = "";
            error = none;
            started_at = none;
            completed_at = none;
          }
            ∷ [];
    },
  )
]

-- Row security lets a transaction see the operations of its tenant, or those that its principal
-- started: `visible` is that test.
unfoldable pub query_operation_by_id : (Operation → Bool) → String → Tx Operation
query_operation_by_id visible operation_id s =
    row_or not_found (find_row (λ row. visible row && is_operation operation_id row) s.operations) s

unfoldable pub query_operation_by_tenant : (Operation → Bool) → String → Tx Operation
query_operation_by_tenant visible tenant_id s =
    row_or not_found (find_row (λ row. visible row && is_operation_of tenant_id row) s.operations) s

-- The tenant that the same request has created before, if any.
unfoldable pub find_requested : String → String → Store → Option String
find_requested actor_user_id request_id s =
    elim (find_row (was_requested actor_user_id request_id) s.tenants) [
      | none ↦ none
      | some row ↦ some row.tenant.id
    ]

-- What a creation returns.
unfoldable pub created_result : (Operation → Bool) → String → String → Tx CreateTenantResult
unfolding query_context query_operation_by_tenant
created_result visible tenant_id user_id = do
  context ← query_context tenant_id user_id
  operation ← query_operation_by_tenant visible tenant_id
  pure (record { context = context; operation = operation })

unfoldable pub insert_all : CreateTenantParams → Tx (Unit {0})
unfolding insert_tenant insert_membership insert_entitlements insert_operation insert_outbox
insert_all params = do
  insert_tenant params.context.tenant params.request_id
  insert_membership params.context.membership
  insert_entitlements params.context.entitlements
  insert_operation params.operation
  insert_outbox params.context.tenant.id params.event

unfoldable pub create_requested : Option String → CreateTenantParams → Tx CreateTenantResult
create_requested (some existing_id) params =
    created_result (is_operation_by params.context.tenant.created_by_user_id) existing_id
      params.context.tenant.created_by_user_id
create_requested none params = do
  insert_all params
  created_result (is_operation_of params.context.tenant.id) params.context.tenant.id
      params.context.membership.user_id

unfoldable pub create_tenant : CreateTenantParams → Store → Result Error CreateTenantResult × Store
unfolding create_requested find_requested
create_tenant params = transact λ s.
    create_requested (find_requested params.context.tenant.created_by_user_id params.request_id s)
      params s

unfoldable pub get_tenant_context : String → String → Store → Result Error TenantContext × Store
unfolding query_context
get_tenant_context tenant_id user_id = transact (query_context tenant_id user_id)

-- UPDATE tenant_tenants … WHERE tenant_id AND version: the number of rows affected is returned.
unfoldable pub update_tenant_row : String → ℕ → (Tenant → Tenant) → Tx ℕ
update_tenant_row tenant_id expected change s =
    let selected = λ (r : TenantRow). is_tenant tenant_id r && r.tenant.version == expected in
    ok (
      count_where selected s.tenants,
      record s {
        tenants = update_where selected (λ r. record r { tenant = change r.tenant }) s.tenants;
      },
    )

-- The columns that an update of the settings sets.
abbrev pub with_settings : Tenant → Tenant → Tenant
with_settings new old = record old {
  display_name = new.display_name;
  region = new.region;
  retention_days = new.retention_days;
  version = new.version;
  updated_at = new.updated_at;
}

abbrev pub with_archived : Tenant → Tenant → Tenant
with_archived new old = record old {
  status = archived;
  version = new.version;
  updated_at = new.updated_at;
  archived_at = new.archived_at;
}

unfoldable pub update_tenant : UpdateTenantParams → Store → Result Error TenantContext × Store
unfolding query_context update_tenant_row insert_outbox
update_tenant params = transact do
  current ← query_context params.tenant.id params.actor_user_id
  throw_if (not (is_active current.tenant.status)) archived_tenant
  throw_if (not (can_update_tenant current.membership.role)) forbidden
  throw_if (not (current.tenant.version == params.expected_version)) version_conflict
  affected ←
      update_tenant_row params.tenant.id params.expected_version (with_settings params.tenant)
  throw_if (not (affected == 1)) version_conflict
  insert_outbox params.tenant.id params.event
  query_context params.tenant.id params.actor_user_id

unfoldable pub archive_tenant : ArchiveTenantParams → Store → Result Error TenantContext × Store
unfolding query_context update_tenant_row insert_outbox
archive_tenant params = transact do
  current ← query_context params.tenant.id params.actor_user_id
  throw_if (not (can_archive_tenant current.membership.role)) forbidden
  throw_if (not (current.tenant.version == params.expected_version)) version_conflict
  update_tenant_row params.tenant.id params.expected_version (with_archived params.tenant)
  insert_outbox params.tenant.id params.event
  query_context params.tenant.id params.actor_user_id
