-- ===== src/Tenant/Store.antt =====
-- services/tenant/internal/adapters/postgres: the tables of the tenant service, its transactions
-- and the queries that all of its methods share (repository.go, outbox.go). A transaction that
-- returns an error is rolled back. Failures of the connection, which roll back too, are not
-- modelled; neither is row security beyond the operations table, since each statement names its
-- tenant. Identifiers are canonical UUID texts.
use mathlib.Core.Option
use gereh.Prelude.{
  Option-cases, find_row, ok, err, Transaction, row_or, OutboxEvent, ◌==◌, String, ◌≡◌, inl, inr,
  Bool, ◌&&◌, Option, none, some, List, [], ◌∷◌, ◌++◌, arith, string_eq, nat_eq,
}
use gereh.Tenant.Model.{
  Tenant, Membership, Entitlements, TenantContext, Operation, Error, not_found, conflict,
}

-- A row of tenant_tenants has one column more than the domain record.
pub record TenantRow : Type 0 where
  pub tenant : Tenant
  pub creation_request_id : String

pub record Store : Type 0 where
  pub tenants : List TenantRow
  pub memberships : List Membership
  pub entitlements : List Entitlements
  pub operations : List Operation
  pub outbox : List (String × OutboxEvent)

-- The work inside a transaction.
abbrev pub Tx {ℓ} : Type ℓ → Type ℓ
Tx = Transaction Error Store

abbrev pub is_tenant : String → TenantRow → Bool
is_tenant tenant_id row = row.tenant.id == tenant_id

-- The key of tenant_memberships.
abbrev pub is_member : String → String → Membership → Bool
is_member tenant_id user_id row = row.tenant_id == tenant_id && row.user_id == user_id

abbrev pub entitles : String → Entitlements → Bool
entitles tenant_id row = row.tenant_id == tenant_id

-- The join of a tenant's row, a member's and the tenant's entitlements.
join_context : Option TenantRow → Option Membership → Option Entitlements → Option TenantContext
join_context (some t) (some m) (some e) = some (record {
  tenant = t.tenant;
  membership = record m { tenant_id = t.tenant.id };
  entitlements = record e { tenant_id = t.tenant.id };
  permissions = [];
})
join_context _ _ _ = none

unfoldable pub find_context : String → String → Store → Option TenantContext
unfolding join_context
find_context tenant_id user_id s =
    join_context (find_row (is_tenant tenant_id) s.tenants)
      (find_row (is_member tenant_id user_id) s.memberships)
      (find_row (entitles tenant_id) s.entitlements)

unfoldable pub query_context : String → String → Tx TenantContext
query_context tenant_id user_id s = row_or not_found (find_context tenant_id user_id s) s

unfoldable pub query_membership : String → String → Tx Membership
query_membership tenant_id user_id s =
    row_or not_found (find_row (is_member tenant_id user_id) s.memberships) s

unfoldable pub query_tenant : String → Tx Tenant
query_tenant tenant_id s =
    row_or not_found
      (Option.map (λ (r : TenantRow). r.tenant) (find_row (is_tenant tenant_id) s.tenants)) s

-- The key of tenant_outbox is made by the database; event ids are unique.
unfoldable pub insert_outbox : String → OutboxEvent → Tx (Unit {0})
insert_outbox tenant_id event s =
    elim (find_row (λ (r : String × OutboxEvent). r.1.id == event.id) s.outbox) [
      | some _ ↦ err conflict
      | none ↦ ok (tt, record s { outbox = s.outbox ++ (tenant_id, event) ∷ [] })
    ]

-- A context shows the row of its tenant.
pub find_context-row :
    (tenant_id user_id : String) (s : Store) (c : TenantContext)
    → find_context tenant_id user_id s ≡ some c
    → (row : TenantRow) × (find_row (is_tenant tenant_id) s.tenants ≡ some row)
      × (c.tenant ≡ row.tenant)
unfolding find_context
find_context-row tenant_id user_id s c h =
    elim (Option-cases (find_row (is_tenant tenant_id) s.tenants)) [
      | inl e ↦ absurd (ground (arith, e))
      | inr (row, e) ↦ (row, e, ground (arith, e))
    ]

-- And the row of its member.
pub find_context-member :
    (tenant_id user_id : String) (s : Store) (c : TenantContext)
    → find_context tenant_id user_id s ≡ some c
    → (row : Membership) × (find_row (is_member tenant_id user_id) s.memberships ≡ some row)
      × (c.membership.role ≡ row.role)
unfolding find_context
find_context-member tenant_id user_id s c h =
    elim (Option-cases (find_row (is_member tenant_id user_id) s.memberships)) [
      | inl e ↦ absurd (ground (arith, e))
      | inr (row, e) ↦ (row, e, ground (arith, e))
    ]

-- A context depends on three tables only.
pub find_context-same :
    (tenant_id user_id : String) (s s' : Store)
    → s'.tenants ≡ s.tenants
    → s'.memberships ≡ s.memberships
    → s'.entitlements ≡ s.entitlements
    → find_context tenant_id user_id s' ≡ find_context tenant_id user_id s
unfolding find_context
find_context-same tenant_id user_id s s' t m e = rw (t, m, e)
