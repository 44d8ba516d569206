-- ===== src/Tenant/Members.antt =====
-- services/tenant/internal/adapters/postgres/membership.go, with the parameter records of
-- services/tenant/internal/ports/repository.go. Each method is one transaction, whose
-- body `transact` runs by itself: the row locks that it takes leave no trace in the model.
pub mod Inversion
pub mod Owners
pub mod Privilege
use gereh.Prelude.{
  leb, length, keep_if, find_row, count_where, update_where, delete_where, Result, ok, err, ◌>>=◌,
  ◌>>◌, pure, throw_if, transact, Time, OutboxEvent, ◌==◌, ℕ, String, Bool, true, false, ◌&&◌, ◌||◌,
  not, none, some, List, [], ◌∷◌, ◌++◌, map, string_eq, nat_eq,
}
use gereh.Tenant.Model.{
  other, Role, is_active, is_owner, Membership, Error, forbidden, conflict, version_conflict,
  last_owner, archived_tenant,
}
use gereh.Tenant.Authorization.{can_manage_member}
use gereh.Tenant.Store.{
  Store, Tx, is_tenant, is_member, query_context, query_membership, insert_outbox,
}

pub record AddMemberParams : Type 0 where
  pub actor_user_id : String
  pub membership : Membership
  pub expected_tenant_version : ℕ
  pub new_tenant_version : ℕ
  pub event : OutboxEvent

pub record UpdateMemberRoleParams : Type 0 where
  pub actor_user_id : String
  pub membership : Membership
  pub previous_role : Role
  pub expected_membership_version : ℕ
  pub expected_tenant_version : ℕ
  pub new_tenant_version : ℕ
  pub event : OutboxEvent

pub record RemoveMemberParams : Type 0 where
  pub actor_user_id : String
  pub tenant_id : String
  pub user_id : String
  pub previous_role : Role
  pub expected_membership_version : ℕ
  pub expected_tenant_version : ℕ
  pub new_tenant_version : ℕ
  pub event : OutboxEvent

-- INSERT INTO tenant_memberships: the key must be new.
unfoldable pub insert_membership : Membership → Tx (Unit {0})
insert_membership m s = elim (find_row (is_member m.tenant_id m.user_id) s.memberships) [
  | some _ ↦ err conflict
  | none ↦ ok (tt, record s { memberships = s.memberships ++ m ∷ [] })
]

-- UPDATE tenant_tenants SET version, updated_at WHERE tenant_id AND version
unfoldable pub set_tenant_version : String → ℕ → ℕ → Time → Tx (Unit {0})
set_tenant_version tenant_id expected new_version at s = ok (
  tt,
  record s {
    tenants =
        update_where (λ r. is_tenant tenant_id r && r.tenant.version == expected)
          (λ r. record r { tenant = record (r.tenant) { version = new_version; updated_at = at } })
          s.tenants;
  },
)

-- Whether a row is one of the tenant's owners.
abbrev pub is_owner_of : String → Membership → Bool
is_owner_of tenant_id row = row.tenant_id == tenant_id && is_owner row.role

-- The user ids of the tenant's owners. Their order is not used.
unfoldable pub lock_owners : String → Tx (List String)
lock_owners tenant_id s =
    ok (map (λ (m : Membership). m.user_id) (keep_if (is_owner_of tenant_id) s.memberships), s)

-- The WHERE clause of a change of one membership.
abbrev pub selects : String → String → ℕ → Membership → Bool
selects tenant_id user_id expected row = is_member tenant_id user_id row && row.version == expected

-- The columns that a change of role sets.
abbrev pub with_role : Membership → Membership → Membership
with_role m row = record row { role = m.role; version = m.version; updated_at = m.updated_at }

-- UPDATE tenant_memberships SET role, version, updated_at WHERE tenant_id AND user_id AND version:
-- the number of rows affected is returned.
unfoldable pub update_membership : Membership → ℕ → Tx ℕ
update_membership m expected s =
    let selected = selects m.tenant_id m.user_id expected in
    ok (
      count_where selected s.memberships,
      record s { memberships = update_where selected (with_role m) s.memberships },
    )

-- DELETE FROM tenant_memberships WHERE tenant_id AND user_id AND version
unfoldable pub delete_membership : String → String → ℕ → Tx ℕ
delete_membership tenant_id user_id expected s =
    let selected = selects tenant_id user_id expected in
    ok (
      count_where selected s.memberships,
      record s { memberships = delete_where selected s.memberships },
    )

-- No owner may be demoted or removed unless the tenant has another.
unfoldable pub keep_an_owner : Bool → String → Tx (Unit {0})
unfolding lock_owners
keep_an_owner false tenant_id = pure tt
keep_an_owner true tenant_id = do
  owners ← lock_owners tenant_id
  throw_if (leb (length owners) 1) last_owner

unfoldable pub get_membership : String → String → Store → Result Error Membership × Store
unfolding query_membership
get_membership tenant_id user_id = transact (query_membership tenant_id user_id)

-- The actor only sets the scope of the transaction.
unfoldable pub get_membership_as_actor :
    String → String → String → Store → Result Error Membership × Store
unfolding query_membership
get_membership_as_actor tenant_id actor_user_id target_user_id =
    transact (query_membership tenant_id target_user_id)

unfoldable pub add_member : AddMemberParams → Store → Result Error Membership × Store
unfolding insert_membership set_tenant_version query_context insert_outbox query_membership
add_member params = transact do
  actor_context ← query_context params.membership.tenant_id params.actor_user_id
  throw_if (not (is_active actor_context.tenant.status)) archived_tenant
  throw_if (not (actor_context.tenant.version == params.expected_tenant_version)) version_conflict
  throw_if
      (not (can_manage_member actor_context.membership.role (Role.other "") params.membership.role))
      forbidden
  insert_membership params.membership
  set_tenant_version params.membership.tenant_id params.expected_tenant_version
      params.new_tenant_version params.membership.updated_at
  insert_outbox params.membership.tenant_id params.event
  query_membership params.membership.tenant_id params.membership.user_id

unfoldable pub update_member_role : UpdateMemberRoleParams → Store → Result Error Membership × Store
unfolding update_membership set_tenant_version query_context insert_outbox query_membership
update_member_role params = transact do
  actor_context ← query_context params.membership.tenant_id params.actor_user_id
  target ← query_membership params.membership.tenant_id params.membership.user_id
  throw_if (not (is_active actor_context.tenant.status)) archived_tenant
  throw_if
      (not (actor_context.tenant.version == params.expected_tenant_version)
        || not (target.version == params.expected_membership_version))
      version_conflict
  throw_if
      (not (can_manage_member actor_context.membership.role target.role params.membership.role))
      forbidden
  keep_an_owner (is_owner target.role && not (is_owner params.membership.role))
      params.membership.tenant_id
  affected ← update_membership params.membership params.expected_membership_version
  throw_if (not (affected == 1)) version_conflict
  set_tenant_version params.membership.tenant_id params.expected_tenant_version
      params.new_tenant_version params.membership.updated_at
  insert_outbox params.membership.tenant_id params.event
  query_membership params.membership.tenant_id params.membership.user_id

unfoldable pub remove_member : RemoveMemberParams → Store → Result Error (Unit {0}) × Store
unfolding delete_membership set_tenant_version query_context insert_outbox query_membership
remove_member params = transact do
  actor_context ← query_context params.tenant_id params.actor_user_id
  target ← query_membership params.tenant_id params.user_id
  throw_if (not (is_active actor_context.tenant.status)) archived_tenant
  throw_if
      (not (actor_context.tenant.version == params.expected_tenant_version)
        || not (target.version == params.expected_membership_version))
      version_conflict
  throw_if (not (can_manage_member actor_context.membership.role target.role target.role)) forbidden
  keep_an_owner (is_owner target.role) params.tenant_id
  affected ← delete_membership params.tenant_id params.user_id params.expected_membership_version
  throw_if (not (affected == 1)) version_conflict
  set_tenant_version params.tenant_id params.expected_tenant_version params.new_tenant_version
      params.event.occurred_at
  insert_outbox params.tenant_id params.event
