-- ===== src/Tenant/Members/Inversion.antt =====
-- What a membership operation that succeeded has checked, and the store that it leaves.
use gereh.Prelude.{
  leb, Option-cases, length, keep_if, find_row, count_where, update_where, delete_where, ok, Time,
  ◌==◌, ℕ, String, ◌≡◌, inl, inr, true, false, ◌&&◌, not, none, some, List, [], ◌∷◌, ◌++◌, map,
  arith, string_eq, nat_eq,
}
use gereh.Tenant.Model.{Role, is_active, is_owner, Membership, TenantContext}
use gereh.Tenant.Authorization.{can_manage_member}
use gereh.Tenant.Store.{TenantRow, Store, is_tenant, is_member, find_context}
use gereh.Tenant.Members.{
  AddMemberParams, UpdateMemberRoleParams, RemoveMemberParams, is_owner_of, selects, with_role,
  keep_an_owner, add_member, update_member_role, remove_member,
}

-- The tenant table after the version of one tenant has been set.
abbrev pub versioned : String → ℕ → ℕ → Time → List TenantRow → List TenantRow
versioned tenant_id expected new_version at =
    update_where (λ r. is_tenant tenant_id r && r.tenant.version == expected)
      (λ r. record r { tenant = record (r.tenant) { version = new_version; updated_at = at } })

pub record AddedMember (params : AddMemberParams) (s s' : Store) (actor : TenantContext)
    : Type 0 where
  pub found : find_context params.membership.tenant_id params.actor_user_id s ≡ some actor
  pub active_tenant : is_active actor.tenant.status ≡ true
  pub version_matched : actor.tenant.version ≡ params.expected_tenant_version
  pub managed :
      can_manage_member actor.membership.role (Role.other "") params.membership.role ≡ true
  pub fresh :
      find_row (is_member params.membership.tenant_id params.membership.user_id) s.memberships
      ≡ none
  pub memberships_after : s'.memberships ≡ s.memberships ++ params.membership ∷ []
  pub tenants_after :
      s'.tenants
      ≡ versioned params.membership.tenant_id params.expected_tenant_version
          params.new_tenant_version params.membership.updated_at s.tenants
  pub outbox_after : s'.outbox ≡ s.outbox ++ (params.membership.tenant_id, params.event) ∷ []
  pub entitlements_after : s'.entitlements ≡ s.entitlements
  pub operations_after : s'.operations ≡ s.operations

pub add_member-inv :
    (params : AddMemberParams) (s s' : Store) (m : Membership)
    → add_member params s ≡ (ok m, s')
    → (actor : TenantContext) × AddedMember params s s' actor
unfolding add_member
add_member-inv params s s' m h =
    elim (Option-cases (find_context params.membership.tenant_id params.actor_user_id s)) [
      | inl e ↦ absurd (ground (arith, e))
      | inr (actor, e) ↦ (actor, ground (arith, e))
    ]

pub record UpdatedMember (params : UpdateMemberRoleParams) (s s' : Store) (actor : TenantContext)
    (target : Membership) : Type 0 where
  pub found : find_context params.membership.tenant_id params.actor_user_id s ≡ some actor
  pub found_target :
      find_row (is_member params.membership.tenant_id params.membership.user_id) s.memberships
      ≡ some target
  pub active_tenant : is_active actor.tenant.status ≡ true
  pub version_matched : actor.tenant.version ≡ params.expected_tenant_version
  pub target_version_matched : target.version ≡ params.expected_membership_version
  pub managed : can_manage_member actor.membership.role target.role params.membership.role ≡ true
  pub owner_kept :
      (is_owner target.role && not (is_owner params.membership.role)) ≡ true
      → leb
          (length (
            map
              (λ (m : Membership). m.user_id)
              (keep_if (is_owner_of params.membership.tenant_id) s.memberships)))
          1
        ≡ false
  pub one_row :
      count_where
        (selects params.membership.tenant_id params.membership.user_id
          params.expected_membership_version)
        s.memberships
      ≡ 1
  pub memberships_after :
      s'.memberships
      ≡ update_where
          (selects params.membership.tenant_id params.membership.user_id
            params.expected_membership_version)
          (with_role params.membership)
          s.memberships
  pub tenants_after :
      s'.tenants
      ≡ versioned params.membership.tenant_id params.expected_tenant_version
          params.new_tenant_version params.membership.updated_at s.tenants
  pub outbox_after : s'.outbox ≡ s.outbox ++ (params.membership.tenant_id, params.event) ∷ []
  pub entitlements_after : s'.entitlements ≡ s.entitlements
  pub operations_after : s'.operations ≡ s.operations

pub update_member_role-inv :
    (params : UpdateMemberRoleParams) (s s' : Store) (m : Membership)
    → update_member_role params s ≡ (ok m, s')
    → (actor : TenantContext) × (target : Membership) × UpdatedMember params s s' actor target
unfolding update_member_role keep_an_owner
update_member_role-inv params s s' m h =
    elim (Option-cases (find_context params.membership.tenant_id params.actor_user_id s)) [
      | inl e ↦ absurd (ground (arith, e))
      | inr (actor, e) ↦
          elim (Option-cases (
            find_row (is_member params.membership.tenant_id params.membership.user_id)
              s.memberships)) [
                | inl e' ↦ absurd (ground (arith, e, e'))
                | inr (target, e') ↦ (actor, target, ground (arith, e, e'))
              ]
    ]

pub record RemovedMember (params : RemoveMemberParams) (s s' : Store) (actor : TenantContext)
    (target : Membership) : Type 0 where
  pub found : find_context params.tenant_id params.actor_user_id s ≡ some actor
  pub found_target :
      find_row (is_member params.tenant_id params.user_id) s.memberships ≡ some target
  pub active_tenant : is_active actor.tenant.status ≡ true
  pub version_matched : actor.tenant.version ≡ params.expected_tenant_version
  pub target_version_matched : target.version ≡ params.expected_membership_version
  pub managed : can_manage_member actor.membership.role target.role target.role ≡ true
  pub owner_kept :
      is_owner target.role ≡ true
      → leb
          (length (
            map
              (λ (m : Membership). m.user_id)
              (keep_if (is_owner_of params.tenant_id) s.memberships)))
          1
        ≡ false
  pub one_row :
      count_where
        (selects params.tenant_id params.user_id params.expected_membership_version)
        s.memberships
      ≡ 1
  pub memberships_after :
      s'.memberships
      ≡ delete_where
          (selects params.tenant_id params.user_id params.expected_membership_version)
          s.memberships
  pub tenants_after :
      s'.tenants
      ≡ versioned params.tenant_id params.expected_tenant_version params.new_tenant_version
          params.event.occurred_at s.tenants
  pub outbox_after : s'.outbox ≡ s.outbox ++ (params.tenant_id, params.event) ∷ []
  pub entitlements_after : s'.entitlements ≡ s.entitlements
  pub operations_after : s'.operations ≡ s.operations

pub remove_member-inv :
    (params : RemoveMemberParams) (s s' : Store)
    → remove_member params s ≡ (ok tt, s')
    → (actor : TenantContext) × (target : Membership) × RemovedMember params s s' actor target
unfolding remove_member keep_an_owner
remove_member-inv params s s' h =
    elim (Option-cases (find_context params.tenant_id params.actor_user_id s)) [
      | inl e ↦ absurd (ground (arith, e))
      | inr (actor, e) ↦
          elim (Option-cases (find_row (is_member params.tenant_id params.user_id) s.memberships)) [
            | inl e' ↦ absurd (ground (arith, e, e'))
            | inr (target, e') ↦ (actor, target, ground (arith, e, e'))
          ]
    ]
