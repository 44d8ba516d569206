-- ===== src/Tenant/Authorization/Roles.antt =====
-- The role hierarchy and what the roles never grant.
use gereh.Prelude.{
  Bool-cases, all_of, ◌==◌, string_eq, contains, all_of-contains, ℕ, ◌≤◌, String, ◌≡◌, refl, ◌≢◌,
  ◌↔◌, inl, inr, true, false, ◌&&◌, ◌||◌, not, [], arith, nat_eq,
}
use gereh.Tenant.Model.{Role, owner, admin, member, viewer, is_owner}
use gereh.Tenant.Permissions.{
  Permission, permission_tenant_archive, permission_member_add, permission_member_update_role,
  permission_member_remove, owner_permissions, admin_permissions, member_permissions,
  viewer_permissions, mutation_permissions,
}
use gereh.Tenant.Authorization.{
  permissions_for_role, role_allows, is_mutation_permission, is_known_role, can_manage_member,
}

-- From the least role to the greatest.
abbrev pub rank : Role → ℕ
rank owner = 4
rank admin = 3
rank member = 2
rank viewer = 1
rank _ = 0

-- The tables of adjacent roles are nested.
viewer-member : all_of (contains member_permissions) viewer_permissions ≡ true
unfolding viewer_permissions member_permissions
viewer-member = refl

member-admin : all_of (contains admin_permissions) member_permissions ≡ true
unfolding admin_permissions member_permissions
member-admin = refl

admin-owner : all_of (contains owner_permissions) admin_permissions ≡ true
unfolding admin_permissions owner_permissions
admin-owner = refl

member_of_viewer : (p : Permission) → role_allows viewer p ≡ true → role_allows member p ≡ true
unfolding role_allows permissions_for_role
member_of_viewer p h =
    all_of-contains (contains member_permissions) viewer_permissions p viewer-member h

admin_of_member : (p : Permission) → role_allows member p ≡ true → role_allows admin p ≡ true
unfolding role_allows permissions_for_role
admin_of_member p h =
    all_of-contains (contains admin_permissions) member_permissions p member-admin h

owner_of_admin : (p : Permission) → role_allows admin p ≡ true → role_allows owner p ≡ true
unfolding role_allows permissions_for_role
owner_of_admin p h = all_of-contains (contains owner_permissions) admin_permissions p admin-owner h

unknown_role_allows_nothing :
    (s : String) (p : Permission) → role_allows (Role.other s) p ≡ true → ⊥
unfolding role_allows permissions_for_role
unknown_role_allows_nothing s p h = cc

-- A role allows everything that a role of no greater rank allows.
pub role_allows_mono :
    (low high : Role) (permission : Permission)
    → rank low ≤ rank high
    → role_allows low permission ≡ true
    → role_allows high permission ≡ true
role_allows_mono (Role.other s) high permission le h =
    absurd (unknown_role_allows_nothing s permission h)
role_allows_mono _ high permission le h =
    ground
      (arith, member_of_viewer permission, admin_of_member permission, owner_of_admin permission)

owner-admin :
    all_of (λ p. p == permission_tenant_archive || contains admin_permissions p) owner_permissions
    ≡ true
unfolding admin_permissions owner_permissions
owner-admin = refl

not_archive-admin : contains admin_permissions permission_tenant_archive ≡ false
unfolding admin_permissions
not_archive-admin = refl

viewer-reads : all_of (λ p. not (contains mutation_permissions p)) viewer_permissions ≡ true
unfolding viewer_permissions mutation_permissions
viewer-reads = refl

-- An admin lacks one permission of an owner, to archive the tenant, and no other.
pub role_allows-admin :
    (permission : Permission)
    → role_allows admin permission
      ≡ (role_allows owner permission && not (permission == permission_tenant_archive))
unfolding role_allows permissions_for_role
role_allows-admin permission = elim (Bool-cases (permission == permission_tenant_archive)) [
  | inl same ↦
      rw ((string_eq.same_iff permission permission_tenant_archive).0 same)
        (ground (arith, not_archive-admin))
  | inr different ↦ ground (
    arith,
    all_of-contains (contains owner_permissions) admin_permissions permission admin-owner,
    all_of-contains (λ p. p == permission_tenant_archive || contains admin_permissions p)
        owner_permissions permission owner-admin,
  )
]

-- A viewer may not change anything.
pub viewer_reads_only :
    (permission : Permission)
    → role_allows viewer permission ≡ true
    → is_mutation_permission permission ≡ false
unfolding role_allows permissions_for_role is_mutation_permission
viewer_reads_only permission h = ground (
  arith,
  all_of-contains (λ p. not (contains mutation_permissions p)) viewer_permissions permission
      viewer-reads h,
)

-- Whoever passes the hierarchy check is an owner or an admin, gives a known role, and is an owner
-- if the member's present role or the new one is that of an owner; such an actor's role also has
-- the permissions to add members, to remove them and to change their roles.
pub can_manage_member_sound :
    (actor target new_role : Role)
    → can_manage_member actor target new_role ≡ true
    → (is_known_role new_role ≡ true)
      × ((is_owner target || is_owner new_role) ≡ true → actor ≡ owner)
      × (role_allows actor permission_member_add ≡ true)
      × (role_allows actor permission_member_update_role ≡ true)
      × (role_allows actor permission_member_remove ≡ true)
unfolding can_manage_member role_allows permissions_for_role owner_permissions admin_permissions
can_manage_member_sound owner target new_role h = (h, (λ o. refl), refl, refl, refl)
can_manage_member_sound admin target new_role h =
    (ground arith, (λ o. ground arith), refl, refl, refl)
can_manage_member_sound _ target new_role h = cc

-- A role is known exactly when it grants anything at all.
pub is_known_role-permissions_for_role :
    (role : Role) → (is_known_role role ≡ true) ↔ (permissions_for_role role ≢ [])
unfolding is_known_role permissions_for_role owner_permissions admin_permissions member_permissions
    viewer_permissions
is_known_role-permissions_for_role role = ground arith
