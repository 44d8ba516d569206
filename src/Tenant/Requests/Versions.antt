-- ===== src/Tenant/Requests/Versions.antt =====
-- Optimistic locking: a request that names a version of the tenant succeeds only at that version,
-- and moves the tenant to the next.
use mathlib.Core.Option
use mathlib.Core.Option.{some-injective}
use gereh.Prelude.{
  find_row, update_where, find_row-satisfies, find_row-update_where, ok, outcome, outcome-store,
  outcome-ok, Time, ◌==◌, nat_eq, ℕ, String, ◌≡◌, refl, sym, ap, ◌∙◌, subst, ◌≢◌, Option, none,
  some, arith, string_eq,
}
use gereh.Tenant.Model.{TenantContext}
use gereh.Tenant.Store.{TenantRow, Store, is_tenant, find_context, find_context-row}
use gereh.Tenant.Tenants.Inversion.{at_version, update_tenant-inv, archive_tenant-inv}
use gereh.Tenant.Requests.{
  Request, create, update, archive, add, change_role, remove, start, complete, fail, handle,
}
use gereh.Tenant.Members.{
  AddMemberParams, UpdateMemberRoleParams, RemoveMemberParams, add_member, update_member_role,
  remove_member,
}
use gereh.Tenant.Members.Inversion.{add_member-inv, update_member_role-inv, remove_member-inv}
use gereh.Tenant.Tenants.{
  UpdateTenantParams, ArchiveTenantParams, with_settings, with_archived, update_tenant,
  archive_tenant,
}

abbrev pub version_of : String → Store → Option ℕ
version_of tenant_id s =
    Option.map (λ (r : TenantRow). r.tenant.version) (find_row (is_tenant tenant_id) s.tenants)

-- The tenant, the version expected of it and the version that it gets.
abbrev pub claims : Request → Option (String × ℕ × ℕ)
claims (update params) = some (params.tenant.id, params.expected_version, params.tenant.version)
claims (archive params) = some (params.tenant.id, params.expected_version, params.tenant.version)
claims (add params) =
    some (params.membership.tenant_id, params.expected_tenant_version, params.new_tenant_version)
claims (change_role params) =
    some (params.membership.tenant_id, params.expected_tenant_version, params.new_tenant_version)
claims (remove params) =
    some (params.tenant_id, params.expected_tenant_version, params.new_tenant_version)
claims _ = none

module _ (s s' : Store) (t user : String) (e n : ℕ) (c : TenantContext)
    (found : find_context t user s ≡ some c) (matched : c.tenant.version ≡ e)
    (f : TenantRow → TenantRow) (same_id : (r : TenantRow) → (f r).tenant.id ≡ r.tenant.id)
    (new_version : (r : TenantRow) → (f r).tenant.version ≡ n)
    (after : s'.tenants ≡ update_where (at_version t e) f s.tenants) where
  version-step : (version_of t s ≡ some e) × (version_of t s' ≡ some n)
  version-step =
      let (row, at, shown) = find_context-row t user s c found in
      let here = find_row-satisfies (is_tenant t) s.tenants row at in
      let moved =
        find_row-update_where (is_tenant t) (at_version t e) f s.tenants
          (λ r. ap (λ i. i == t) (same_id r)) in
      (
        ground (arith, at, shown, matched),
        rw (after, moved, at)
            (ground
              (arith, here, shown, matched, nat_eq.same_iff row.tenant.version e, new_version row)),
      )

-- The versions before and after.
abbrev Moved : String × ℕ × ℕ → Store → Store → Type 0
Moved x s s' = (version_of x.0 s ≡ some x.1) × (version_of x.0 s' ≡ some x.2)

update-Moved :
    (params : UpdateTenantParams) (s : Store)
    → (outcome (update_tenant params s)).0 ≡ ok tt
    → Moved
        (params.tenant.id, params.expected_version, params.tenant.version)
        s
        (update_tenant params s).1
update-Moved params s h =
    let (c, done) = outcome-ok (update_tenant params s) h in
    let (actor, inv) = update_tenant-inv params s (update_tenant params s).1 c done in
    version-step s (update_tenant params s).1 params.tenant.id params.actor_user_id
      params.expected_version params.tenant.version actor inv.found inv.version_matched
      (λ r. record r { tenant = with_settings params.tenant r.tenant }) (λ r. refl) (λ r. refl)
      inv.tenants_after

archive-Moved :
    (params : ArchiveTenantParams) (s : Store)
    → (outcome (archive_tenant params s)).0 ≡ ok tt
    → Moved
        (params.tenant.id, params.expected_version, params.tenant.version)
        s
        (archive_tenant params s).1
archive-Moved params s h =
    let (c, done) = outcome-ok (archive_tenant params s) h in
    let (actor, inv) = archive_tenant-inv params s (archive_tenant params s).1 c done in
    version-step s (archive_tenant params s).1 params.tenant.id params.actor_user_id
      params.expected_version params.tenant.version actor inv.found inv.version_matched
      (λ r. record r { tenant = with_archived params.tenant r.tenant }) (λ r. refl) (λ r. refl)
      inv.tenants_after

-- What the membership methods do to the tenant's row.
abbrev bump : ℕ → Time → TenantRow → TenantRow
bump n at r = record r { tenant = record (r.tenant) { version = n; updated_at = at } }

add-Moved :
    (params : AddMemberParams) (s : Store)
    → (outcome (add_member params s)).0 ≡ ok tt
    → Moved
        (params.membership.tenant_id, params.expected_tenant_version, params.new_tenant_version)
        s
        (add_member params s).1
add-Moved params s h =
    let (c, done) = outcome-ok (add_member params s) h in
    let (actor, inv) = add_member-inv params s (add_member params s).1 c done in
    version-step s (add_member params s).1 params.membership.tenant_id params.actor_user_id
      params.expected_tenant_version params.new_tenant_version actor inv.found inv.version_matched
      (bump params.new_tenant_version params.membership.updated_at) (λ r. refl) (λ r. refl)
      inv.tenants_after

change_role-Moved :
    (params : UpdateMemberRoleParams) (s : Store)
    → (outcome (update_member_role params s)).0 ≡ ok tt
    → Moved
        (params.membership.tenant_id, params.expected_tenant_version, params.new_tenant_version)
        s
        (update_member_role params s).1
change_role-Moved params s h =
    let (c, done) = outcome-ok (update_member_role params s) h in
    let (actor, target, inv) =
      update_member_role-inv params s (update_member_role params s).1 c done in
    version-step s (update_member_role params s).1 params.membership.tenant_id params.actor_user_id
      params.expected_tenant_version params.new_tenant_version actor inv.found inv.version_matched
      (bump params.new_tenant_version params.membership.updated_at) (λ r. refl) (λ r. refl)
      inv.tenants_after

remove-Moved :
    (params : RemoveMemberParams) (s : Store)
    → (outcome (remove_member params s)).0 ≡ ok tt
    → Moved
        (params.tenant_id, params.expected_tenant_version, params.new_tenant_version)
        s
        (remove_member params s).1
remove-Moved params s h =
    let (c, done) = outcome-ok (remove_member params s) h in
    let (actor, target, inv) = remove_member-inv params s (remove_member params s).1 done in
    version-step s (remove_member params s).1 params.tenant_id params.actor_user_id
      params.expected_tenant_version params.new_tenant_version actor inv.found inv.version_matched
      (bump params.new_tenant_version params.event.occurred_at) (λ r. refl) (λ r. refl)
      inv.tenants_after

-- For each request that names a version of its tenant: if it succeeds, the tenant was at the
-- expected version, and is at the new one afterwards.
pub handle-versions :
    (r : Request) (s : Store) (t : String) (e n : ℕ)
    → claims r ≡ some (t, e, n)
    → (handle r s).0 ≡ ok tt
    → (version_of t s ≡ some e) × (version_of t (handle r s).1 ≡ some n)
unfolding handle
handle-versions (update params) s t e n c h = rw outcome-store (
    subst (λ x. Moved x s (update_tenant params s).1) (some-injective _ _ c)
      (update-Moved params s h))
handle-versions (archive params) s t e n c h = rw outcome-store (
    subst (λ x. Moved x s (archive_tenant params s).1) (some-injective _ _ c)
      (archive-Moved params s h))
handle-versions (add params) s t e n c h =
    rw outcome-store
      (subst (λ x. Moved x s (add_member params s).1) (some-injective _ _ c) (add-Moved params s h))
handle-versions (change_role params) s t e n c h = rw outcome-store (
    subst (λ x. Moved x s (update_member_role params s).1) (some-injective _ _ c)
      (change_role-Moved params s h))
handle-versions (remove params) s t e n c h = rw outcome-store (
    subst (λ x. Moved x s (remove_member params s).1) (some-injective _ _ c)
      (remove-Moved params s h))
handle-versions (create params) s t e n c h = cc
handle-versions (start params) s t e n c h = cc
handle-versions (complete params) s t e n c h = cc
handle-versions (fail params) s t e n c h = cc

-- Of two requests that were built on one version of a tenant, where the first moves the tenant to
-- another version, the second fails once the first has succeeded.
pub stale_request_fails :
    (first second : Request) (s : Store) (t : String) (e n m : ℕ)
    → claims first ≡ some (t, e, n)
    → claims second ≡ some (t, e, m)
    → n ≢ e
    → (handle first s).0 ≡ ok tt
    → (handle second (handle first s).1).0 ≢ ok tt
stale_request_fails first second s t e n m c1 c2 moved h1 h2 = moved (
    some-injective _ _ (
      sym (handle-versions first s t e n c1 h1).1
      ∙ (handle-versions second (handle first s).1 t e m c2 h2).0))
