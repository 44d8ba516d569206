-- ===== src/Tenant/Requests/Archived.antt =====
-- An archived tenant stays as it is: its status and its members do not change any more.
use mathlib.Core.Option
use mathlib.Core.List.{append-nil}
use mathlib.Core.Option.{some-injective}
use gereh.Prelude.{
  Bool-cases, Option-cases, keep_if, find_row, update_where, find_row-satisfies,
  count_where-find_row, find_row-none, find_row-update_where, find_row-append, keep_if-append,
  keep_if-update_where, keep_if-delete_where, ◌==◌, ℕ, String, ◌≡◌, refl, sym, ap, ◌∙◌, subst, inl,
  inr, Bool, true, false, Option, some, List, [], ◌∷◌, ◌++◌, arith, eq_iff, string_eq, nat_eq,
}
use gereh.Tenant.Model.{Status, archived, is_active, Membership, TenantContext}
use gereh.Tenant.Store.{TenantRow, Store, is_tenant, find_context, find_context-row}
use gereh.Tenant.Requests.{Request, create, handle, run}
use gereh.Tenant.Members.{selects, with_role}
use gereh.Tenant.Tenants.{CreateTenantParams, clashes_with}
use gereh.Tenant.Tenants.Inversion.{new_row, CreatedTenant}
use gereh.Tenant.Onboarding.Inversion.{settles, settled}
use gereh.Tenant.Requests.Effects.{
  Effect, none_at_all, created, updated, archived_now, added, role_changed, removed, tenant_settled,
  handle-Effect,
}

abbrev pub in_tenant : String → Membership → Bool
in_tenant tenant_id m = m.tenant_id == tenant_id

-- The members of a tenant, in the order of the table.
abbrev pub members_of : String → Store → List Membership
members_of tenant_id s = keep_if (in_tenant tenant_id) s.memberships

abbrev pub status_of : String → Store → Option Status
status_of tenant_id s =
    Option.map (λ (r : TenantRow). r.tenant.status) (find_row (is_tenant tenant_id) s.tenants)

-- The service creates a tenant together with a membership of that tenant.
abbrev pub IsCoherent : Request → Type 0
IsCoherent (create params) = params.context.membership.tenant_id ≡ params.context.tenant.id
IsCoherent _ = Unit {0}

abbrev pub AllCoherent : List Request → Type 0
AllCoherent [] = Unit {0}
AllCoherent (r ∷ rs) = IsCoherent r × AllCoherent rs

-- The archived tenant and its row.
module _ (t : String) (s s' : Store) (was : status_of t s ≡ some archived) where
  the_row :
      (row : TenantRow) × (find_row (is_tenant t) s.tenants ≡ some row)
      × (row.tenant.status ≡ archived)
  the_row = elim (Option-cases (find_row (is_tenant t) s.tenants)) [
    | inl e ↦ cc (rw e at was)
    | inr (row, e) ↦ (row, e, some-injective _ _ (rw e at was))
  ]

  -- A member whose tenant was seen to be active is not one of the archived tenant.
  apart :
      (t0 user : String) (c : TenantContext)
      → find_context t0 user s ≡ some c
      → is_active c.tenant.status ≡ true
      → (t0 == t) ≡ false
  apart t0 user c found active_now = elim (Bool-cases (t0 == t)) [
    | inl same ↦
        let (row, at, shown) = find_context-row t0 user s c found in
        let (row', at', st) = the_row in
        let together : some row ≡ some row' =
          sym at ∙ (ap (λ i. find_row (is_tenant i) s.tenants) ((eq_iff t0 t).0 same) ∙ at') in
        absurd (ground (arith, shown, st, some-injective _ _ together))
    | inr different ↦ different
  ]

  status-update :
      (q : TenantRow → Bool) (f : TenantRow → TenantRow)
      → ((r : TenantRow) → (f r).tenant.id ≡ r.tenant.id)
      → ((r : TenantRow) → q r ≡ true → r.tenant.status ≡ archived → (f r).tenant.status ≡ archived)
      → s'.tenants ≡ update_where q f s.tenants
      → status_of t s' ≡ some archived
  status-update q f same_id keeps after =
      let (row, at, st) = the_row in
      rw
        (
          after,
          find_row-update_where (is_tenant t) q f s.tenants (λ r. ap (λ i. i == t) (same_id r)),
          at,
        )
        (ground (arith, st, keeps row))

  -- What is left of the members when no row of the tenant is touched.
  members-update :
      (q : Membership → Bool) (f : Membership → Membership)
      → ((m : Membership) → (f m).tenant_id ≡ m.tenant_id)
      → ((m : Membership) → q m ≡ true → in_tenant t m ≡ false)
      → s'.memberships ≡ update_where q f s.memberships
      → members_of t s' ≡ members_of t s
  members-update q f same_id other_tenant after = rw after (
      keep_if-update_where (in_tenant t) q f s.memberships (λ m. ap (λ i. i == t) (same_id m))
        other_tenant)

  members-append :
      (m : Membership)
      → in_tenant t m ≡ false
      → s'.memberships ≡ s.memberships ++ m ∷ []
      → members_of t s' ≡ members_of t s
  members-append m other_tenant after =
      rw (after, keep_if-append (in_tenant t) s.memberships (m ∷ []), other_tenant) (append-nil _)

  -- A tenant that is created now is not the archived one.
  created_apart :
      (params : CreateTenantParams)
      → CreatedTenant params s s'
      → (params.context.tenant.id == t) ≡ false
  created_apart params inv = elim (Bool-cases (params.context.tenant.id == t)) [
    | inl same ↦
        let (row, at, st) = the_row in
        let at_id : params.context.tenant.id ≡ t = (eq_iff params.context.tenant.id t).0 same in
        absurd (
          omega (
            arith,
            count_where-find_row (is_tenant t)
                (clashes_with params.context.tenant params.request_id) s.tenants row at
                (ground (
                  arith,
                  find_row-satisfies (is_tenant t) s.tenants row at,
                  eq_iff row.tenant.id t,
                  eq_iff row.tenant.id params.context.tenant.id,
                  at_id,
                )),
            find_row-none (clashes_with params.context.tenant params.request_id) s.tenants
                inv.fresh_tenant,
          ))
    | inr different ↦ different
  ]

selects-apart :
    (t0 user t : String) (e : ℕ)
    → (t0 == t) ≡ false
    → (m : Membership) → selects t0 user e m ≡ true
    → in_tenant t m ≡ false
selects-apart t0 user t e different m h =
    ground (arith, eq_iff m.tenant_id t0, eq_iff m.tenant_id t, eq_iff t0 t)

status-Effect :
    {r : Request} {s s' : Store} (t : String)
    → Effect r s s'
    → status_of t s ≡ some archived
    → status_of t s' ≡ some archived
status-Effect t (none_at_all same _) was = rw same was
status-Effect {s} {s'} t (created params _ inv) was =
    let (row, at, st) = the_row t s s' was in
    rw (inv.tenants_after, find_row-append (is_tenant t) s.tenants (new_row params ∷ []) row at)
      (ap some st)
status-Effect {s} {s'} t (updated params actor inv) was =
    status-update t s s' was _ _ (λ r. refl) (λ r _ st. st) inv.tenants_after
status-Effect {s} {s'} t (archived_now params actor inv) was =
    status-update t s s' was _ _ (λ r. refl) (λ r _ st. refl) inv.tenants_after
status-Effect {s} {s'} t (added params actor inv) was =
    status-update t s s' was _ _ (λ r. refl) (λ r _ st. st) inv.tenants_after
status-Effect {s} {s'} t (role_changed params actor target inv) was =
    status-update t s s' was _ _ (λ r. refl) (λ r _ st. st) inv.tenants_after
status-Effect {s} {s'} t (removed params actor target inv) was =
    status-update t s s' was _ _ (λ r. refl) (λ r _ st. st) inv.tenants_after
status-Effect {s} {s'} t (tenant_settled tenant_id status at after _ _) was =
    status-update t s s' was (settles tenant_id) (settled status at) (λ r. refl)
      (λ r q st. ground arith) after

members-Effect :
    {r : Request} {s s' : Store} (t : String)
    → Effect r s s'
    → IsCoherent r
    → status_of t s ≡ some archived
    → members_of t s' ≡ members_of t s
members-Effect t (none_at_all _ same) ok_request was = rw same
members-Effect {s} {s'} t (created params is_create inv) ok_request was =
    members-append t s s' was params.context.membership
      (rw (subst IsCoherent is_create ok_request) (created_apart t s s' was params inv))
      inv.memberships_after
members-Effect t (updated params actor inv) ok_request was = rw inv.memberships_after
members-Effect t (archived_now params actor inv) ok_request was = rw inv.memberships_after
members-Effect {s} {s'} t (added params actor inv) ok_request was =
    members-append t s s' was params.membership
      (apart t s s' was params.membership.tenant_id params.actor_user_id actor inv.found
        inv.active_tenant)
      inv.memberships_after
members-Effect {s} {s'} t (role_changed params actor target inv) ok_request was =
    members-update t s s' was _ (with_role params.membership) (λ m. refl)
      (selects-apart params.membership.tenant_id params.membership.user_id t
        params.expected_membership_version
        (apart t s s' was params.membership.tenant_id params.actor_user_id actor inv.found
          inv.active_tenant))
      inv.memberships_after
members-Effect {s} {s'} t (removed params actor target inv) ok_request was =
    rw inv.memberships_after (
      keep_if-delete_where (in_tenant t) _ s.memberships (
        selects-apart params.tenant_id params.user_id t params.expected_membership_version (
          apart t s s' was params.tenant_id params.actor_user_id actor inv.found
            inv.active_tenant)))
members-Effect t (tenant_settled tenant_id status at _ same _) ok_request was = rw same

-- For any sequence of requests in which each creation of a tenant comes with a membership of that
-- tenant: a tenant that is archived before it is archived after it, and has the same rows of
-- members.
pub run-archived :
    (rs : List Request) (s : Store) (tenant_id : String)
    → AllCoherent rs
    → status_of tenant_id s ≡ some archived
    → (status_of tenant_id (run rs s) ≡ some archived)
      × (members_of tenant_id (run rs s) ≡ members_of tenant_id s)
unfolding run
run-archived [] s tenant_id all was = (was, refl)
run-archived (r ∷ rs) s tenant_id all was =
    let (later, same) =
      run-archived rs (handle r s).1 tenant_id all.1
        (status-Effect tenant_id (handle-Effect r s) was) in
    (later, same ∙ members-Effect tenant_id (handle-Effect r s) all.0 was)
