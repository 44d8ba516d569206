-- ===== src/Tenant/Members/Owners.antt =====
-- A tenant that has an owner keeps one.
use gereh.Prelude.{
  Bool-cases, count_where, count_where-append, count_where_mono, count_where-update_where_ge,
  count_where-update_where_both, count_where-delete_where_both, count_where-found,
  length-map-keep_if, count_where-never, ◌==◌, ℕ, ◌+◌, ◌≤◌, ◌<◌, String, ◌≡◌, ap, inl, inr, true,
  false, ◌&&◌, [], ◌∷◌, ◌++◌, arith, eq_iff, string_eq, nat_eq,
}
use gereh.Tenant.Model.{is_owner, Membership, TenantContext}
use gereh.Tenant.Store.{Store, is_tenant, is_member}
use gereh.Tenant.Members.{UpdateMemberRoleParams, RemoveMemberParams, is_owner_of, selects}
use gereh.Tenant.Members.Inversion.{UpdatedMember, RemovedMember}

unfoldable pub owners : String → Store → ℕ
owners tenant_id s = count_where (is_owner_of tenant_id) s.memberships

pub owners-same :
    (t : String) (s s' : Store) → s'.memberships ≡ s.memberships → 0 < owners t s → 0 < owners t s'
unfolding owners
owners-same t s s' same h = rw same h

pub owners-grown :
    (t : String) (s s' : Store) (m : Membership)
    → s'.memberships ≡ s.memberships ++ m ∷ []
    → 0 < owners t s
    → 0 < owners t s'
unfolding owners
owners-grown t s s' m after h =
    rw after (omega (arith, count_where-append (is_owner_of t) s.memberships (m ∷ [])))

-- No two rows have one key.
pub record HasKeys (s : Store) : Type 0 where
  pub one_membership :
      (tenant_id user_id : String) → count_where (is_member tenant_id user_id) s.memberships ≤ 1
  pub one_tenant : (tenant_id : String) → count_where (is_tenant tenant_id) s.tenants ≤ 1

module _ (params : UpdateMemberRoleParams) (s s' : Store) (actor : TenantContext)
    (target : Membership) (inv : UpdatedMember params s s' actor target) (t : String) where
  -- A member that becomes or stays an owner takes no owner away.
  owners-promote : is_owner params.membership.role ≡ true → owners t s ≤ owners t s'
  unfolding owners
  owners-promote e =
      rw inv.memberships_after
        (count_where-update_where_ge _ _ _ s.memberships (λ x q p. ground arith))

  -- Of the rows that the update touches, those that were owners of `t`.
  touched : ℕ
  touched =
      count_where
        (λ row.
          selects params.membership.tenant_id params.membership.user_id
            params.expected_membership_version row
          && is_owner_of t row)
        s.memberships

  owners-touched : owners t s ≤ owners t s' + touched
  unfolding owners touched
  owners-touched = rw inv.memberships_after (count_where-update_where_both _ _ _ s.memberships)

  -- A change of a member that is no owner takes none away.
  touched-spare : HasKeys s → is_owner target.role ≡ false → touched ≡ 0
  unfolding touched
  touched-spare keys e = omega (
    arith,
    count_where_mono
        (λ row.
          selects params.membership.tenant_id params.membership.user_id
            params.expected_membership_version row
          && is_owner_of t row)
        (λ row.
          is_member params.membership.tenant_id params.membership.user_id row && is_owner row.role)
        s.memberships (λ x k. ground arith),
    count_where-found (is_member params.membership.tenant_id params.membership.user_id)
        (λ row. is_owner row.role) s.memberships target inv.found_target (keys.one_membership _ _)
        e,
  )

  pub touched-none :
      HasKeys s
      → is_owner target.role ≡ false
      → count_where
          (λ row.
            selects params.membership.tenant_id params.membership.user_id
              params.expected_membership_version row
            && is_owner_of t row)
          s.memberships
        ≡ 0
  unfolding touched
  touched-none = touched-spare

  touched-le : touched ≤ 1
  unfolding touched
  touched-le = omega (
    arith,
    inv.one_row,
    count_where_mono
        (λ row.
          selects params.membership.tenant_id params.membership.user_id
            params.expected_membership_version row
          && is_owner_of t row)
        (selects params.membership.tenant_id params.membership.user_id
          params.expected_membership_version)
        s.memberships (λ x k. ground arith),
  )

  touched-elsewhere : (params.membership.tenant_id == t) ≡ false → touched ≡ 0
  unfolding touched
  touched-elsewhere e = count_where-never _ s.memberships (λ x. ground (
    arith,
    eq_iff x.tenant_id t,
    eq_iff x.tenant_id params.membership.tenant_id,
    eq_iff params.membership.tenant_id t,
  ))

  -- The transaction has seen another owner.
  owners-before :
      is_owner target.role ≡ true
      → is_owner params.membership.role ≡ false
      → 2 ≤ owners params.membership.tenant_id s
  unfolding owners
  owners-before was will = ground (
    arith,
    inv.owner_kept (rw (was, will)),
    length-map-keep_if (is_owner_of params.membership.tenant_id) (λ m. m.user_id) s.memberships,
  )

  owners-demote :
      is_owner target.role ≡ true
      → is_owner params.membership.role ≡ false
      → 0 < owners t s
      → 0 < owners t s'
  owners-demote was will h = elim (Bool-cases (params.membership.tenant_id == t)) [
    | inl same ↦ omega (
      arith,
      owners-touched,
      touched-le,
      owners-before was will,
      ap (λ i. owners i s) ((eq_iff params.membership.tenant_id t).0 same),
    )
    | inr apart ↦ omega (arith, owners-touched, touched-elsewhere apart)
  ]

  pub owners-updated : HasKeys s → 0 < owners t s → 0 < owners t s'
  owners-updated keys h = elim (Bool-cases (is_owner params.membership.role)) [
    | inl promoted ↦ omega (arith, owners-promote promoted)
    | inr demoted ↦ elim (Bool-cases (is_owner target.role)) [
      | inl was ↦ owners-demote was demoted h
      | inr was_not ↦ omega (arith, owners-touched, touched-spare keys was_not)
    ]
  ]

module _ (params : RemoveMemberParams) (s s' : Store) (actor : TenantContext) (target : Membership)
    (inv : RemovedMember params s s' actor target) (t : String) where
  -- Of the rows that the deletion removes, those that were owners of `t`.
  deleted : ℕ
  deleted =
      count_where
        (λ row.
          selects params.tenant_id params.user_id params.expected_membership_version row
          && is_owner_of t row)
        s.memberships

  owners-deleted : owners t s ≤ owners t s' + deleted
  unfolding owners deleted
  owners-deleted = rw inv.memberships_after (count_where-delete_where_both _ _ s.memberships)

  deleted-spare : HasKeys s → is_owner target.role ≡ false → deleted ≡ 0
  unfolding deleted
  deleted-spare keys e = omega (
    arith,
    count_where_mono
        (λ row.
          selects params.tenant_id params.user_id params.expected_membership_version row
          && is_owner_of t row)
        (λ row. is_member params.tenant_id params.user_id row && is_owner row.role) s.memberships
        (λ x k. ground arith),
    count_where-found (is_member params.tenant_id params.user_id) (λ row. is_owner row.role)
        s.memberships target inv.found_target (keys.one_membership _ _) e,
  )

  pub deleted-none :
      HasKeys s
      → is_owner target.role ≡ false
      → count_where
          (λ row.
            selects params.tenant_id params.user_id params.expected_membership_version row
            && is_owner_of t row)
          s.memberships
        ≡ 0
  unfolding deleted
  deleted-none = deleted-spare

  deleted-le : deleted ≤ 1
  unfolding deleted
  deleted-le = omega (
    arith,
    inv.one_row,
    count_where_mono
        (λ row.
          selects params.tenant_id params.user_id params.expected_membership_version row
          && is_owner_of t row)
        (selects params.tenant_id params.user_id params.expected_membership_version) s.memberships
        (λ x k. ground arith),
  )

  deleted-elsewhere : (params.tenant_id == t) ≡ false → deleted ≡ 0
  unfolding deleted
  deleted-elsewhere e = count_where-never _ s.memberships (λ x.
      ground (
        arith,
        eq_iff x.tenant_id t,
        eq_iff x.tenant_id params.tenant_id,
        eq_iff params.tenant_id t,
      ))

  owners-seen : is_owner target.role ≡ true → 2 ≤ owners params.tenant_id s
  unfolding owners
  owners-seen was = ground (
    arith,
    inv.owner_kept was,
    length-map-keep_if (is_owner_of params.tenant_id) (λ m. m.user_id) s.memberships,
  )

  owners-removed_owner : is_owner target.role ≡ true → 0 < owners t s → 0 < owners t s'
  owners-removed_owner was h = elim (Bool-cases (params.tenant_id == t)) [
    | inl same ↦ omega (
      arith,
      owners-deleted,
      deleted-le,
      owners-seen was,
      ap (λ i. owners i s) ((eq_iff params.tenant_id t).0 same),
    )
    | inr apart ↦ omega (arith, owners-deleted, deleted-elsewhere apart)
  ]

  pub owners-removed : HasKeys s → 0 < owners t s → 0 < owners t s'
  owners-removed keys h = elim (Bool-cases (is_owner target.role)) [
    | inl was ↦ owners-removed_owner was h
    | inr was_not ↦ omega (arith, owners-deleted, deleted-spare keys was_not)
  ]
