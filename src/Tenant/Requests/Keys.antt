-- ===== src/Tenant/Requests/Keys.antt =====
-- The keys of the tables of tenants and memberships stay unique.
use native.Mathlib.Nat.{le_trans}
use gereh.Prelude.{
  Bool-cases, find_row, count_where, update_where, count_where-append, count_where_mono,
  count_where-update_where_same, count_where-delete_where_le, find_row-none, ◌==◌, ◌≤◌, String, ◌≡◌,
  refl, ap, inl, inr, Bool, none, List, [], ◌∷◌, ◌++◌, arith, eq_iff, string_eq, nat_eq,
}
use gereh.Tenant.Model.{Membership}
use gereh.Tenant.Store.{TenantRow, Store, is_tenant, is_member}
use gereh.Tenant.Members.{with_role}
use gereh.Tenant.Members.Owners.{HasKeys}
use gereh.Tenant.Tenants.{CreateTenantParams, clashes_with}
use gereh.Tenant.Tenants.Inversion.{new_row}
use gereh.Tenant.Requests.{Request, handle}
use gereh.Tenant.Requests.Effects.{
  Effect, none_at_all, created, updated, archived_now, added, role_changed, removed, tenant_settled,
  handle-Effect,
}

abbrev OneMembership : List Membership → Type 0
OneMembership rows = (t u : String) → count_where (is_member t u) rows ≤ 1

abbrev OneTenant : List TenantRow → Type 0
OneTenant rows = (t : String) → count_where (is_tenant t) rows ≤ 1

-- A new key is used once.
OneMembership-append :
    (rows : List Membership) (m : Membership)
    → find_row (is_member m.tenant_id m.user_id) rows ≡ none
    → OneMembership rows
    → OneMembership (rows ++ m ∷ [])
unfolding count_where
OneMembership-append rows m fresh one t u = elim (Bool-cases (is_member t u m)) [
  | inl hit ↦
      let at_t : m.tenant_id ≡ t = (eq_iff m.tenant_id t).0 (ground arith) in
      let at_u : m.user_id ≡ u = (eq_iff m.user_id u).0 (ground arith) in
      let unused : count_where (is_member t u) rows ≡ 0 =
        rw (← at_t, ← at_u) (find_row-none (is_member m.tenant_id m.user_id) rows fresh) in
      ground (arith, count_where-append (is_member t u) rows (m ∷ []), unused)
  | inr miss ↦ ground (arith, count_where-append (is_member t u) rows (m ∷ []), one t u)
]

OneTenant-append :
    (rows : List TenantRow) (row : TenantRow)
    → count_where (is_tenant row.tenant.id) rows ≡ 0
    → OneTenant rows
    → OneTenant (rows ++ row ∷ [])
unfolding count_where
OneTenant-append rows row fresh one t = elim (Bool-cases (is_tenant t row)) [
  | inl hit ↦
      let at_t : row.tenant.id ≡ t = (eq_iff row.tenant.id t).0 hit in
      let unused : count_where (is_tenant t) rows ≡ 0 = rw (← at_t) fresh in
      ground (arith, count_where-append (is_tenant t) rows (row ∷ []), unused)
  | inr miss ↦ ground (arith, count_where-append (is_tenant t) rows (row ∷ []), one t)
]

OneTenant-update :
    (rows : List TenantRow) (q : TenantRow → Bool) (f : TenantRow → TenantRow)
    → ((r : TenantRow) → (f r).tenant.id ≡ r.tenant.id)
    → OneTenant rows
    → OneTenant (update_where q f rows)
OneTenant-update rows q f same one t =
    rw (count_where-update_where_same (is_tenant t) q f rows (λ r _. ap (λ i. i == t) (same r)))
      (one t)

unused_id :
    (params : CreateTenantParams) (rows : List TenantRow)
    → find_row (clashes_with params.context.tenant params.request_id) rows ≡ none
    → count_where (is_tenant params.context.tenant.id) rows ≡ 0
unused_id params rows fresh = omega (
  arith,
  find_row-none (clashes_with params.context.tenant params.request_id) rows fresh,
  count_where_mono (is_tenant params.context.tenant.id)
      (clashes_with params.context.tenant params.request_id) rows (λ r h. ground arith),
)

tenants-Effect :
    {r : Request} {s s' : Store} → Effect r s s' → OneTenant s.tenants → OneTenant s'.tenants
tenants-Effect (none_at_all same _) one = rw same one
tenants-Effect {s} (created params _ inv) one =
    rw inv.tenants_after (
      OneTenant-append s.tenants (new_row params) (unused_id params s.tenants inv.fresh_tenant) one)
tenants-Effect {s} (updated params actor inv) one =
    rw inv.tenants_after (OneTenant-update s.tenants _ _ (λ r. refl) one)
tenants-Effect {s} (archived_now params actor inv) one =
    rw inv.tenants_after (OneTenant-update s.tenants _ _ (λ r. refl) one)
tenants-Effect {s} (added params actor inv) one =
    rw inv.tenants_after (OneTenant-update s.tenants _ _ (λ r. refl) one)
tenants-Effect {s} (role_changed params actor target inv) one =
    rw inv.tenants_after (OneTenant-update s.tenants _ _ (λ r. refl) one)
tenants-Effect {s} (removed params actor target inv) one =
    rw inv.tenants_after (OneTenant-update s.tenants _ _ (λ r. refl) one)
tenants-Effect {s} (tenant_settled tenant_id status at after _ _) one =
    rw after (OneTenant-update s.tenants _ _ (λ r. refl) one)

memberships-Effect :
    {r : Request} {s s' : Store}
    → Effect r s s'
    → OneMembership s.memberships
    → OneMembership s'.memberships
memberships-Effect (none_at_all _ same) one = rw same one
memberships-Effect {s} (created params _ inv) one =
    rw inv.memberships_after
      (OneMembership-append s.memberships params.context.membership inv.fresh_membership one)
memberships-Effect (updated params actor inv) one = rw inv.memberships_after one
memberships-Effect (archived_now params actor inv) one = rw inv.memberships_after one
memberships-Effect {s} (added params actor inv) one =
    rw inv.memberships_after (OneMembership-append s.memberships params.membership inv.fresh one)
memberships-Effect {s} (role_changed params actor target inv) one = rw inv.memberships_after (λ t u.
    rw
      (count_where-update_where_same (is_member t u) _ (with_role params.membership) s.memberships
        (λ x _. refl))
      (one t u))
memberships-Effect {s} (removed params actor target inv) one =
    rw inv.memberships_after
      (λ t u. le_trans (count_where-delete_where_le (is_member t u) _ s.memberships) (one t u))
memberships-Effect (tenant_settled tenant_id status at _ same _) one = rw same one

-- Every request, whatever its outcome, leaves the keys unique if they were.
pub handle-HasKeys : (r : Request) (s : Store) → HasKeys s → HasKeys (handle r s).1
handle-HasKeys r s keys = record {
  one_membership = memberships-Effect (handle-Effect r s) keys.one_membership;
  one_tenant = tenants-Effect (handle-Effect r s) keys.one_tenant;
}
