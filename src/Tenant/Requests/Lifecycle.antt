-- ===== src/Tenant/Requests/Lifecycle.antt =====
-- The states that a tenant goes through.
use mathlib.Core.Option.{some-injective}
use gereh.Prelude.{
  Bool-cases, Option-cases, find_row, update_where, find_row-update_where, find_row-append, Time,
  ◌==◌, String, ◌≡◌, refl, sym, ap, subst, ◌⊎◌, inl, inr, Bool, true, some, List, [], ◌∷◌, arith,
  string_eq, nat_eq,
}
use gereh.Tenant.Model.{Status, provisioning, active, provisioning_failed, archived}
use gereh.Tenant.Store.{TenantRow, Store, is_tenant}
use gereh.Tenant.Requests.Archived.{status_of}
use gereh.Tenant.Tenants.Inversion.{new_row}
use gereh.Tenant.Onboarding.Inversion.{settles, settled}
use gereh.Tenant.Requests.{Request, handle, run}
use gereh.Tenant.Requests.Effects.{
  Effect, none_at_all, created, updated, archived_now, added, role_changed, removed, tenant_settled,
  handle-Effect,
}

-- One change of a tenant's status.
pub data Step : Status → Status → Type 0 where
  stays : (a : Status) → Step a a
  activated : Step provisioning active
  gave_up : Step provisioning provisioning_failed
  closed : (a : Status) → Step a archived

-- Any number of changes, one after another.
pub data Steps : Status → Status → Type 0 where
  arrived : (a : Status) → Steps a a
  moved : (a b c : Status) → Step a b → Steps b c → Steps a c

-- What becomes of the status of a tenant in a store.
abbrev Next : String → Status → Store → Type 0
Next t a s' = (b : Status) × (status_of t s' ≡ some b) × Step a b

module _ (t : String) (s s' : Store) (a : Status) (was : status_of t s ≡ some a) where
  row_of :
      (row : TenantRow) × (find_row (is_tenant t) s.tenants ≡ some row) × (row.tenant.status ≡ a)
  row_of = elim (Option-cases (find_row (is_tenant t) s.tenants)) [
    | inl e ↦ cc (rw e at was)
    | inr (row, e) ↦ (row, e, some-injective _ _ (rw e at was))
  ]

  kept : s'.tenants ≡ s.tenants → Next t a s'
  kept same = (a, rw same was, stays a)

  changed :
      (q : TenantRow → Bool) (f : TenantRow → TenantRow)
      → ((r : TenantRow) → (f r).tenant.id ≡ r.tenant.id)
      → ((r : TenantRow) → q r ≡ true → Step r.tenant.status (f r).tenant.status)
      → s'.tenants ≡ update_where q f s.tenants
      → Next t a s'
  changed q f same_id step after =
      let (row, at, st) = row_of in
      let later =
        find_row-update_where (is_tenant t) q f s.tenants (λ r. ap (λ i. i == t) (same_id r)) in
      elim (Bool-cases (q row)) [
        | inl hit ↦ (
          (f row).tenant.status,
          ground (arith, after, later, at, hit),
          subst (λ x. Step x (f row).tenant.status) st (step row hit),
        )
        | inr miss ↦ (a, ground (arith, after, later, at, miss, st), stays a)
      ]

settled-Step :
    (tenant_id : String) (status : Status) (at : Time)
    → (status ≡ active) ⊎ (status ≡ provisioning_failed)
    → (r : TenantRow) → settles tenant_id r ≡ true
    → Step r.tenant.status status
settled-Step tenant_id status at (inl ends) r h =
    subst (λ x. Step r.tenant.status x) (sym ends)
      (subst (λ x. Step x active) (sym (ground (arith, h))) activated)
settled-Step tenant_id status at (inr ends) r h =
    subst (λ x. Step r.tenant.status x) (sym ends)
      (subst (λ x. Step x provisioning_failed) (sym (ground (arith, h))) gave_up)

Next-Effect :
    {r : Request} {s s' : Store} (t : String) (a : Status)
    → Effect r s s'
    → status_of t s ≡ some a
    → Next t a s'
Next-Effect {s} {s'} t a (none_at_all same _) was = kept t s s' a was same
Next-Effect {s} {s'} t a (created params _ inv) was =
    let (row, at, st) = row_of t s s' a was in
    (
      a,
      rw (inv.tenants_after, find_row-append (is_tenant t) s.tenants (new_row params ∷ []) row at)
          (ap some st),
      stays a,
    )
Next-Effect {s} {s'} t a (updated params actor inv) was =
    changed t s s' a was _ _ (λ r. refl) (λ r _. stays r.tenant.status) inv.tenants_after
Next-Effect {s} {s'} t a (archived_now params actor inv) was =
    changed t s s' a was _ _ (λ r. refl) (λ r _. closed r.tenant.status) inv.tenants_after
Next-Effect {s} {s'} t a (added params actor inv) was =
    changed t s s' a was _ _ (λ r. refl) (λ r _. stays r.tenant.status) inv.tenants_after
Next-Effect {s} {s'} t a (role_changed params actor target inv) was =
    changed t s s' a was _ _ (λ r. refl) (λ r _. stays r.tenant.status) inv.tenants_after
Next-Effect {s} {s'} t a (removed params actor target inv) was =
    changed t s s' a was _ _ (λ r. refl) (λ r _. stays r.tenant.status) inv.tenants_after
Next-Effect {s} {s'} t a (tenant_settled tenant_id status at after _ ends) was =
    changed t s s' a was (settles tenant_id) (settled status at) (λ r. refl)
      (settled-Step tenant_id status at ends) after

-- For any sequence of requests, a tenant that is in the store before it is in the store after it,
-- and its status has gone only from provisioning to active or to failed, and from any state to
-- archived.
pub run-Steps :
    (rs : List Request) (s : Store) (tenant_id : String) (a : Status)
    → status_of tenant_id s ≡ some a
    → (b : Status) × (status_of tenant_id (run rs s) ≡ some b) × Steps a b
unfolding run
run-Steps [] s tenant_id a was = (a, was, arrived a)
run-Steps (r ∷ rs) s tenant_id a was =
    let (b, is, step) = Next-Effect tenant_id a (handle-Effect r s) was in
    let (c, ends, steps) = run-Steps rs (handle r s).1 tenant_id b is in
    (c, ends, moved a b c step steps)
