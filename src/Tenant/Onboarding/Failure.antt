-- ===== src/Tenant/Onboarding/Failure.antt =====
-- What a failure of an onboarding that was recorded has checked, and the store that it leaves.
use gereh.Prelude.{
  Option-cases, find_row, update_where, ok, Result-cases, OutboxEvent, ◌≡◌, refl, ◌≢◌, ◌⊎◌, inl,
  inr, some, [], ◌∷◌, ◌++◌, arith, string_eq, nat_eq,
}
use gereh.Tenant.Model.{
  provisioning_failed, Tenant, OperationState, pending, succeeded, failed, Operation,
}
use gereh.Tenant.Store.{Store, Tx, is_tenant, query_tenant, insert_outbox}
use gereh.Tenant.Tenants.{query_operation_by_id}
use gereh.Tenant.Onboarding.{
  FailOnboardingParams, is_unfinished, update_operation, settle_tenant, with_failed, fail_event,
  fail_from, fail_onboarding,
}
use gereh.Tenant.Onboarding.Inversion.{moves, settles, sees, settled}

pub record Failed (params : FailOnboardingParams) (s s' : Store) (o : Operation) (t : Tenant)
    : Type 0 where
  pub was_unfinished :
      (o' : Operation) × (find_row (sees params.tenant_id params.operation_id) s.operations
        ≡ some o')
      × (o'.state ≢ succeeded)
      × (o'.state ≢ failed)
  pub tenants_after :
      s'.tenants
      ≡ update_where
          (settles params.tenant_id)
          (settled provisioning_failed params.failed_at)
          s.tenants
  pub operations_after :
      s'.operations
      ≡ update_where
          (moves params.tenant_id params.operation_id is_unfinished)
          (with_failed params)
          s.operations
  pub operation_found : find_row (sees params.tenant_id params.operation_id) s'.operations ≡ some o
  pub memberships_after : s'.memberships ≡ s.memberships
  pub entitlements_after : s'.entitlements ≡ s.entitlements
  pub event_after : (e : OutboxEvent) × (s'.outbox ≡ s.outbox ++ (params.tenant_id, e) ∷ [])

pub record FailedBefore (params : FailOnboardingParams) (s s' : Store) (o : Operation)
    : Type 0 where
  pub same : s' ≡ s
  pub operation_found : find_row (sees params.tenant_id params.operation_id) s.operations ≡ some o
  pub finished : o.state ≡ failed

abbrev failing : FailOnboardingParams → Store → Store
failing params s = record s {
  tenants =
      update_where (settles params.tenant_id) (settled provisioning_failed params.failed_at)
        s.tenants;
  operations =
      update_where (moves params.tenant_id params.operation_id is_unfinished) (with_failed params)
        s.operations;
}

-- The part of a failure that the states short of an end share.
abbrev fail_now : Operation → FailOnboardingParams → Tx (Operation × Tenant)
fail_now = fail_from pending

module _ (o : Operation) (params : FailOnboardingParams) (s s' : Store) (r : Operation) (t : Tenant)
    (found : find_row (sees params.tenant_id params.operation_id) s.operations ≡ some o) where
  fail-inv :
      o.state ≢ succeeded
      → o.state ≢ failed
      → fail_now o params s ≡ ok ((r, t), s')
      → Failed params s s' r t
  unfolding fail_from settle_tenant update_operation query_operation_by_id query_tenant fail_event
      insert_outbox
  fail-inv not_succeeded not_failed h = elim (Option-cases params.event) [
    | inl e ↦ absurd (ground (arith, e))
    | inr (build, e) ↦
        elim (Option-cases
          (find_row (sees params.tenant_id params.operation_id) (failing params s).operations)) [
            | inl e1 ↦ absurd (ground (arith, e1))
            | inr (o', e1) ↦
                elim (Option-cases
                  (find_row (is_tenant params.tenant_id) (failing params s).tenants)) [
                    | inl e2 ↦ absurd (ground (arith, e1, e2))
                    | inr (row, e2) ↦ elim (Result-cases (build row.tenant o')) [
                      | inl (ev, e3) ↦ record {
                        was_unfinished = (o, found, not_succeeded, not_failed);
                        tenants_after = ground (arith, e, e1, e2, e3);
                        operations_after = ground (arith, e, e1, e2, e3);
                        operation_found = ground (arith, e, e1, e2, e3);
                        memberships_after = ground (arith, e, e1, e2, e3);
                        entitlements_after = ground (arith, e, e1, e2, e3);
                        event_after = (ev, ground (arith, e, e1, e2, e3));
                      }
                      | inr (x, e3) ↦ absurd (ground (arith, e, e1, e2, e3))
                    ]
                  ]
          ]
  ]

  fail_again-inv :
      o.state ≡ failed → fail_from failed o params s ≡ ok ((r, t), s') → FailedBefore params s s' r
  unfolding fail_from query_tenant
  fail_again-inv at h = ground (arith, found)

fail_from-inv :
    (state : OperationState) (o : Operation) (params : FailOnboardingParams) (s s' : Store)
    (r : Operation) (t : Tenant)
    → find_row (sees params.tenant_id params.operation_id) s.operations ≡ some o
    → o.state ≡ state
    → fail_from state o params s ≡ ok ((r, t), s')
    → Failed params s s' r t ⊎ FailedBefore params s s' r
unfolding fail_from
fail_from-inv failed o params s s' r t found at h =
    inr (fail_again-inv o params s s' r t found at h)
fail_from-inv succeeded o params s s' r t found at h = cc
fail_from-inv _ o params s s' r t found at h =
    inl (fail-inv o params s s' r t found (λ e. cc (at, e)) (λ e. cc (at, e)) h)

pub fail_onboarding-inv :
    (params : FailOnboardingParams) (s s' : Store) (r : Operation) (t : Tenant)
    → fail_onboarding params s ≡ (ok (r, t), s')
    → Failed params s s' r t ⊎ FailedBefore params s s' r
unfolding fail_onboarding
fail_onboarding-inv params s s' r t h =
    elim (Option-cases (find_row (sees params.tenant_id params.operation_id) s.operations)) [
      | inl e ↦ absurd (ground (arith, e))
      | inr (o, e) ↦ fail_from-inv o.state o params s s' r t e refl (ground (arith, e))
    ]
