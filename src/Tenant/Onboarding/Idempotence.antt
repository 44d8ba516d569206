-- ===== src/Tenant/Onboarding/Idempotence.antt =====
-- A finished onboarding is final: repeating the completion changes nothing and answers the same,
-- and a later failure is refused.
use gereh.Prelude.{
  find_row, find_row-satisfies, find_row-update_where, ok, err, ◌≡◌, refl, inl, inr, some, arith,
  string_eq, nat_eq,
}
use gereh.Tenant.Model.{succeeded, CreateTenantResult, operation_already_completed}
use gereh.Tenant.Store.{Store, find_context, query_context}
use gereh.Tenant.Onboarding.{
  CompleteOnboardingParams, FailOnboardingParams, is_running, with_succeeded, complete_from,
  complete_onboarding, fail_from, fail_onboarding,
}
use gereh.Tenant.Onboarding.Inversion.{moves, sees, Completed, complete_onboarding-inv}

-- What a completion leaves to be found.
record IsDone (params : CompleteOnboardingParams) (s : Store) (r : CreateTenantResult)
    : Type 0 where
  operation_found :
      find_row (sees params.tenant_id params.operation_id) s.operations ≡ some r.operation
  finished : r.operation.state ≡ succeeded
  context_found : find_context params.tenant_id r.operation.actor_user_id s ≡ some r.context

Completed-IsDone :
    (params : CompleteOnboardingParams) (s s' : Store) (r : CreateTenantResult)
    → Completed params s s' r
    → IsDone params s' r
Completed-IsDone params s s' r c =
    let (o, found, was) = c.was_running in
    let after =
      find_row-update_where (sees params.tenant_id params.operation_id)
        (moves params.tenant_id params.operation_id is_running) (with_succeeded params) s.operations
        (λ x. refl) in
    let fits =
      find_row-satisfies (sees params.tenant_id params.operation_id) s.operations o found in
    record {
      operation_found = c.operation_found;
      finished = ground (arith, c.operation_found, c.operations_after, after, found, was, fits);
      context_found = c.context_found;
    }

complete-IsDone :
    (params : CompleteOnboardingParams) (s s' : Store) (r : CreateTenantResult)
    → complete_onboarding params s ≡ (ok r, s')
    → IsDone params s' r
complete-IsDone params s s' r h = elim (complete_onboarding-inv params s s' r h) [
  | inl c ↦ Completed-IsDone params s s' r c
  | inr c ↦ rw c.same (record {
    operation_found = c.operation_found;
    finished = c.finished;
    context_found = c.context_found;
  })
]

-- If completing the onboarding of an operation succeeds, the operation is in the state succeeded,
-- completing it again from the store then reached answers the same and changes nothing, and a
-- failure reported for the same operation is refused as already completed and changes nothing.
pub complete_onboarding-final :
    (params : CompleteOnboardingParams) (failure : FailOnboardingParams) (s s' : Store)
    (r : CreateTenantResult)
    → complete_onboarding params s ≡ (ok r, s')
    → failure.tenant_id ≡ params.tenant_id
    → failure.operation_id ≡ params.operation_id
    → (r.operation.state ≡ succeeded)
      × (complete_onboarding params s' ≡ (ok r, s'))
      × (fail_onboarding failure s' ≡ (err operation_already_completed, s'))
unfolding complete_onboarding complete_from query_context fail_onboarding fail_from
complete_onboarding-final params failure s s' r h same_tenant same_operation =
    let done = complete-IsDone params s s' r h in
    (
      done.finished,
      rw (done.operation_found, done.finished, done.context_found),
      rw (same_tenant, same_operation, done.operation_found, done.finished),
    )
