-- ===== src/Tests/Onboarding.antt =====
-- An onboarding that is completed, completed again, and reported as failed.
use gereh.Prelude.{
  find_row, count_where, update_where, ok, err, ◌≡◌, refl, false, none, some, [], string_eq, nat_eq,
}
use gereh.Tenant.Model.{
  provisioning, active, owner, succeeded, CreateTenantResult, operation_already_completed,
}
use gereh.Tenant.Store.{Store, find_context, query_context, insert_outbox}
use gereh.Tenant.Tenants.{query_operation_by_id}
use gereh.Tenant.Onboarding.{
  CompleteOnboardingParams, FailOnboardingParams, update_operation, settle_tenant, complete_event,
  complete_from, complete_onboarding, fail_onboarding,
}
use gereh.Tenant.Onboarding.Idempotence.{complete_onboarding-final}
use gereh.Tests.Data.{tenant_at, member_as, free_plan, onboarding, event_of, store_at}

abbrev finish : CompleteOnboardingParams
finish = record {
  service_principal_id = "sp";
  tenant_id = "t1";
  operation_id = "o1";
  completed_at = 9;
  event = some (λ context. ok (event_of "e9"));
}

abbrev give_up : FailOnboardingParams
give_up = record {
  service_principal_id = "sp";
  tenant_id = "t1";
  operation_id = "o1";
  failed_at = 10;
  error = record { code = "TIMEOUT"; message = "no answer"; retryable = false; details = "{}" };
  event = none;
}

abbrev completion : CreateTenantResult
completion = record {
  context = record {
    tenant = record (tenant_at active 5) { updated_at = 9 };
    membership = member_as "u1" owner;
    entitlements = free_plan;
    permissions = [];
  };
  operation = record onboarding {
    state = succeeded;
    version = 3;
    updated_at = 9;
    completed_at = some 9;
  };
}

abbrev finished : Store
finished = (complete_onboarding finish (store_at provisioning)).1

finishes : complete_onboarding finish (store_at provisioning) ≡ (ok completion, finished)
unfolding complete_onboarding query_context complete_from settle_tenant update_operation
    complete_event find_context insert_outbox query_operation_by_id find_row count_where
    update_where
finishes = refl

complete_onboarding-final_example :
    (completion.operation.state ≡ succeeded)
    × (complete_onboarding finish finished ≡ (ok completion, finished))
    × (fail_onboarding give_up finished ≡ (err operation_already_completed, finished))
complete_onboarding-final_example =
    complete_onboarding-final finish give_up (store_at provisioning) finished completion finishes
      refl refl
