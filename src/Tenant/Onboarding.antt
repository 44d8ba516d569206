-- ===== src/Tenant/Onboarding.antt =====
-- services/tenant/internal/adapters/postgres/onboarding.go: the state of an onboarding operation,
-- moved by the provisioning workflow. Each method is one transaction.
pub mod Inversion
pub mod Failure
pub mod Idempotence
use gereh.Prelude.{
  if◌then◌else◌, count_where, update_where, Result, ok, err, ◌>>=◌, ◌>>◌, pure, throw, throw_if,
  transact, Time, OutboxEvent, ◌==◌, ℕ, ◌+◌, String, Bool, true, false, ◌&&◌, not, Option, none,
  some, string_eq, nat_eq,
}
use gereh.Tenant.Model.{
  Status, provisioning, active, provisioning_failed, Tenant, TenantContext, OperationState, pending,
  running, succeeded, failed, canceled, OperationError, Operation, CreateTenantResult, Error,
  invalid_argument, not_found, invalid_operation_transition, operation_already_completed,
}
use gereh.Tenant.Store.{TenantRow, Store, Tx, is_tenant, query_context, query_tenant, insert_outbox}
use gereh.Tenant.Tenants.{is_operation, is_operation_of, is_operation_by, query_operation_by_id}

pub record MarkOnboardingRunningParams : Type 0 where
  pub service_principal_id : String
  pub tenant_id : String
  pub operation_id : String
  pub workflow_id : String
  pub workflow_run_id : String
  pub started_at : Time
  pub event : OutboxEvent

-- The event is built from the state inside the transaction. It may be missing, and it may fail.
pub record CompleteOnboardingParams : Type 0 where
  pub service_principal_id : String
  pub tenant_id : String
  pub operation_id : String
  pub completed_at : Time
  pub event : Option (TenantContext → Result Error OutboxEvent)

pub record FailOnboardingParams : Type 0 where
  pub service_principal_id : String
  pub tenant_id : String
  pub operation_id : String
  pub failed_at : Time
  pub error : OperationError
  pub event : Option (Tenant → Operation → Result Error OutboxEvent)

abbrev pub is_pending : OperationState → Bool
is_pending pending = true
is_pending _ = false

abbrev pub is_running : OperationState → Bool
is_running running = true
is_running _ = false

abbrev pub is_unfinished : OperationState → Bool
is_unfinished pending = true
is_unfinished running = true
is_unfinished _ = false

abbrev pub is_provisioning : Status → Bool
is_provisioning provisioning = true
is_provisioning _ = false

abbrev pub coalesce : Option Time → Time → Option Time
coalesce none t = some t
coalesce (some u) t = some u

-- UPDATE tenant_onboarding_operations … WHERE tenant_id AND operation_id AND a test of the state
unfoldable pub update_operation :
    String → String → (OperationState → Bool) → (Operation → Operation) → Tx ℕ
update_operation tenant_id operation_id in_state change s =
    let selected = λ (row : Operation).
      is_operation_of tenant_id row && (is_operation operation_id row && in_state row.state) in
    ok (
      count_where selected s.operations,
      record s { operations = update_where selected change s.operations },
    )

-- UPDATE tenant_tenants SET status, version, updated_at WHERE tenant_id AND status = 'provisioning'
unfoldable pub settle_tenant : String → Status → Time → Tx ℕ
settle_tenant tenant_id status at s =
    let selected = λ (r : TenantRow). is_tenant tenant_id r && is_provisioning r.tenant.status in
    ok (
      count_where selected s.tenants,
      record s {
        tenants =
            update_where selected
              (λ r. record r {
                tenant = record (r.tenant) {
                  status = status;
                  version = r.tenant.version + 1;
                  updated_at = at;
                };
              })
              s.tenants;
      },
    )

abbrev pub with_running : MarkOnboardingRunningParams → Operation → Operation
with_running params row = record row {
  state = running;
  workflow_id = params.workflow_id;
  workflow_run_id = params.workflow_run_id;
  version = row.version + 1;
  updated_at = params.started_at;
  started_at = coalesce row.started_at params.started_at;
}

-- What a start that changed no row answers.
unfoldable pub already_started : Operation → OperationState → Tx Operation
already_started operation running = pure operation
already_started operation succeeded = pure operation
already_started operation failed = throw operation_already_completed
already_started operation canceled = throw operation_already_completed
already_started operation _ = throw invalid_operation_transition

unfoldable pub mark_onboarding_running :
    MarkOnboardingRunningParams → Store → Result Error Operation × Store
unfolding update_operation query_operation_by_id already_started insert_outbox
mark_onboarding_running params = transact do
  affected ← update_operation params.tenant_id params.operation_id is_pending (with_running params)
  operation ← query_operation_by_id (is_operation_of params.tenant_id) params.operation_id
  if affected == 0
      then already_started operation operation.state
      else do insert_outbox params.tenant_id params.event; pure operation

abbrev pub with_succeeded : CompleteOnboardingParams → Operation → Operation
with_succeeded params row = record row {
  state = succeeded;
  version = row.version + 1;
  updated_at = params.completed_at;
  completed_at = some params.completed_at;
}

-- The event of a completion, from the context after it.
unfoldable pub complete_event :
    Option (TenantContext → Result Error OutboxEvent) → TenantContext → Tx OutboxEvent
complete_event none context s = err invalid_argument
complete_event (some build) context s = elim (build context) [ ok e ↦ ok (e, s) | err e ↦ err e ]

abbrev pub throw_if_none {ℓ} : {A : Type ℓ} → Option A → Error → Tx (Unit {0})
throw_if_none none e s = err e
throw_if_none (some a) e s = ok (tt, s)

-- The completion, by the state that the operation was read in.
unfoldable pub complete_from :
    OperationState → Operation → CompleteOnboardingParams → Tx CreateTenantResult
complete_from succeeded operation params = do
  context ← query_context params.tenant_id operation.actor_user_id
  pure (record { context = context; operation = operation })
complete_from running operation params = do
  activated ← settle_tenant params.tenant_id active params.completed_at
  throw_if (not (activated == 1)) invalid_operation_transition
  update_operation params.tenant_id params.operation_id is_running (with_succeeded params)
  throw_if_none params.event invalid_argument
  operation' ← query_operation_by_id (is_operation_of params.tenant_id) params.operation_id
  context ← query_context params.tenant_id operation'.actor_user_id
  event ← complete_event params.event context
  insert_outbox params.tenant_id event
  pure (record { context = context; operation = operation' })
complete_from _ operation params = throw invalid_operation_transition

unfoldable pub complete_onboarding :
    CompleteOnboardingParams → Store → Result Error CreateTenantResult × Store
unfolding query_operation_by_id
complete_onboarding params = transact do
  operation ← query_operation_by_id (is_operation_of params.tenant_id) params.operation_id
  complete_from operation.state operation params

abbrev pub with_failed : FailOnboardingParams → Operation → Operation
with_failed params row = record row {
  state = failed;
  error = some params.error;
  version = row.version + 1;
  updated_at = params.failed_at;
  completed_at = some params.failed_at;
}

unfoldable pub fail_event :
    Option (Tenant → Operation → Result Error OutboxEvent) → Tenant → Operation → Tx OutboxEvent
fail_event none tenant operation s = err invalid_argument
fail_event (some build) tenant operation s = elim (build tenant operation) [
  | ok e ↦ ok (e, s)
  | err e ↦ err e
]

-- The failure, by the state that the operation was read in.
unfoldable pub fail_from :
    OperationState → Operation → FailOnboardingParams → Tx (Operation × Tenant)
fail_from failed operation params = do
  tenant ← query_tenant params.tenant_id
  pure (operation, tenant)
fail_from succeeded operation params = throw operation_already_completed
fail_from _ operation params = do
  settle_tenant params.tenant_id provisioning_failed params.failed_at
  update_operation params.tenant_id params.operation_id is_unfinished (with_failed params)
  throw_if_none params.event invalid_argument
  operation' ← query_operation_by_id (is_operation_of params.tenant_id) params.operation_id
  tenant ← query_tenant params.tenant_id
  event ← fail_event params.event tenant operation'
  insert_outbox params.tenant_id event
  pure (operation', tenant)

unfoldable pub fail_onboarding :
    FailOnboardingParams → Store → Result Error (Operation × Tenant) × Store
unfolding query_operation_by_id
fail_onboarding params = transact do
  operation ← query_operation_by_id (is_operation_of params.tenant_id) params.operation_id
  fail_from operation.state operation params

unfoldable pub get_operation : String → String → Store → Result Error Operation × Store
unfolding query_operation_by_id
get_operation actor_user_id operation_id = transact do
  operation ← query_operation_by_id (is_operation_by actor_user_id) operation_id
  throw_if (not (operation.actor_user_id == actor_user_id)) not_found
  pure operation
