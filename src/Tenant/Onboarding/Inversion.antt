-- ===== src/Tenant/Onboarding/Inversion.antt =====
-- What an onboarding transition that succeeded has checked, and the store that it leaves.
use gereh.Prelude.{
  Option-cases, find_row, count_where, update_where, ok, Result-cases, Time, OutboxEvent, ◌+◌,
  String, ◌≡◌, refl, sym, ap, ◌∙◌, ◌⊎◌, inl, inr, Bool, ◌&&◌, some, [], ◌∷◌, ◌++◌, arith, string_eq,
  nat_eq,
}
use gereh.Tenant.Model.{
  Status, active, TenantContext, OperationState, pending, running, succeeded, failed, canceled,
  Operation, CreateTenantResult,
}
use gereh.Tenant.Store.{
  TenantRow, Store, is_tenant, find_context, query_context, insert_outbox, find_context-same,
}
use gereh.Tenant.Tenants.{is_operation, is_operation_of, query_operation_by_id}
use gereh.Tenant.Onboarding.{
  MarkOnboardingRunningParams, CompleteOnboardingParams, is_pending, is_running, is_provisioning,
  update_operation, settle_tenant, with_running, already_started, mark_onboarding_running,
  with_succeeded, complete_event, complete_from, complete_onboarding,
}

-- The WHERE clauses of the transitions.
abbrev pub moves : String → String → (OperationState → Bool) → Operation → Bool
moves tenant_id operation_id in_state row =
    is_operation_of tenant_id row && (is_operation operation_id row && in_state row.state)

abbrev pub settles : String → TenantRow → Bool
settles tenant_id r = is_tenant tenant_id r && is_provisioning r.tenant.status

-- How the transitions find the operation.
abbrev pub sees : String → String → Operation → Bool
sees tenant_id operation_id row = is_operation_of tenant_id row && is_operation operation_id row

abbrev pub settled : Status → Time → TenantRow → TenantRow
settled status at r = record r {
  tenant = record (r.tenant) { status = status; version = r.tenant.version + 1; updated_at = at };
}

pub record Started (params : MarkOnboardingRunningParams) (s s' : Store) (o : Operation)
    : Type 0 where
  pub operations_after :
      s'.operations
      ≡ update_where
          (moves params.tenant_id params.operation_id is_pending)
          (with_running params)
          s.operations
  pub operation_found : find_row (sees params.tenant_id params.operation_id) s'.operations ≡ some o
  pub tenants_after : s'.tenants ≡ s.tenants
  pub memberships_after : s'.memberships ≡ s.memberships
  pub entitlements_after : s'.entitlements ≡ s.entitlements
  pub outcome :
      ((count_where (moves params.tenant_id params.operation_id is_pending) s.operations ≡ 0)
        × (s'.outbox ≡ s.outbox)
        × ((o.state ≡ running) ⊎ (o.state ≡ succeeded)))
      ⊎ (s'.outbox ≡ s.outbox ++ (params.tenant_id, params.event) ∷ [])

already_started-inv :
    (o r : Operation) (state : OperationState) (s s' : Store)
    → already_started o state s ≡ ok (r, s')
    → (r ≡ o) × (s' ≡ s) × ((state ≡ running) ⊎ (state ≡ succeeded))
unfolding already_started
already_started-inv o r state s s' h = ground arith

pub mark_onboarding_running-inv :
    (params : MarkOnboardingRunningParams) (s s' : Store) (o : Operation)
    → mark_onboarding_running params s ≡ (ok o, s')
    → Started params s s' o
unfolding mark_onboarding_running
mark_onboarding_running-inv params s s' o h = ground arith

pub record Completed (params : CompleteOnboardingParams) (s s' : Store) (r : CreateTenantResult)
    : Type 0 where
  pub was_running :
      (o : Operation) × (find_row (sees params.tenant_id params.operation_id) s.operations ≡ some o)
      × (o.state ≡ running)
  pub one_tenant : count_where (settles params.tenant_id) s.tenants ≡ 1
  pub tenants_after :
      s'.tenants
      ≡ update_where (settles params.tenant_id) (settled active params.completed_at) s.tenants
  pub operations_after :
      s'.operations
      ≡ update_where
          (moves params.tenant_id params.operation_id is_running)
          (with_succeeded params)
          s.operations
  pub operation_found :
      find_row (sees params.tenant_id params.operation_id) s'.operations ≡ some r.operation
  pub memberships_after : s'.memberships ≡ s.memberships
  pub entitlements_after : s'.entitlements ≡ s.entitlements
  pub event_after : (e : OutboxEvent) × (s'.outbox ≡ s.outbox ++ (params.tenant_id, e) ∷ [])
  pub context_found : find_context params.tenant_id r.operation.actor_user_id s' ≡ some r.context

-- A repeated completion only reads.
pub record CompletedBefore (params : CompleteOnboardingParams) (s s' : Store)
    (r : CreateTenantResult) : Type 0 where
  pub same : s' ≡ s
  pub operation_found :
      find_row (sees params.tenant_id params.operation_id) s.operations ≡ some r.operation
  pub finished : r.operation.state ≡ succeeded
  pub context_found : find_context params.tenant_id r.operation.actor_user_id s ≡ some r.context

again :
    (o : Operation) (params : CompleteOnboardingParams) (s s' : Store) (r : CreateTenantResult)
    → find_row (sees params.tenant_id params.operation_id) s.operations ≡ some o
    → o.state ≡ succeeded
    → (c : TenantContext) → find_context params.tenant_id o.actor_user_id s ≡ some c
    → r ≡ record { context = c; operation = o }
    → s' ≡ s
    → CompletedBefore params s s' r
again o params s s' r found at c e result same =
    rw result (record { same = same; operation_found = found; finished = at; context_found = e })

-- The store of a completion before its event is recorded.
abbrev pub completing : CompleteOnboardingParams → Store → Store
completing params s = record s {
  tenants = update_where (settles params.tenant_id) (settled active params.completed_at) s.tenants;
  operations =
      update_where (moves params.tenant_id params.operation_id is_running) (with_succeeded params)
        s.operations;
}

module _ (o : Operation) (params : CompleteOnboardingParams) (s s' : Store) (r : CreateTenantResult)
    (found : find_row (sees params.tenant_id params.operation_id) s.operations ≡ some o) where
  complete-inv :
      o.state ≡ running → complete_from running o params s ≡ ok (r, s') → Completed params s s' r
  unfolding complete_from settle_tenant update_operation query_operation_by_id query_context
      complete_event insert_outbox
  complete-inv at h = elim (Option-cases params.event) [
    | inl e ↦ absurd (ground (arith, e))
    | inr (build, e) ↦
        elim (Option-cases
          (find_row (sees params.tenant_id params.operation_id) (completing params s).operations)) [
            | inl e1 ↦ absurd (ground (arith, e1))
            | inr (o', e1) ↦
                elim (Option-cases
                  (find_context params.tenant_id o'.actor_user_id (completing params s))) [
                    | inl e2 ↦ absurd (ground (arith, e1, e2))
                    | inr (c, e2) ↦ elim (Result-cases (build c)) [
                      | inl (ev, e3) ↦ record {
                        was_running = (o, found, at);
                        one_tenant = ground (arith, e, e1, e2, e3);
                        tenants_after = ground (arith, e, e1, e2, e3);
                        operations_after = ground (arith, e, e1, e2, e3);
                        operation_found = ground (arith, e, e1, e2, e3);
                        memberships_after = ground (arith, e, e1, e2, e3);
                        entitlements_after = ground (arith, e, e1, e2, e3);
                        context_found =
                            let op : r.operation ≡ o' = ground (arith, e, e1, e2, e3) in
                            let ctx : r.context ≡ c = ground (arith, e, e1, e2, e3) in
                            find_context-same params.tenant_id r.operation.actor_user_id
                              (completing params s) s' (ground (arith, e, e1, e2, e3))
                              (ground (arith, e, e1, e2, e3)) (ground (arith, e, e1, e2, e3))
                            ∙ (ap
                                  (λ (x : Operation).
                                    find_context params.tenant_id x.actor_user_id
                                      (completing params s))
                                  op
                                ∙ (e2 ∙ ap some (sym ctx)));
                        event_after = (ev, ground (arith, e, e1, e2, e3));
                      }
                      | inr (x, e3) ↦ absurd (ground (arith, e, e1, e2, e3))
                    ]
                  ]
          ]
  ]

  complete_again-inv :
      o.state ≡ succeeded
      → complete_from succeeded o params s ≡ ok (r, s')
      → CompletedBefore params s s' r
  unfolding complete_from query_context
  complete_again-inv at h = elim (Option-cases (find_context params.tenant_id o.actor_user_id s)) [
    | inl e ↦ absurd (ground (arith, e))
    | inr (c, e) ↦ again o params s s' r found at c e (ground (arith, e)) (ground (arith, e))
  ]

complete_from-inv :
    (state : OperationState) (o : Operation) (params : CompleteOnboardingParams) (s s' : Store)
    (r : CreateTenantResult)
    → find_row (sees params.tenant_id params.operation_id) s.operations ≡ some o
    → o.state ≡ state
    → complete_from state o params s ≡ ok (r, s')
    → Completed params s s' r ⊎ CompletedBefore params s s' r
unfolding complete_from
complete_from-inv running o params s s' r found at h = inl (complete-inv o params s s' r found at h)
complete_from-inv succeeded o params s s' r found at h =
    inr (complete_again-inv o params s s' r found at h)
complete_from-inv pending o params s s' r found at h = cc
complete_from-inv failed o params s s' r found at h = cc
complete_from-inv canceled o params s s' r found at h = cc
complete_from-inv (OperationState.other x) o params s s' r found at h = cc

pub complete_onboarding-inv :
    (params : CompleteOnboardingParams) (s s' : Store) (r : CreateTenantResult)
    → complete_onboarding params s ≡ (ok r, s')
    → Completed params s s' r ⊎ CompletedBefore params s s' r
unfolding complete_onboarding
complete_onboarding-inv params s s' r h =
    elim (Option-cases (find_row (sees params.tenant_id params.operation_id) s.operations)) [
      | inl e ↦ absurd (ground (arith, e))
      | inr (o, e) ↦ complete_from-inv o.state o params s s' r e refl (ground (arith, e))
    ]
