-- ===== src/Tenant/Requests/Effects.antt =====
-- What one request can do to the tables of tenants and memberships, whatever its outcome.
use gereh.Tenant.Requests.{
  Request, create, update, archive, add, change_role, remove, start, complete, fail, handle,
}
use gereh.Tenant.Onboarding.{
  MarkOnboardingRunningParams, CompleteOnboardingParams, FailOnboardingParams,
  mark_onboarding_running, complete_onboarding, fail_onboarding,
}
use gereh.Prelude.{
  update_where, Result, ok, err, conclude-err, outcome, Time, String, ◌≡◌, refl, ap, ◌⊎◌, inl, inr,
  string_eq, nat_eq,
}
use gereh.Tenant.Model.{Status, active, provisioning_failed, Membership, TenantContext, Error}
use gereh.Tenant.Store.{Store}
use gereh.Tenant.Members.{
  AddMemberParams, UpdateMemberRoleParams, RemoveMemberParams, add_member, update_member_role,
  remove_member,
}
use gereh.Tenant.Members.Inversion.{
  AddedMember, add_member-inv, UpdatedMember, update_member_role-inv, RemovedMember,
  remove_member-inv,
}
use gereh.Tenant.Tenants.{
  CreateTenantParams, UpdateTenantParams, ArchiveTenantParams, create_tenant, update_tenant,
  archive_tenant,
}
use gereh.Tenant.Tenants.Inversion.{
  UpdatedTenant, update_tenant-inv, ArchivedTenant, archive_tenant-inv, CreatedTenant,
  create_tenant-inv,
}
use gereh.Tenant.Onboarding.Failure.{fail_onboarding-inv}
use gereh.Tenant.Onboarding.Inversion.{
  settles, settled, mark_onboarding_running-inv, complete_onboarding-inv,
}

-- One case for each way to change the two tables.
pub data Effect (r : Request) (s s' : Store) : Type 0 where
  none_at_all : s'.tenants ≡ s.tenants → s'.memberships ≡ s.memberships → Effect r s s'
  created :
      (params : CreateTenantParams) → r ≡ create params → CreatedTenant params s s' → Effect r s s'
  updated :
      (params : UpdateTenantParams) (actor : TenantContext)
      → UpdatedTenant params s s' actor
      → Effect r s s'
  archived_now :
      (params : ArchiveTenantParams) (actor : TenantContext)
      → ArchivedTenant params s s' actor
      → Effect r s s'
  added :
      (params : AddMemberParams) (actor : TenantContext)
      → AddedMember params s s' actor
      → Effect r s s'
  role_changed :
      (params : UpdateMemberRoleParams) (actor : TenantContext) (target : Membership)
      → UpdatedMember params s s' actor target
      → Effect r s s'
  removed :
      (params : RemoveMemberParams) (actor : TenantContext) (target : Membership)
      → RemovedMember params s s' actor target
      → Effect r s s'
  tenant_settled :
      (tenant_id : String) (status : Status) (at : Time)
      → s'.tenants ≡ update_where (settles tenant_id) (settled status at) s.tenants
      → s'.memberships ≡ s.memberships
      → (status ≡ active) ⊎ (status ≡ provisioning_failed)
      → Effect r s s'

-- A method's effect, from its successes and from the rollback of its failures.
by_outcome {ℓ} :
    {A : Type ℓ} (r : Request) (x : Result Error A × Store) (s : Store)
    → ((a : A) → x ≡ (ok a, x.1) → Effect r s x.1)
    → ((e : Error) → x.0 ≡ err e → x.1 ≡ s)
    → Effect r s (outcome x).1
by_outcome r (ok a, s') s success failure = success a refl
by_outcome r (err e, s') s success failure =
    none_at_all (ap (λ (st : Store). st.tenants) (failure e refl))
      (ap (λ (st : Store). st.memberships) (failure e refl))

same-Effect : {r : Request} (s s' : Store) → s' ≡ s → Effect r s s'
same-Effect s s' e =
    none_at_all (ap (λ (st : Store). st.tenants) e) (ap (λ (st : Store). st.memberships) e)

create-Effect :
    (params : CreateTenantParams) (s : Store)
    → Effect (create params) s (handle (create params) s).1
unfolding handle create_tenant
create-Effect params s =
    by_outcome (create params) (create_tenant params s) s
      (λ r h. elim (create_tenant-inv params s (create_tenant params s).1 r h) [
        | inl same ↦ same-Effect s _ same
        | inr c ↦ created params refl c
      ])
      (λ e h. conclude-err _ s e h)

update-Effect :
    (params : UpdateTenantParams) (s : Store)
    → Effect (update params) s (handle (update params) s).1
unfolding handle update_tenant
update-Effect params s =
    by_outcome (update params) (update_tenant params s) s
      (λ r h.
        let (actor, inv) = update_tenant-inv params s (update_tenant params s).1 r h in
        updated params actor inv)
      (λ e h. conclude-err _ s e h)

archive-Effect :
    (params : ArchiveTenantParams) (s : Store)
    → Effect (archive params) s (handle (archive params) s).1
unfolding handle archive_tenant
archive-Effect params s =
    by_outcome (archive params) (archive_tenant params s) s
      (λ r h.
        let (actor, inv) = archive_tenant-inv params s (archive_tenant params s).1 r h in
        archived_now params actor inv)
      (λ e h. conclude-err _ s e h)

add-Effect :
    (params : AddMemberParams) (s : Store) → Effect (add params) s (handle (add params) s).1
unfolding handle add_member
add-Effect params s =
    by_outcome (add params) (add_member params s) s
      (λ r h.
        let (actor, inv) = add_member-inv params s (add_member params s).1 r h in
        added params actor inv)
      (λ e h. conclude-err _ s e h)

change_role-Effect :
    (params : UpdateMemberRoleParams) (s : Store)
    → Effect (change_role params) s (handle (change_role params) s).1
unfolding handle update_member_role
change_role-Effect params s =
    by_outcome (change_role params) (update_member_role params s) s
      (λ r h.
        let (actor, target, inv) =
          update_member_role-inv params s (update_member_role params s).1 r h in
        role_changed params actor target inv)
      (λ e h. conclude-err _ s e h)

remove-Effect :
    (params : RemoveMemberParams) (s : Store)
    → Effect (remove params) s (handle (remove params) s).1
unfolding handle remove_member
remove-Effect params s =
    by_outcome (remove params) (remove_member params s) s
      (λ r h.
        let (actor, target, inv) = remove_member-inv params s (remove_member params s).1 h in
        removed params actor target inv)
      (λ e h. conclude-err _ s e h)

start-Effect :
    (params : MarkOnboardingRunningParams) (s : Store)
    → Effect (start params) s (handle (start params) s).1
unfolding handle mark_onboarding_running
start-Effect params s =
    by_outcome (start params) (mark_onboarding_running params s) s
      (λ r h.
        let inv = mark_onboarding_running-inv params s (mark_onboarding_running params s).1 r h in
        none_at_all inv.tenants_after inv.memberships_after)
      (λ e h. conclude-err _ s e h)

complete-Effect :
    (params : CompleteOnboardingParams) (s : Store)
    → Effect (complete params) s (handle (complete params) s).1
unfolding handle complete_onboarding
complete-Effect params s =
    by_outcome (complete params) (complete_onboarding params s) s
      (λ r h. elim (complete_onboarding-inv params s (complete_onboarding params s).1 r h) [
        | inl c ↦
            tenant_settled params.tenant_id active params.completed_at c.tenants_after
              c.memberships_after (inl refl)
        | inr c ↦ same-Effect s _ c.same
      ])
      (λ e h. conclude-err _ s e h)

fail-Effect :
    (params : FailOnboardingParams) (s : Store) → Effect (fail params) s (handle (fail params) s).1
unfolding handle fail_onboarding
fail-Effect params s =
    by_outcome (fail params) (fail_onboarding params s) s
      (λ r h. elim (fail_onboarding-inv params s (fail_onboarding params s).1 r.0 r.1 h) [
        | inl c ↦
            tenant_settled params.tenant_id provisioning_failed params.failed_at c.tenants_after
              c.memberships_after (inr refl)
        | inr c ↦ same-Effect s _ c.same
      ])
      (λ e h. conclude-err _ s e h)

pub handle-Effect : (r : Request) (s : Store) → Effect r s (handle r s).1
handle-Effect (create params) s = create-Effect params s
handle-Effect (update params) s = update-Effect params s
handle-Effect (archive params) s = archive-Effect params s
handle-Effect (add params) s = add-Effect params s
handle-Effect (change_role params) s = change_role-Effect params s
handle-Effect (remove params) s = remove-Effect params s
handle-Effect (start params) s = start-Effect params s
handle-Effect (complete params) s = complete-Effect params s
handle-Effect (fail params) s = fail-Effect params s
