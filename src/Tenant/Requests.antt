-- ===== src/Tenant/Requests.antt =====
-- The methods of services/tenant/internal/ports/repository.go that change the store, as requests
-- that reach it one after another: the interface through which the service uses the repository.
pub mod Effects
pub mod Keys
pub mod Owners
pub mod Versions
pub mod Archived
pub mod Lifecycle
use gereh.Prelude.{Result, outcome, List, [], ◌∷◌, string_eq, nat_eq}
use gereh.Tenant.Model.{Error}
use gereh.Tenant.Store.{Store}
use gereh.Tenant.Members.{
  AddMemberParams, UpdateMemberRoleParams, RemoveMemberParams, add_member, update_member_role,
  remove_member,
}
use gereh.Tenant.Tenants.{
  CreateTenantParams, UpdateTenantParams, ArchiveTenantParams, create_tenant, update_tenant,
  archive_tenant,
}
use gereh.Tenant.Onboarding.{
  MarkOnboardingRunningParams, CompleteOnboardingParams, FailOnboardingParams,
  mark_onboarding_running, complete_onboarding, fail_onboarding,
}

pub data Request : Type 0 where
  create : CreateTenantParams → Request
  update : UpdateTenantParams → Request
  archive : ArchiveTenantParams → Request
  add : AddMemberParams → Request
  change_role : UpdateMemberRoleParams → Request
  remove : RemoveMemberParams → Request
  start : MarkOnboardingRunningParams → Request
  complete : CompleteOnboardingParams → Request
  fail : FailOnboardingParams → Request

unfoldable pub handle : Request → Store → Result Error (Unit {0}) × Store
handle (create params) s = outcome (create_tenant params s)
handle (update params) s = outcome (update_tenant params s)
handle (archive params) s = outcome (archive_tenant params s)
handle (add params) s = outcome (add_member params s)
handle (change_role params) s = outcome (update_member_role params s)
handle (remove params) s = outcome (remove_member params s)
handle (start params) s = outcome (mark_onboarding_running params s)
handle (complete params) s = outcome (complete_onboarding params s)
handle (fail params) s = outcome (fail_onboarding params s)

-- A sequence of requests; one that fails ends only its own transaction.
unfoldable pub run : List Request → Store → Store
run [] s = s
run (r ∷ rs) s = run rs (handle r s).1
