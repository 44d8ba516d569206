-- ===== src/Tests/Data.antt =====
-- A store with three members of one tenant, and requests that reach it.
use gereh.Prelude.{OutboxEvent, ℕ, String, none, some, [], ◌∷◌, string_eq, nat_eq}
use gereh.Tenant.Model.{
  Status, active, Role, owner, admin, member, viewer, Tenant, Membership, Entitlements, running,
  Operation,
}
use gereh.Tenant.Store.{Store}
use gereh.Tenant.Members.{UpdateMemberRoleParams, RemoveMemberParams}
use gereh.Tenant.Tenants.{ArchiveTenantParams}

abbrev pub tenant_at : Status → ℕ → Tenant
tenant_at status version = record {
  id = "t1";
  slug = "acme";
  display_name = "Acme";
  status = status;
  region = "eu";
  retention_days = 30;
  version = version;
  created_by_user_id = "u1";
  created_at = 1;
  updated_at = 1;
  archived_at = none;
}

abbrev pub member_as : String → Role → Membership
member_as user_id role = record {
  tenant_id = "t1";
  user_id = user_id;
  role = role;
  version = 1;
  created_by = "u1";
  created_at = 1;
  updated_at = 1;
}

abbrev pub free_plan : Entitlements
free_plan = record {
  tenant_id = "t1";
  plan_key = "free";
  features = [];
  limits = [];
  version = 1;
  updated_at = 1;
}

abbrev pub onboarding : Operation
onboarding = record {
  id = "o1";
  tenant_id = "t1";
  actor_user_id = "u1";
  request_id = "r1";
  state = running;
  resource_name = "tenants/t1";
  workflow_id = "w1";
  workflow_run_id = "";
  error = none;
  metadata = [];
  version = 2;
  created_at = 1;
  updated_at = 1;
  started_at = some 1;
  completed_at = none;
}

abbrev pub event_of : String → OutboxEvent
event_of id = record { id = id; topic = "tenants"; key = "t1"; envelope = []; occurred_at = 2 }

abbrev pub store_at : Status → Store
store_at status = record {
  tenants = record { tenant = tenant_at status 4; creation_request_id = "r1" } ∷ [];
  memberships = member_as "u1" owner ∷ member_as "u2" admin ∷ member_as "u3" viewer ∷ [];
  entitlements = free_plan ∷ [];
  operations = onboarding ∷ [];
  outbox = [];
}

-- The only owner asks to leave, and an admin promotes the viewer.
abbrev pub leave : RemoveMemberParams
leave = record {
  actor_user_id = "u1";
  tenant_id = "t1";
  user_id = "u1";
  previous_role = owner;
  expected_membership_version = 1;
  expected_tenant_version = 4;
  new_tenant_version = 5;
  event = event_of "e1";
}

abbrev pub promote : UpdateMemberRoleParams
promote = record {
  actor_user_id = "u2";
  membership = member_as "u3" member;
  previous_role = viewer;
  expected_membership_version = 1;
  expected_tenant_version = 4;
  new_tenant_version = 5;
  event = event_of "e2";
}

abbrev pub dismiss : RemoveMemberParams
dismiss = record leave { actor_user_id = "u2"; user_id = "u3" }

abbrev pub close : ArchiveTenantParams
close = record {
  actor_user_id = "u1";
  tenant = tenant_at active 5;
  expected_version = 4;
  event = event_of "e3";
}
