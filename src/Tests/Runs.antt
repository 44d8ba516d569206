-- ===== src/Tests/Runs.antt =====
-- A run of the organization service in which two requests read the same store.
use mathlib.Core.List.{Memᴰ}
use gereh.Prelude.{
  find_row, count_where, update_where, ok, OutboxEvent, String, ◌≡◌, refl, true, none, some, [],
  ◌∷◌, arith, string_eq, nat_eq,
}
use gereh.Tenant.Model.{owner}
use gereh.Tenant.Permissions.{permission_agent_create}
use gereh.Tenant.Authorization.{DenialReason, AuthorizationDecision}
use gereh.Organization.Model.{deleted, balanced, suggest}
use gereh.Organization.Store.{OrganizationStore}
use gereh.Organization.Service.{Environment}
use gereh.Organization.Commands.{new_agent, drop_agent, execute}
use gereh.Organization.Requests.{
  Request, create_agent_as, delete_agent_as, prepare, IsRun, begin, write,
}
use gereh.Tests.Organizations.{empty_store, agent_of}
use gereh.Organization.Validation.{trim_space}
use gereh.Organization.Agents.{CreateAgentParams, UpdateAgentParams, create_agent, delete_agent}
use gereh.Organization.Requests.Later.{IsLater}
use gereh.Organization.Requests.Revisions.{IsRecorded}
use gereh.Organization.Requests.Granted.{prepare-IsGranted}
use gereh.Organization.Requests.Atomic.{IsRun-IsRecorded, Replaced, prepare-Replaced}

abbrev allowed_always : AuthorizationDecision
allowed_always = record {
  allowed = true;
  tenant_id = "t1";
  actor_user_id = "u1";
  permission = permission_agent_create;
  role = owner;
  tenant_version = 1;
  membership_version = 1;
  denial_reason = DenialReason.none;
}

abbrev env_with : String → Environment
env_with fresh_id = record {
  config = record {
    company_event_topic = "companies";
    agent_event_topic = "agents";
    bootstrap_service_principal_id = "s";
  };
  libraries = record {
    is_uuid = λ text. true;
    to_lower = λ text. text;
    encoded_length = λ configuration. none;
  };
  check_authorization = λ u t p. ok (some allowed_always);
  new_id = some fresh_id;
  new_event_id = some fresh_id;
  now = 7;
  trace_id = "";
  correlation_id = "";
  request_id = "";
  marshal_payload = λ payload. some [];
  marshal_envelope = λ envelope. some [];
}

abbrev hiring : String → Request
hiring slug = create_agent_as (record {
  actor_user_id = "u1";
  tenant_id = "t1";
  company_id = "c1";
  slug = slug;
  display_name = "Agent";
  role_title = "Role";
  objective = "Objective";
  manager_agent_id = none;
  execution_profile = balanced;
  autonomy_level = suggest;
  capabilities = [];
  configuration = none;
})

abbrev dismissal : Request
dismissal =
    delete_agent_as
      (record { actor_user_id = "u1"; tenant_id = "t1"; agent_id = "a1"; expected_version = 1 })

abbrev event_by : String → String → OutboxEvent
event_by event_id agent_id = record {
  id = event_id;
  topic = "agents";
  key = agent_id;
  envelope = [];
  occurred_at = 7;
}

abbrev hired : String → String → CreateAgentParams
hired agent_id slug = record {
  actor_user_id = "u1";
  agent = record (agent_of agent_id none) { slug = slug; created_at = 7; updated_at = 7 };
  event = event_by agent_id agent_id;
}

abbrev dismissed : UpdateAgentParams
dismissed = record {
  actor_user_id = "u1";
  agent = record (hired "a1" "one").agent { status = deleted; deleted_at = some 7; version = 2 };
  expected_version = 1;
  change_kind = "deleted";
  event = event_by "e3" "a1";
}

unfoldable with_one : OrganizationStore
unfolding execute
with_one = (execute (new_agent (hired "a1" "one")) empty_store).1

unfoldable with_two : OrganizationStore
unfolding execute
with_two = (execute (new_agent (hired "a2" "two")) with_one).1

first_sent :
    prepare (env_with "a1") (hiring "one") empty_store
    ≡ ok (some (new_agent (hired "a1" "one")), empty_store)
unfolding prepare trim_space
first_sent = refl

second_sent :
    prepare (env_with "a2") (hiring "two") empty_store
    ≡ ok (some (new_agent (hired "a2" "two")), empty_store)
unfolding prepare trim_space
second_sent = refl

third_sent : prepare (env_with "e3") dismissal with_one ≡ ok (some (drop_agent dismissed), with_one)
unfolding prepare trim_space with_one find_row create_agent
third_sent = refl

third_succeeds : (execute (drop_agent dismissed) with_two).0 ≡ ok tt
unfolding execute with_two with_one find_row update_where delete_agent create_agent
third_succeeds = refl

nothing-IsRecorded : IsRecorded empty_store.agents empty_store.revisions
unfolding count_where find_row
nothing-IsRecorded = record {
  consistent = record { one_agent = λ t a. omega arith; checked = refl; known = refl };
  covered = λ t a row e version low high. absurd (ground (arith, e));
  latest = λ t a row e. absurd (ground (arith, e));
}

-- The second request has read the store before the first wrote.
interleaved : IsRun empty_store (with_two ∷ with_one ∷ empty_store ∷ [])
unfolding with_two with_one
interleaved =
    write (env_with "a2") (hiring "two") (new_agent (hired "a2" "two"))
      (write (env_with "a1") (hiring "one") (new_agent (hired "a1" "one")) begin (Memᴰ.head refl)
        first_sent)
      (Memᴰ.tail (Memᴰ.head refl)) second_sent

IsRun-IsRecorded_example :
    IsRecorded with_two.agents with_two.revisions
    × ((read : OrganizationStore)
        → Memᴰ read (with_two ∷ with_one ∷ empty_store ∷ [])
        → IsLater read.agents with_two.agents)
IsRun-IsRecorded_example =
    IsRun-IsRecorded empty_store with_two (with_one ∷ empty_store ∷ []) interleaved
      nothing-IsRecorded

-- The third has read between the two, and deletes an agent that is a draft.
prepare-Replaced_example :
    Replaced dismissal dismissed.agent with_two (execute (drop_agent dismissed) with_two).1
prepare-Replaced_example =
    prepare-Replaced empty_store with_one with_two (with_one ∷ empty_store ∷ []) (env_with "e3")
      dismissal (drop_agent dismissed) nothing-IsRecorded interleaved (Memᴰ.tail (Memᴰ.head refl))
      third_sent third_succeeds dismissed.agent refl

prepare-IsGranted_example :
    (decision : AuthorizationDecision) × ((env_with "a1").check_authorization "u1" "t1"
        permission_agent_create
      ≡ ok (some decision))
    × (decision.allowed ≡ true)
prepare-IsGranted_example =
    prepare-IsGranted (env_with "a1") (hiring "one") empty_store empty_store
      (new_agent (hired "a1" "one")) first_sent
