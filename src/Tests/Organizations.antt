-- ===== src/Tests/Organizations.antt =====
-- A company with three agents, one under the other, reached by commands.
use gereh.Prelude.{
  length, find_row, count_where, update_where, ok, err, OutboxEvent, ℕ, ◌+◌, String, ◌≡◌, refl,
  true, Option, none, some, List, [], ◌∷◌, arith, string_eq, nat_eq,
}
use gereh.Organization.Model.{
  active, archived, draft, deleted, balanced, suggest, Company, Agent, hierarchy_cycle,
  company_has_agents,
}
use gereh.Organization.Store.{OrganizationStore}
use gereh.Organization.Hierarchy.{live_agent, manager_of}
use gereh.Organization.Hierarchy.Forest.{top}
use gereh.Organization.Agents.{
  CreateAgentParams, UpdateAgentParams, create_agent, set_agent_manager, delete_agent,
}
use gereh.Organization.Commands.{
  Command, close_company, new_agent, move_agent, drop_agent, execute, execute_all,
}
use gereh.Organization.Commands.Houses.{AreHoused}
use gereh.Organization.Commands.Houses.Occupied.{execute_all-AreHoused}
use gereh.Organization.Companies.{UpdateCompanyParams, archive_company}
use gereh.Organization.Commands.Hierarchies.{IsSound}

abbrev pub event_of : String → OutboxEvent
event_of event_id = record {
  id = event_id;
  topic = "agents";
  key = "k";
  envelope = [];
  occurred_at = 5;
}

abbrev pub first_company : Company
first_company = record {
  tenant_id = "t1";
  id = "c1";
  slug = "main";
  display_name = "Main";
  description = "";
  status = active;
  is_default = true;
  version = 1;
  created_by_user_id = "u1";
  created_at = 1;
  updated_at = 1;
  archived_at = none;
}

abbrev pub empty_store : OrganizationStore
empty_store = record {
  companies = first_company ∷ [];
  agents = [];
  revisions = [];
  bootstrap_requests = [];
  outbox = [];
}

abbrev pub agent_of : String → Option String → Agent
agent_of agent_id manager_id = record {
  tenant_id = "t1";
  company_id = "c1";
  id = agent_id;
  slug = agent_id;
  display_name = "Agent";
  role_title = "Role";
  objective = "Objective";
  manager_agent_id = manager_id;
  status = draft;
  execution_profile = balanced;
  autonomy_level = suggest;
  capabilities = [];
  configuration = none;
  version = 1;
  created_by_user_id = "u1";
  created_at = 2;
  updated_at = 2;
  deleted_at = none;
}

abbrev pub hire : String → Option String → CreateAgentParams
hire agent_id manager_id = record {
  actor_user_id = "u1";
  agent = agent_of agent_id manager_id;
  event = event_of agent_id;
}

abbrev pub put_under : String → String → ℕ → UpdateAgentParams
put_under agent_id manager_id version = record {
  actor_user_id = "u1";
  agent = record (agent_of agent_id (some manager_id)) { version = version + 1 };
  expected_version = version;
  change_kind = "manager_changed";
  event = event_of "moved";
}

abbrev pub three_hires : List Command
three_hires =
    new_agent (hire "a1" none)
    ∷ new_agent (hire "a2" (some "a1"))
    ∷ new_agent (hire "a3" (some "a2"))
    ∷ []

unfoldable pub staffed : OrganizationStore
unfolding execute_all execute create_agent
staffed = execute_all three_hires empty_store

three_rows : length staffed.agents ≡ 3
unfolding staffed find_row
three_rows = refl

-- The first agent does not come under the third, whose manager's manager it is.
no_circle : (execute (move_agent (put_under "a1" "a3" 1)) staffed).0 ≡ err hierarchy_cycle
unfolding execute set_agent_manager staffed find_row update_where
no_circle = refl

move_up : (execute (move_agent (put_under "a3" "a1" 1)) staffed).0 ≡ ok tt
unfolding execute set_agent_manager staffed find_row update_where
move_up = refl

no_agents-IsSound : IsSound []
unfolding count_where manager_of live_agent find_row
no_agents-IsSound = record {
  consistent = record { one_agent = λ t a. omega arith; checked = refl; known = refl };
  forest = λ t c a. top refl;
}

abbrev close_first : UpdateCompanyParams
close_first = record {
  actor_user_id = "u1";
  company = record first_company { status = archived; archived_at = some 9; version = 2 };
  expected_version = 1;
  event = event_of "closed";
}

-- A company with agents is not archived.
still_open : (execute (close_company close_first) staffed).0 ≡ err company_has_agents
unfolding execute archive_company staffed find_row create_agent
still_open = refl

no_agents-AreHoused : AreHoused empty_store
unfolding find_row
no_agents-AreHoused = record {
  consistent = no_agents-IsSound.consistent;
  housed = λ t a row e live. absurd (ground (arith, e));
}

execute_all-AreHoused_example :
    AreHoused
      (execute_all (new_agent (hire "a1" none) ∷ close_company close_first ∷ []) empty_store)
execute_all-AreHoused_example =
    execute_all-AreHoused (new_agent (hire "a1" none) ∷ close_company close_first ∷ []) empty_store
      no_agents-AreHoused

abbrev delete_first : UpdateAgentParams
delete_first = record (put_under "a1" "none" 1) {
  agent = record (agent_of "a1" none) { status = deleted; deleted_at = some 9; version = 2 };
  event = event_of "deleted";
}

unfoldable abandoned : OrganizationStore
unfolding execute_all
abandoned =
    execute_all
      (new_agent (hire "a1" none) ∷ new_agent (hire "a2" none) ∷ drop_agent delete_first ∷ [])
      empty_store

-- An agent may come under one that is deleted.
under_deleted : (execute (move_agent (put_under "a2" "a1" 1)) abandoned).0 ≡ ok tt
unfolding execute set_agent_manager abandoned execute_all create_agent delete_agent find_row
    update_where
under_deleted = refl
