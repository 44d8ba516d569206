-- ===== src/Organization/Agents.antt =====
-- services/organization-agent/internal/adapters/postgres/agent.go, with the parameter records of
-- services/organization-agent/internal/ports/repository.go. Each method is one transaction.
pub mod Inversion
pub mod Managers
use gereh.Prelude.{
  if◌then◌else◌, is_some, keep_if, all_of, any_of, is_empty, find_row, update_where, Result, ok,
  err, ◌>>=◌, ◌>>◌, pure, throw_if, transact, Time, OutboxEvent, ◌==◌, ℕ, ◌+◌, String, Bool, true,
  false, ◌&&◌, ◌||◌, not, Option, none, some, List, [], ◌∷◌, ◌++◌, string_eq, nat_eq,
}
use gereh.Organization.Model.{
  deleted, is_deleted, Agent, Error, invalid_argument, conflict, hierarchy_cycle, agent_has_reports,
}
use gereh.Organization.Store.{
  OrganizationStore, Tx, is_agent, is_live, insert_outbox, lock_company, query_agent,
  reject_agent_version_or_missing, insert_agent_revision,
}
use gereh.Organization.Hierarchy.{hierarchy_would_cycle}

pub record CreateAgentParams : Type 0 where
  pub actor_user_id : String
  pub agent : Agent
  pub event : OutboxEvent

pub record UpdateAgentParams : Type 0 where
  pub actor_user_id : String
  pub agent : Agent
  pub expected_version : ℕ
  pub change_kind : String
  pub event : OutboxEvent

abbrev pub is_manager : String → Option String → Bool
is_manager agent_id none = false
is_manager agent_id (some manager_id) = manager_id == agent_id

abbrev pub same_test : Bool → Bool → Bool
same_test true b = b
same_test false b = not b

-- The checks of organization_agents: not its own manager, and deleted exactly with a time of
-- deletion.
abbrev pub passes_checks : Agent → Bool
passes_checks row =
    not (is_manager row.id row.manager_agent_id)
    && same_test (is_deleted row.status) (is_some row.deleted_at)

-- The unique keys: the id in the tenant, the slug in the company.
abbrev pub clashes_with : Agent → Agent → Bool
clashes_with agent row =
    is_agent agent.tenant_id agent.id row
    || (row.tenant_id == agent.tenant_id
        && (row.company_id == agent.company_id && row.slug == agent.slug))

-- The manager of a new agent or the new manager of an agent, if there is one, must be an agent of
-- the company.
abbrev pub is_of_company : String → Agent → Bool
is_of_company company_id row = row.company_id == company_id

unfoldable pub require_manager : Option String → Agent → Tx (Unit {0})
unfolding query_agent
require_manager none agent = pure tt
require_manager (some manager_id) agent = do
  manager ← query_agent agent.tenant_id manager_id
  throw_if (not (is_of_company agent.company_id manager)) invalid_argument

-- The columns of a new row: the time of deletion is not among them.
abbrev pub inserted : Agent → Agent
inserted agent = record agent { deleted_at = none }

-- INSERT INTO organization_agents
unfoldable pub insert_agent : Agent → Tx (Unit {0})
insert_agent agent s =
    if not (passes_checks (inserted agent))
    then err invalid_argument
    else elim (find_row (clashes_with agent) s.agents) [
      | some _ ↦ err conflict
      | none ↦ ok (tt, record s { agents = s.agents ++ inserted agent ∷ [] })
    ]

unfoldable pub create_agent :
    CreateAgentParams → OrganizationStore → Result Error Agent × OrganizationStore
unfolding lock_company require_manager insert_agent insert_agent_revision insert_outbox
create_agent params = transact do
  lock_company params.agent.tenant_id params.agent.company_id
  require_manager params.agent.manager_agent_id params.agent
  insert_agent params.agent
  insert_agent_revision params.agent "created" params.actor_user_id params.agent.created_at
  insert_outbox params.agent.tenant_id params.event
  pure params.agent

unfoldable pub get_agent :
    String → String → OrganizationStore → Result Error Agent × OrganizationStore
unfolding query_agent
get_agent tenant_id agent_id = transact (query_agent tenant_id agent_id)

-- Of the rows that an update gives, none may fail a check of the table, or name a manager that is
-- not an agent of its company.
abbrev pub has_known_manager : List Agent → Agent → Bool
has_known_manager agents row = elim row.manager_agent_id [
  | none ↦ true
  | some manager_id ↦
      any_of (λ m. is_agent row.tenant_id manager_id m && m.company_id == row.company_id) agents
]

-- The WHERE clause of an update.
abbrev pub is_agent_at : String → String → ℕ → Agent → Bool
is_agent_at tenant_id agent_id version row =
    is_agent tenant_id agent_id row && row.version == version

-- UPDATE organization_agents … WHERE tenant_id AND agent_id AND version; if no row was affected,
-- the
-- update is rejected.
unfoldable pub update_row : (Agent → Agent) → UpdateAgentParams → Tx (Unit {0})
unfolding reject_agent_version_or_missing
update_row change params s =
    let selected = is_agent_at params.agent.tenant_id params.agent.id params.expected_version in
    let affected = keep_if selected s.agents in
    let after = update_where selected change s.agents in
    if is_empty affected
    then reject_agent_version_or_missing params.agent.tenant_id params.agent.id s
    else if all_of (λ row. passes_checks (change row) && has_known_manager after (change row))
        affected
    then ok (tt, record s { agents = after })
    else err invalid_argument

abbrev pub bumped : Time → Agent → Agent
bumped at row = record row { version = row.version + 1; updated_at = at }

abbrev pub with_settings : Agent → Agent → Agent
with_settings new row = record row {
  display_name = new.display_name;
  role_title = new.role_title;
  objective = new.objective;
  execution_profile = new.execution_profile;
  autonomy_level = new.autonomy_level;
  capabilities = new.capabilities;
  configuration = new.configuration;
  version = row.version + 1;
  updated_at = new.updated_at;
}

abbrev pub with_manager : Agent → Agent → Agent
with_manager new row = record row {
  manager_agent_id = new.manager_agent_id;
  version = row.version + 1;
  updated_at = new.updated_at;
}

abbrev pub with_status : Agent → Agent → Agent
with_status new row = record row {
  status = new.status;
  version = row.version + 1;
  updated_at = new.updated_at;
}

abbrev pub with_deleted : Agent → Agent → Agent
with_deleted new row = record row {
  status = deleted;
  deleted_at = new.deleted_at;
  version = row.version + 1;
  updated_at = new.updated_at;
}

-- What follows the update: the revision, the event and the answer.
unfoldable pub record_change : UpdateAgentParams → Tx Agent
unfolding insert_agent_revision insert_outbox
record_change params = do
  insert_agent_revision params.agent params.change_kind params.actor_user_id params.agent.updated_at
  insert_outbox params.agent.tenant_id params.event
  pure params.agent

-- `updateAgent`
unfoldable pub update_agent_with :
    (Agent → Agent) → UpdateAgentParams → OrganizationStore → Result Error Agent × OrganizationStore
unfolding lock_company update_row record_change
update_agent_with change params = transact do
  lock_company params.agent.tenant_id params.agent.company_id
  update_row change params
  record_change params

unfoldable pub update_agent :
    UpdateAgentParams → OrganizationStore → Result Error Agent × OrganizationStore
update_agent params = update_agent_with (with_settings params.agent) params

unfoldable pub change_agent_status :
    UpdateAgentParams → OrganizationStore → Result Error Agent × OrganizationStore
change_agent_status params = update_agent_with (with_status params.agent) params

-- The checks of a new manager: not the agent itself, an agent of the company, and no cycle.
unfoldable pub check_manager : Option String → Agent → Tx (Unit {0})
unfolding require_manager hierarchy_would_cycle
check_manager none agent = pure tt
check_manager (some manager_id) agent = do
  throw_if (manager_id == agent.id) hierarchy_cycle
  require_manager (some manager_id) agent
  λ s.
      throw_if (hierarchy_would_cycle agent.tenant_id agent.company_id s.agents agent.id manager_id)
        hierarchy_cycle s

unfoldable pub set_agent_manager :
    UpdateAgentParams → OrganizationStore → Result Error Agent × OrganizationStore
unfolding lock_company check_manager update_row record_change
set_agent_manager params = transact do
  lock_company params.agent.tenant_id params.agent.company_id
  check_manager params.agent.manager_agent_id params.agent
  update_row (with_manager params.agent) params
  record_change params

-- A direct report that is not deleted.
abbrev pub reports_to : Agent → Agent → Bool
reports_to agent row =
    is_live agent.tenant_id agent.company_id row && is_manager agent.id row.manager_agent_id

unfoldable pub delete_agent :
    UpdateAgentParams → OrganizationStore → Result Error Agent × OrganizationStore
unfolding lock_company update_row record_change
delete_agent params = transact do
  lock_company params.agent.tenant_id params.agent.company_id
  λ s. throw_if (any_of (reports_to params.agent) s.agents) agent_has_reports s
  update_row (with_deleted params.agent) params
  record_change params
