-- ===== src/Organization/Agents/Inversion.antt =====
-- What an operation on an agent that succeeded has checked, and the store that it leaves.
use gereh.Prelude.{
  Option-cases, is_some, keep_if, all_of, is_empty, find_row, update_where, ok, Result-cases, Time,
  ◌==◌, String, ◌≡◌, inl, inr, Bool, true, false, ◌&&◌, Option, none, some, [], ◌∷◌, ◌++◌, arith,
  string_eq, nat_eq,
}
use gereh.Organization.Model.{is_active, Company, Agent, AgentRevision}
use gereh.Organization.Store.{
  OrganizationStore, is_company, is_agent, is_revision, insert_outbox, lock_company, query_agent,
  reject_agent_version_or_missing, insert_agent_revision,
}
use gereh.Organization.Agents.{
  CreateAgentParams, UpdateAgentParams, passes_checks, clashes_with, require_manager, inserted,
  insert_agent, create_agent, has_known_manager, is_agent_at, update_row, record_change,
  update_agent_with,
}

-- The row of the revisions that a change adds.
abbrev pub revision_of : Agent → String → String → Time → AgentRevision
revision_of agent change_kind actor_user_id occurred_at = record {
  tenant_id = agent.tenant_id;
  agent_id = agent.id;
  version = agent.version;
  change_kind = change_kind;
  snapshot = agent;
  actor_user_id = actor_user_id;
  occurred_at = occurred_at;
}

abbrev pub is_open : String → String → Company → Bool
is_open tenant_id company_id row = is_company tenant_id company_id row && is_active row.status

-- What the checks of a manager have found: none is given, or an agent of the company.
abbrev pub KnownManager : OrganizationStore → Agent → Option String → Type 0
KnownManager s agent none = Unit {0}
KnownManager s agent (some manager_id) =
    (manager : Agent) × (find_row (is_agent agent.tenant_id manager_id) s.agents ≡ some manager)
    × ((manager.company_id == agent.company_id) ≡ true)

pub record CreatedAgent (params : CreateAgentParams) (s s' : OrganizationStore) : Type 0 where
  pub company_found :
      is_some (find_row (is_open params.agent.tenant_id params.agent.company_id) s.companies) ≡ true
  pub manager_known : KnownManager s params.agent params.agent.manager_agent_id
  pub checked : passes_checks (inserted params.agent) ≡ true
  pub fresh : find_row (clashes_with params.agent) s.agents ≡ none
  pub fresh_revision :
      find_row (is_revision params.agent.tenant_id params.agent.id params.agent.version) s.revisions
      ≡ none
  pub agents_after : s'.agents ≡ s.agents ++ inserted params.agent ∷ []
  pub revisions_after :
      s'.revisions
      ≡ s.revisions
        ++ revision_of params.agent "created" params.actor_user_id params.agent.created_at ∷ []
  pub companies_after : s'.companies ≡ s.companies

require_manager-inv :
    (m : Option String) (agent : Agent) (s s' : OrganizationStore)
    → require_manager m agent s ≡ ok (tt, s')
    → KnownManager s agent m × (s' ≡ s)
unfolding require_manager query_agent
require_manager-inv none agent s s' h = (tt, ground (arith, h))
require_manager-inv (some m) agent s s' h =
    elim (Option-cases (find_row (is_agent agent.tenant_id m) s.agents)) [
      | inl e ↦ absurd (ground (arith, e, h))
      | inr (row, e) ↦ ((row, e, ground (arith, e, h)), ground (arith, e, h))
    ]

pub create_agent-inv :
    (params : CreateAgentParams) (s s' : OrganizationStore) (a : Agent)
    → create_agent params s ≡ (ok a, s')
    → CreatedAgent params s s'
unfolding create_agent lock_company insert_agent insert_agent_revision insert_outbox
create_agent-inv params s s' a h =
    elim (Result-cases (require_manager params.agent.manager_agent_id params.agent s)) [
      | inr (error, e) ↦ absurd (ground (arith, e, h))
      | inl ((u, s1), e) ↦
          let (known, same) =
            require_manager-inv params.agent.manager_agent_id params.agent s s1 e in
          record {
            manager_known = known;
            company_found = ground (arith, e, h);
            checked = ground (arith, e, h);
            fresh = ground (arith, e, h, same);
            fresh_revision = ground (arith, e, h, same);
            agents_after = ground (arith, e, h, same);
            revisions_after = ground (arith, e, h, same);
            companies_after = ground (arith, e, h, same);
          }
    ]

pub record UpdatedAgent (change : Agent → Agent) (params : UpdateAgentParams)
    (s s' : OrganizationStore) : Type 0 where
  pub company_found :
      is_some (find_row (is_open params.agent.tenant_id params.agent.company_id) s.companies) ≡ true
  pub affected :
      is_empty (
        keep_if
          (is_agent_at params.agent.tenant_id params.agent.id params.expected_version)
          s.agents)
      ≡ false
  pub checked :
      all_of
        (λ row. passes_checks (change row) && has_known_manager s'.agents (change row))
        (keep_if
          (is_agent_at params.agent.tenant_id params.agent.id params.expected_version)
          s.agents)
      ≡ true
  pub fresh_revision :
      find_row (is_revision params.agent.tenant_id params.agent.id params.agent.version) s.revisions
      ≡ none
  pub agents_after :
      s'.agents
      ≡ update_where
          (is_agent_at params.agent.tenant_id params.agent.id params.expected_version)
          change
          s.agents
  pub revisions_after :
      s'.revisions
      ≡ s.revisions
        ++ revision_of params.agent params.change_kind params.actor_user_id params.agent.updated_at
          ∷ []
  pub companies_after : s'.companies ≡ s.companies

pub update_agent_with-inv :
    (change : Agent → Agent) (params : UpdateAgentParams) (s s' : OrganizationStore) (a : Agent)
    → update_agent_with change params s ≡ (ok a, s')
    → UpdatedAgent change params s s'
unfolding update_agent_with lock_company update_row record_change insert_agent_revision
    insert_outbox reject_agent_version_or_missing
update_agent_with-inv change params s s' a h = ground (arith, h)
