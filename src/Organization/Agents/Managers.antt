-- ===== src/Organization/Agents/Managers.antt =====
-- What a change of a manager and a deletion that succeeded have checked.
use gereh.Prelude.{
  Option-cases, any_of, find_row, ok, Result-cases, ◌==◌, String, ◌≡◌, inl, inr, false, Option,
  none, some, arith, string_eq, nat_eq,
}
use gereh.Organization.Model.{Agent}
use gereh.Organization.Store.{
  OrganizationStore, is_agent, insert_outbox, lock_company, query_agent,
  reject_agent_version_or_missing, insert_agent_revision,
}
use gereh.Organization.Hierarchy.{hierarchy_would_cycle}
use gereh.Organization.Agents.{
  UpdateAgentParams, require_manager, update_row, with_manager, with_deleted, record_change,
  check_manager, set_agent_manager, reports_to, delete_agent,
}
use gereh.Organization.Agents.Inversion.{KnownManager, UpdatedAgent}

-- What the check of a new manager has found.
abbrev pub CheckedManager : OrganizationStore → Agent → Option String → Type 0
CheckedManager s agent none = Unit {0}
CheckedManager s agent (some manager_id) =
    ((manager_id == agent.id) ≡ false)
    × KnownManager s agent (some manager_id)
    × (hierarchy_would_cycle agent.tenant_id agent.company_id s.agents agent.id manager_id ≡ false)

check_manager-inv :
    (m : Option String) (agent : Agent) (s s' : OrganizationStore)
    → check_manager m agent s ≡ ok (tt, s')
    → CheckedManager s agent m × (s' ≡ s)
unfolding check_manager require_manager query_agent
check_manager-inv none agent s s' h = (tt, ground (arith, h))
check_manager-inv (some m) agent s s' h =
    elim (Option-cases (find_row (is_agent agent.tenant_id m) s.agents)) [
      | inl e ↦ absurd (ground (arith, e, h))
      | inr (row, e) ↦ (
        (ground (arith, e, h), (row, e, ground (arith, e, h)), ground (arith, e, h)),
        ground (arith, e, h),
      )
    ]

pub set_agent_manager-inv :
    (params : UpdateAgentParams) (s s' : OrganizationStore) (a : Agent)
    → set_agent_manager params s ≡ (ok a, s')
    → CheckedManager s params.agent params.agent.manager_agent_id
      × UpdatedAgent (with_manager params.agent) params s s'
unfolding set_agent_manager lock_company update_row record_change insert_agent_revision
    insert_outbox reject_agent_version_or_missing
set_agent_manager-inv params s s' a h =
    elim (Result-cases (check_manager params.agent.manager_agent_id params.agent s)) [
      | inr (error, e) ↦ absurd (ground (arith, e, h))
      | inl ((u, s1), e) ↦
          let (checks, same) =
            check_manager-inv params.agent.manager_agent_id params.agent s s1 e in
          (checks, ground (arith, e, h, same))
    ]

pub delete_agent-inv :
    (params : UpdateAgentParams) (s s' : OrganizationStore) (a : Agent)
    → delete_agent params s ≡ (ok a, s')
    → (any_of (reports_to params.agent) s.agents ≡ false)
      × UpdatedAgent (with_deleted params.agent) params s s'
unfolding delete_agent lock_company update_row record_change insert_agent_revision insert_outbox
    reject_agent_version_or_missing
delete_agent-inv params s s' a h = (ground (arith, h), ground (arith, h))
