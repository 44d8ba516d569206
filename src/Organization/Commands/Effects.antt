-- ===== src/Organization/Commands/Effects.antt =====
-- What a command does to the tables, whatever its outcome.
use gereh.Prelude.{any_of, conclude-err, outcome_by, ◌≡◌, refl, inl, inr, false, string_eq, nat_eq}
use gereh.Organization.Model.{Company}
use gereh.Organization.Store.{OrganizationStore, is_live}
use gereh.Organization.Agents.{
  CreateAgentParams, UpdateAgentParams, create_agent, with_settings, with_manager, with_status,
  with_deleted, update_agent_with, update_agent, change_agent_status, set_agent_manager,
  delete_agent,
}
use gereh.Organization.Agents.Inversion.{
  CreatedAgent, create_agent-inv, UpdatedAgent, update_agent_with-inv,
}
use gereh.Organization.Agents.Managers.{CheckedManager, set_agent_manager-inv, delete_agent-inv}
use gereh.Organization.Companies.{
  UpdateCompanyParams, create_company, ensure_default_company, with_description,
  with_company_archived, update_company, archive_company,
}
use gereh.Organization.Companies.Inversion.{
  AddedCompany, create_company-inv, SameCompanies, ensure_default_company-inv, ChangedCompany,
  update_company-inv, archive_company-inv,
}
use gereh.Organization.Commands.{
  Command, open_company, open_default, edit_company, close_company, new_agent, edit_agent,
  move_agent, set_status, drop_agent, execute,
}

pub data Effect (s s' : OrganizationStore) : Type 0 where
  nothing : SameCompanies s s' → Effect s s'
  company_added : (company : Company) → AddedCompany company s s' → Effect s s'
  company_edited :
      (params : UpdateCompanyParams)
      → ChangedCompany (with_description params.company) params s s'
      → Effect s s'
  company_closed :
      (params : UpdateCompanyParams)
      → any_of (is_live params.company.tenant_id params.company.id) s.agents ≡ false
      → ChangedCompany (with_company_archived params.company) params s s'
      → Effect s s'
  agent_added : (params : CreateAgentParams) → CreatedAgent params s s' → Effect s s'
  agent_edited :
      (params : UpdateAgentParams)
      → UpdatedAgent (with_settings params.agent) params s s'
      → Effect s s'
  agent_moved :
      (params : UpdateAgentParams)
      → CheckedManager s params.agent params.agent.manager_agent_id
      → UpdatedAgent (with_manager params.agent) params s s'
      → Effect s s'
  status_set :
      (params : UpdateAgentParams)
      → UpdatedAgent (with_status params.agent) params s s'
      → Effect s s'
  agent_dropped :
      (params : UpdateAgentParams)
      → UpdatedAgent (with_deleted params.agent) params s s'
      → Effect s s'

unchanged : (s : OrganizationStore) → Effect s s
unchanged s =
    nothing (record { companies_after = refl; agents_after = refl; revisions_after = refl })

pub execute-Effect : (c : Command) (s : OrganizationStore) → Effect s (execute c s).1
unfolding execute create_company ensure_default_company update_company archive_company create_agent
    update_agent change_agent_status update_agent_with set_agent_manager delete_agent
execute-Effect (open_company params) s =
    outcome_by (Effect s) (create_company params s) s
      (λ r h. company_added params.company (create_company-inv params s _ r h))
      (λ e h. conclude-err _ s e h) (unchanged s)
execute-Effect (open_default params) s =
    outcome_by (Effect s) (ensure_default_company params s) s
      (λ r h. elim (ensure_default_company-inv params s _ r h) [
        | inl added ↦ company_added params.company added
        | inr same ↦ nothing same
      ])
      (λ e h. conclude-err _ s e h) (unchanged s)
execute-Effect (edit_company params) s =
    outcome_by (Effect s) (update_company params s) s
      (λ r h. company_edited params (update_company-inv params s _ r h))
      (λ e h. conclude-err _ s e h) (unchanged s)
execute-Effect (close_company params) s =
    outcome_by (Effect s) (archive_company params s) s
      (λ r h.
        let (unused, found, changed) = archive_company-inv params s _ r h in
        company_closed params unused changed)
      (λ e h. conclude-err _ s e h) (unchanged s)
execute-Effect (new_agent params) s =
    outcome_by (Effect s) (create_agent params s) s
      (λ r h. agent_added params (create_agent-inv params s _ r h)) (λ e h. conclude-err _ s e h)
      (unchanged s)
execute-Effect (edit_agent params) s =
    outcome_by (Effect s) (update_agent params s) s
      (λ r h.
        agent_edited params (update_agent_with-inv (with_settings params.agent) params s _ r h))
      (λ e h. conclude-err _ s e h) (unchanged s)
execute-Effect (move_agent params) s =
    outcome_by (Effect s) (set_agent_manager params s) s
      (λ r h.
        let (checks, updated) = set_agent_manager-inv params s _ r h in
        agent_moved params checks updated)
      (λ e h. conclude-err _ s e h) (unchanged s)
execute-Effect (set_status params) s =
    outcome_by (Effect s) (change_agent_status params s) s
      (λ r h. status_set params (update_agent_with-inv (with_status params.agent) params s _ r h))
      (λ e h. conclude-err _ s e h) (unchanged s)
execute-Effect (drop_agent params) s =
    outcome_by (Effect s) (delete_agent params s) s
      (λ r h.
        let (unused, updated) = delete_agent-inv params s _ r h in agent_dropped params updated)
      (λ e h. conclude-err _ s e h) (unchanged s)
