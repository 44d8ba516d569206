-- ===== src/Organization/Commands/Houses/Occupied.antt =====
-- The companies of the agents under all commands.
use gereh.Prelude.{all_of-find_row, all_of-kept, ◌&&◌, List, [], ◌∷◌, arith, string_eq, nat_eq}
use gereh.Organization.Store.{OrganizationStore, is_agent}
use gereh.Organization.Agents.{
  passes_checks, has_known_manager, with_settings, with_manager, with_status, with_deleted,
}
use gereh.Organization.Agents.Inversion.{is_open}
use gereh.Organization.Companies.{with_description}
use gereh.Organization.Commands.{Command, execute, execute_all}
use gereh.Organization.Commands.Effects.{
  Effect, nothing, company_added, company_edited, company_closed, agent_added, agent_edited,
  agent_moved, status_set, agent_dropped, execute-Effect,
}
use gereh.Organization.Commands.Hierarchies.{settings_keys, status_keys, manager_keys, deleted_keys}
use gereh.Organization.Commands.Houses.{
  AreHoused, open-append, open-update, updated-AreHoused, companies-AreHoused, closed-AreHoused,
  created-AreHoused,
}

Effect-AreHoused : (s s' : OrganizationStore) → Effect s s' → AreHoused s → AreHoused s'
Effect-AreHoused s s' (nothing same) old =
    companies-AreHoused s s' same.agents_after
      (λ t a row e live there. rw same.companies_after there) old
Effect-AreHoused s s' (company_added company inv) old =
    companies-AreHoused s s' inv.agents_after
      (λ t a row e live there.
        rw inv.companies_after (open-append _ s.companies (company ∷ []) there))
      old
Effect-AreHoused s s' (company_edited params inv) old =
    companies-AreHoused s s' inv.agents_after
      (λ t a row e live there. rw inv.companies_after (
        open-update (is_open row.tenant_id row.company_id) _ (with_description params.company)
          s.companies (λ x k sel. k) there))
      old
Effect-AreHoused s s' (company_closed params empty inv) old =
    closed-AreHoused params s s' empty inv old
Effect-AreHoused s s' (agent_added params inv) old = created-AreHoused params s s' inv old
Effect-AreHoused s s' (agent_edited params inv) old =
    updated-AreHoused (with_settings params.agent) (settings_keys params.agent) params s s' inv
      (λ t a row e k live. live) old
Effect-AreHoused s s' (agent_moved params _ inv) old =
    updated-AreHoused (with_manager params.agent) (manager_keys params.agent) params s s' inv
      (λ t a row e k live. live) old
Effect-AreHoused s s' (status_set params inv) old =
    updated-AreHoused (with_status params.agent) (status_keys params.agent) params s s' inv
      (λ t a row e k live.
        let before =
          all_of-find_row passes_checks (is_agent t a) s.agents row old.consistent.checked e in
        let after =
          all_of-kept
            (λ r.
              passes_checks (with_status params.agent r)
              && has_known_manager s'.agents (with_status params.agent r))
            _ (is_agent t a) s.agents row inv.checked e k in
        ground (arith, before, after, live))
      old
Effect-AreHoused s s' (agent_dropped params inv) old =
    updated-AreHoused (with_deleted params.agent) (deleted_keys params.agent) params s s' inv
      (λ t a row e k live. absurd (ground (arith, live))) old

-- If each agent that is not deleted belongs to an active company, and the table of agents passes
-- its constraints, then so it is after any sequence of commands, whether they succeed or fail.
pub execute_all-AreHoused :
    (commands : List Command) (s : OrganizationStore)
    → AreHoused s
    → AreHoused (execute_all commands s)
unfolding execute_all
execute_all-AreHoused [] s old = old
execute_all-AreHoused (c ∷ cs) s old =
    execute_all-AreHoused cs (execute c s).1
      (Effect-AreHoused s (execute c s).1 (execute-Effect c s) old)
