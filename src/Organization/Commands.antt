-- ===== src/Organization/Commands.antt =====
-- The methods of services/organization-agent/internal/ports/repository.go that change the store, as
-- commands that reach it one after another.
pub mod Effects
pub mod Rows
pub mod Hierarchies
pub mod Houses
use gereh.Prelude.{Result, outcome, List, [], ◌∷◌, string_eq, nat_eq}
use gereh.Organization.Model.{Error}
use gereh.Organization.Store.{OrganizationStore}
use gereh.Organization.Agents.{
  CreateAgentParams, UpdateAgentParams, create_agent, update_agent, change_agent_status,
  set_agent_manager, delete_agent,
}
use gereh.Organization.Companies.{
  CreateCompanyParams, EnsureDefaultCompanyParams, UpdateCompanyParams, create_company,
  ensure_default_company, update_company, archive_company,
}

pub data Command : Type 0 where
  open_company : CreateCompanyParams → Command
  open_default : EnsureDefaultCompanyParams → Command
  edit_company : UpdateCompanyParams → Command
  close_company : UpdateCompanyParams → Command
  new_agent : CreateAgentParams → Command
  edit_agent : UpdateAgentParams → Command
  move_agent : UpdateAgentParams → Command
  set_status : UpdateAgentParams → Command
  drop_agent : UpdateAgentParams → Command

unfoldable pub execute : Command → OrganizationStore → Result Error (Unit {0}) × OrganizationStore
execute (open_company params) s = outcome (create_company params s)
execute (open_default params) s = outcome (ensure_default_company params s)
execute (edit_company params) s = outcome (update_company params s)
execute (close_company params) s = outcome (archive_company params s)
execute (new_agent params) s = outcome (create_agent params s)
execute (edit_agent params) s = outcome (update_agent params s)
execute (move_agent params) s = outcome (set_agent_manager params s)
execute (set_status params) s = outcome (change_agent_status params s)
execute (drop_agent params) s = outcome (delete_agent params s)

-- A sequence of commands; one that fails changes nothing.
unfoldable pub execute_all : List Command → OrganizationStore → OrganizationStore
execute_all [] s = s
execute_all (c ∷ cs) s = execute_all cs (execute c s).1
