-- ===== src/Organization/Requests.antt =====
-- The methods of services/organization-agent/internal/application that change the store, as
-- requests.
-- Each reads and checks first, and then writes in a transaction of its own: between the two, other
-- requests may write.
pub mod Prepared
pub mod Sent
pub mod Later
pub mod Revisions
pub mod Runs
pub mod Atomic
pub mod Granted
use mathlib.Core.List.{List, Memᴰ}
use gereh.Prelude.{
  Result, ok, ◌>>=◌, pure, ℕ, String, ◌≡◌, ◌⊎◌, inl, inr, Bool, true, not, Option, none, some, [],
  ◌∷◌, string_eq, nat_eq,
}
use gereh.Organization.Validation.{can_pause, can_resume, can_delete}
use gereh.Organization.Model.{is_deleted, Company, Agent, Error}
use gereh.Organization.Store.{OrganizationStore, Tx}
use gereh.Organization.Commands.{
  Command, open_company, open_default, edit_company, close_company, new_agent, edit_agent,
  move_agent, set_status, drop_agent, execute,
}
use gereh.Organization.Companies.{UpdateCompanyParams}
use gereh.Organization.Service.{Environment, perform}
use gereh.Organization.Service.AgentRequests.{
  CreateAgentInput, UpdateAgentInput, SetAgentManagerInput, LifecycleInput, prepare_create_agent,
  prepare_update_agent, prepare_set_agent_manager, prepare_pause_agent, prepare_resume_agent,
  prepare_delete_agent,
}
use gereh.Organization.Service.CompanyRequests.{
  CreateCompanyInput, UpdateCompanyInput, EnsureDefaultCompanyInput, prepare_create_company,
  prepare_update_company, prepare_archive_company, prepare_ensure_default_company,
}

pub data Request : Type 0 where
  create_agent_as : CreateAgentInput → Request
  update_agent_as : UpdateAgentInput → Request
  set_agent_manager_as : SetAgentManagerInput → Request
  pause_agent_as : LifecycleInput → Request
  resume_agent_as : LifecycleInput → Request
  delete_agent_as : LifecycleInput → Request
  create_company_as : CreateCompanyInput → Request
  update_company_as : UpdateCompanyInput → Request
  archive_company_as : String → String → String → ℕ → Request
  ensure_default_company_as : EnsureDefaultCompanyInput → Request

-- A request that answers without writing has no command.
abbrev pub archiving : Company ⊎ UpdateCompanyParams → Option Command
archiving (inl company) = none
archiving (inr params) = some (close_company params)

abbrev pub then_send {ℓ} : {P : Type ℓ} → Tx P → (P → Option Command) → Tx (Option Command)
then_send prepare command = prepare >>= λ params. pure (command params)

-- The reads and checks of a request, and the command that it sends to the repository.
unfoldable pub prepare : Environment → Request → Tx (Option Command)
unfolding prepare_create_agent prepare_update_agent prepare_set_agent_manager prepare_pause_agent
    prepare_resume_agent prepare_delete_agent prepare_create_company prepare_update_company
    prepare_archive_company prepare_ensure_default_company
prepare env (create_agent_as input) =
    then_send (prepare_create_agent env input) (λ params. some (new_agent params))
prepare env (update_agent_as input) =
    then_send (prepare_update_agent env input) (λ params. some (edit_agent params))
prepare env (set_agent_manager_as input) =
    then_send (prepare_set_agent_manager env input) (λ params. some (move_agent params))
prepare env (pause_agent_as input) =
    then_send (prepare_pause_agent env input) (λ params. some (set_status params))
prepare env (resume_agent_as input) =
    then_send (prepare_resume_agent env input) (λ params. some (set_status params))
prepare env (delete_agent_as input) =
    then_send (prepare_delete_agent env input) (λ params. some (drop_agent params))
prepare env (create_company_as input) =
    then_send (prepare_create_company env input) (λ params. some (open_company params))
prepare env (update_company_as input) =
    then_send (prepare_update_company env input) (λ params. some (edit_company params))
prepare env (archive_company_as actor_user_id tenant_id company_id expected_version) =
    then_send (prepare_archive_company env actor_user_id tenant_id company_id expected_version)
      archiving
prepare env (ensure_default_company_as input) =
    then_send (prepare_ensure_default_company env input) (λ params. some (open_default params))

unfoldable pub execute_if :
    Option Command → OrganizationStore → Result Error (Unit {0}) × OrganizationStore
unfolding execute
execute_if none s = (ok tt, s)
execute_if (some command) s = execute command s

-- A request that no other comes between.
unfoldable pub handle_request :
    Environment → Request → OrganizationStore → Result Error (Unit {0}) × OrganizationStore
unfolding prepare perform
handle_request env request = perform (prepare env request) execute_if

-- The stores that a sequence of requests has left, the last first. Each write was prepared in one
-- of
-- them.
pub data IsRun (first : OrganizationStore) : List OrganizationStore → Type 0 where
  begin : IsRun first (first ∷ [])
  write :
      {s read : OrganizationStore} {before : List OrganizationStore} (env : Environment)
      (request : Request) (command : Command)
      → IsRun first (s ∷ before)
      → Memᴰ read (s ∷ before)
      → prepare env request read ≡ ok (some command, read)
      → IsRun first ((execute command s).1 ∷ s ∷ before)

-- The states in which a request may change the agent that it names.
unfoldable pub admits : Request → Agent → Bool
unfolding can_pause can_resume can_delete
admits (pause_agent_as input) current = can_pause current.status
admits (resume_agent_as input) current = can_resume current.status
admits (delete_agent_as input) current = can_delete current.status
admits (update_agent_as input) current = not (is_deleted current.status)
admits (set_agent_manager_as input) current = not (is_deleted current.status)
admits _ current = true
