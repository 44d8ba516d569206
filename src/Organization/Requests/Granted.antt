-- ===== src/Organization/Requests/Granted.antt =====
-- What the tenant service has said of the actor when a request sends its command.
use gereh.Prelude.{
  Bool-cases, Result, ok, err, ◌>>=◌, continue-inv, String, ◌≡◌, refl, inl, inr, true, Option, none,
  some, List, [], ◌∷◌, arith, string_eq, nat_eq,
}
use gereh.Tenant.Permissions.{
  Permission, permission_company_create, permission_company_update, permission_company_archive,
  permission_agent_create, permission_agent_update, permission_agent_delete,
  permission_agent_hierarchy_manage, permission_agent_lifecycle_manage,
}
use gereh.Tenant.Authorization.{AuthorizationDecision}
use gereh.Organization.Validation.{validate_uuids}
use gereh.Organization.Model.{Company, Agent, hierarchy_cycle}
use gereh.Organization.Store.{OrganizationStore, Tx}
use gereh.Organization.Service.{Environment, read_decision, authorize}
use gereh.Organization.Service.AgentRequests.{
  CreateAgentInput, SetAgentManagerInput, to_list, prepare_create_agent, read_agent,
  prepare_update_agent, prepare_set_agent_manager, prepare_pause_agent, prepare_resume_agent,
  prepare_delete_agent,
}
use gereh.Organization.Service.CompanyRequests.{
  CreateCompanyInput, prepare_create_company, read_company, prepare_update_company,
  prepare_archive_company,
}
use gereh.Organization.Requests.{
  Request, create_agent_as, update_agent_as, set_agent_manager_as, pause_agent_as, resume_agent_as,
  delete_agent_as, create_company_as, update_company_as, archive_company_as,
  ensure_default_company_as, archiving, prepare,
}
use gereh.Organization.Requests.Prepared.{lift-inv, throw_if-inv}
use gereh.Organization.Agents.{CreateAgentParams, UpdateAgentParams, is_manager}
use gereh.Organization.Companies.{CreateCompanyParams}
use gereh.Organization.Commands.{
  Command, open_company, edit_company, new_agent, edit_agent, move_agent, set_status, drop_agent,
}
use gereh.Organization.Requests.Sent.{then_send-inv}

-- The actor, the tenant and the permission that a request is for; the bootstrap of a tenant, which
-- a service asks for, has none.
abbrev pub permission_of : Request → Option (String × String × Permission)
permission_of (create_agent_as input) =
    some (input.actor_user_id, input.tenant_id, permission_agent_create)
permission_of (update_agent_as input) =
    some (input.actor_user_id, input.tenant_id, permission_agent_update)
permission_of (set_agent_manager_as input) =
    some (input.actor_user_id, input.tenant_id, permission_agent_hierarchy_manage)
permission_of (pause_agent_as input) =
    some (input.actor_user_id, input.tenant_id, permission_agent_lifecycle_manage)
permission_of (resume_agent_as input) =
    some (input.actor_user_id, input.tenant_id, permission_agent_lifecycle_manage)
permission_of (delete_agent_as input) =
    some (input.actor_user_id, input.tenant_id, permission_agent_delete)
permission_of (create_company_as input) =
    some (input.actor_user_id, input.tenant_id, permission_company_create)
permission_of (update_company_as input) =
    some (input.actor_user_id, input.tenant_id, permission_company_update)
permission_of (archive_company_as actor_user_id tenant_id company_id expected_version) =
    some (actor_user_id, tenant_id, permission_company_archive)
permission_of (ensure_default_company_as input) = none

-- The tenant service has answered with a decision that allows it.
abbrev pub IsGranted : Environment → Option (String × String × Permission) → Type 0
IsGranted env none = Unit {0}
IsGranted env (some (actor_user_id, tenant_id, permission)) =
    (decision : AuthorizationDecision) × (env.check_authorization actor_user_id tenant_id permission
      ≡ ok (some decision))
    × (decision.allowed ≡ true)

read_decision-ok :
    (x : Result (Unit {0}) (Option AuthorizationDecision)) (u : Unit {0})
    → read_decision x ≡ ok u
    → (decision : AuthorizationDecision) × (x ≡ ok (some decision)) × (decision.allowed ≡ true)
unfolding read_decision
read_decision-ok (err e) u h = cc
read_decision-ok (ok none) u h = cc
read_decision-ok (ok (some decision)) u h = elim (Bool-cases decision.allowed) [
  | inl k ↦ (decision, refl, k)
  | inr k ↦ absurd (ground (arith, k, h))
]

module _ (env : Environment) (u t : String) (p : Permission) where
  authorize-IsGranted :
      {A : Type 0} (f : Unit {0} → Tx A) (s : OrganizationStore) (x : A × OrganizationStore)
      → (authorize env u t p >>= f) s ≡ ok x
      → IsGranted env (some (u, t, p))
  unfolding authorize
  authorize-IsGranted f s x h =
      let (v, e, _) = lift-inv (read_decision (env.check_authorization u t p)) f s x h in
      read_decision-ok (env.check_authorization u t p) v e

  read_agent-IsGranted :
      {A : Type 0} (a : String) (f : Agent → Tx A) (s : OrganizationStore)
      (x : A × OrganizationStore)
      → (read_agent env u t a p >>= f) s ≡ ok x
      → IsGranted env (some (u, t, p))
  unfolding read_agent
  read_agent-IsGranted a f s x h =
      let (current, s1, read, _) = continue-inv (read_agent env u t a p s) f x h in
      let (_, _, h1) =
        lift-inv (validate_uuids env.libraries (u ∷ t ∷ a ∷ [])) _ s (current, s1) read in
      authorize-IsGranted _ s (current, s1) h1

  read_company-IsGranted :
      {A : Type 0} (a : String) (f : Company → Tx A) (s : OrganizationStore)
      (x : A × OrganizationStore)
      → (read_company env u t a p >>= f) s ≡ ok x
      → IsGranted env (some (u, t, p))
  unfolding read_company
  read_company-IsGranted a f s x h =
      let (current, s1, read, _) = continue-inv (read_company env u t a p s) f x h in
      let (_, _, h1) =
        lift-inv (validate_uuids env.libraries (u ∷ t ∷ a ∷ [])) _ s (current, s1) read in
      authorize-IsGranted _ s (current, s1) h1

create_agent-IsGranted :
    (env : Environment) (input : CreateAgentInput) (s : OrganizationStore)
    (x : CreateAgentParams × OrganizationStore)
    → prepare_create_agent env input s ≡ ok x
    → IsGranted env (permission_of (create_agent_as input))
unfolding prepare_create_agent
create_agent-IsGranted env input s x h =
    let ids : List String = input.actor_user_id ∷ input.tenant_id ∷ input.company_id ∷ [] in
    let (_, _, h1) = lift-inv (validate_uuids env.libraries ids) _ s x h in
    let (_, _, h2) =
      lift-inv (validate_uuids env.libraries (to_list input.manager_agent_id)) _ s x h1 in
    authorize-IsGranted env input.actor_user_id input.tenant_id permission_agent_create _ s x h2

create_company-IsGranted :
    (env : Environment) (input : CreateCompanyInput) (s : OrganizationStore)
    (x : CreateCompanyParams × OrganizationStore)
    → prepare_create_company env input s ≡ ok x
    → IsGranted env (permission_of (create_company_as input))
unfolding prepare_create_company
create_company-IsGranted env input s x h =
    let (_, _, h1) =
      lift-inv (validate_uuids env.libraries (input.actor_user_id ∷ input.tenant_id ∷ [])) _ s x
        h in
    authorize-IsGranted env input.actor_user_id input.tenant_id permission_company_create _ s x h1

set_agent_manager-IsGranted :
    (env : Environment) (input : SetAgentManagerInput) (s : OrganizationStore)
    (x : UpdateAgentParams × OrganizationStore)
    → prepare_set_agent_manager env input s ≡ ok x
    → IsGranted env (permission_of (set_agent_manager_as input))
unfolding prepare_set_agent_manager
set_agent_manager-IsGranted env input s x h =
    let ids : List String = input.actor_user_id ∷ input.tenant_id ∷ input.agent_id ∷ [] in
    let (_, _, h1) = lift-inv (validate_uuids env.libraries ids) _ s x h in
    let (_, _, h2) =
      lift-inv (validate_uuids env.libraries (to_list input.manager_agent_id)) _ s x h1 in
    let (_, h3) =
      throw_if-inv (is_manager input.agent_id input.manager_agent_id) hierarchy_cycle _ s x h2 in
    read_agent-IsGranted env input.actor_user_id input.tenant_id permission_agent_hierarchy_manage
      input.agent_id _ s x h3

-- A request that comes to write has been granted: the tenant service has answered that the actor
-- has the permission for it in the tenant. This holds of every request but the bootstrap of a
-- tenant's default company.
pub prepare-IsGranted :
    (env : Environment) (request : Request) (s s' : OrganizationStore) (c : Command)
    → prepare env request s ≡ ok (some c, s')
    → IsGranted env (permission_of request)
unfolding prepare prepare_update_agent prepare_pause_agent prepare_resume_agent prepare_delete_agent
    prepare_update_company prepare_archive_company
prepare-IsGranted env (create_agent_as input) s s' c h =
    let (params, s1, made, _) =
      then_send-inv (prepare_create_agent env input) (λ p. some (new_agent p)) c s s' h in
    create_agent-IsGranted env input s (params, s1) made
prepare-IsGranted env (update_agent_as input) s s' c h =
    let (params, s1, made, _) =
      then_send-inv (prepare_update_agent env input) (λ p. some (edit_agent p)) c s s' h in
    read_agent-IsGranted env input.actor_user_id input.tenant_id permission_agent_update
      input.agent_id _ s (params, s1) made
prepare-IsGranted env (set_agent_manager_as input) s s' c h =
    let (params, s1, made, _) =
      then_send-inv (prepare_set_agent_manager env input) (λ p. some (move_agent p)) c s s' h in
    set_agent_manager-IsGranted env input s (params, s1) made
prepare-IsGranted env (pause_agent_as input) s s' c h =
    let (params, s1, made, _) =
      then_send-inv (prepare_pause_agent env input) (λ p. some (set_status p)) c s s' h in
    read_agent-IsGranted env input.actor_user_id input.tenant_id permission_agent_lifecycle_manage
      input.agent_id _ s (params, s1) made
prepare-IsGranted env (resume_agent_as input) s s' c h =
    let (params, s1, made, _) =
      then_send-inv (prepare_resume_agent env input) (λ p. some (set_status p)) c s s' h in
    read_agent-IsGranted env input.actor_user_id input.tenant_id permission_agent_lifecycle_manage
      input.agent_id _ s (params, s1) made
prepare-IsGranted env (delete_agent_as input) s s' c h =
    let (params, s1, made, _) =
      then_send-inv (prepare_delete_agent env input) (λ p. some (drop_agent p)) c s s' h in
    read_agent-IsGranted env input.actor_user_id input.tenant_id permission_agent_delete
      input.agent_id _ s (params, s1) made
prepare-IsGranted env (create_company_as input) s s' c h =
    let (params, s1, made, _) =
      then_send-inv (prepare_create_company env input) (λ p. some (open_company p)) c s s' h in
    create_company-IsGranted env input s (params, s1) made
prepare-IsGranted env (update_company_as input) s s' c h =
    let (params, s1, made, _) =
      then_send-inv (prepare_update_company env input) (λ p. some (edit_company p)) c s s' h in
    read_company-IsGranted env input.actor_user_id input.tenant_id permission_company_update
      input.company_id _ s (params, s1) made
prepare-IsGranted env (archive_company_as u t i v) s s' c h =
    let (params, s1, made, _) =
      then_send-inv (prepare_archive_company env u t i v) archiving c s s' h in
    read_company-IsGranted env u t permission_company_archive i _ s (params, s1) made
prepare-IsGranted env (ensure_default_company_as input) s s' c h = tt
