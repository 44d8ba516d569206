-- ===== src/Organization/Requests/Sent.antt =====
-- The command that a request sends, and what it has read.
use mathlib.Core.Option.{some-injective}
use gereh.Prelude.{
  Result, ok, err, Result-cases, continue, ◌>>=◌, continue-inv, pure, String, ◌≡◌, refl, sym, subst,
  ◌⊎◌, inl, inr, not, Option, none, some, List, [], ◌∷◌, arith, string_eq, nat_eq,
}
use gereh.Tenant.Permissions.{permission_agent_create, permission_agent_update}
use gereh.Organization.Configuration.{Configuration}
use gereh.Organization.Validation.{
  Libraries, validate_uuids, bounded_text, normalize_slug, normalize_capabilities,
  validate_configuration, normalize_execution_profile, normalize_autonomy_level, can_pause,
  can_resume,
}
use gereh.Organization.Model.{
  ready, paused, ExecutionProfile, AutonomyLevel, is_deleted, Company, Error,
}
use gereh.Organization.Store.{OrganizationStore, Tx}
use gereh.Organization.Agents.{
  CreateAgentParams, UpdateAgentParams, inserted, with_settings, with_manager, with_status,
  with_deleted,
}
use gereh.Organization.Companies.{
  CreateCompanyParams, EnsureDefaultCompanyParams, UpdateCompanyParams,
}
use gereh.Organization.Service.{agent_updated, Environment, or_internal, authorize}
use gereh.Organization.Service.AgentRequests.{
  CreateAgentInput, UpdateAgentInput, to_list, checked_configuration, make_agent,
  prepare_create_agent, prepare_update_agent, prepare_set_agent_manager, prepare_pause_agent,
  prepare_resume_agent, prepare_delete_agent,
}
use gereh.Organization.Commands.{
  Command, open_company, open_default, edit_company, close_company, new_agent, edit_agent,
  move_agent, set_status, drop_agent,
}
use gereh.Organization.Requests.{
  Request, create_agent_as, update_agent_as, set_agent_manager_as, pause_agent_as, resume_agent_as,
  delete_agent_as, create_company_as, update_company_as, archive_company_as,
  ensure_default_company_as, archiving, then_send, prepare, admits,
}
use gereh.Organization.Requests.Prepared.{
  IsChangeOfRead, lift-inv, changed_or-inv, written, checked-inv, status-IsChangeOfRead,
  delete-IsChangeOfRead, manager-IsChangeOfRead,
}
use gereh.Organization.Service.CompanyRequests.{
  prepare_create_company, prepare_update_company, prepare_archive_company,
  prepare_ensure_default_company,
}

configuration-inv :
    {C : Type 0} (libraries : Libraries) (new old : Configuration) (f : Configuration → Tx C)
    (s : OrganizationStore) (x : C × OrganizationStore)
    → (checked_configuration libraries new old >>= f) s ≡ ok x
    → (b : Configuration) × (f b s ≡ ok x)
unfolding checked_configuration validate_configuration
configuration-inv libraries none old f s x h = (old, h)
configuration-inv libraries (some given) old f s x h =
    elim (Result-cases (validate_configuration libraries (some given))) [
      | inl (u, e) ↦ (some given, ground (arith, e, h))
      | inr (error, e) ↦ absurd (ground (arith, e, h))
    ]

update-IsChangeOfRead :
    (env : Environment) (s s' : OrganizationStore) (params : UpdateAgentParams)
    (input : UpdateAgentInput)
    → prepare_update_agent env input s ≡ ok (params, s')
    → IsChangeOfRead (λ r. not (is_deleted r.status)) with_settings params.agent s
unfolding prepare_update_agent
update-IsChangeOfRead env s s' params input h =
    let (current, found, fine, h0) =
      checked-inv env s s' params input.actor_user_id input.tenant_id input.agent_id
        permission_agent_update (λ r. is_deleted r.status) _ h in
    let (a, h1) =
      changed_or-inv input.display_name current.display_name (λ x. bounded_text x 1 120) _ s
        (params, s') h0 in
    let (b, h2) =
      changed_or-inv input.role_title current.role_title (λ x. bounded_text x 1 120) _ s
        (params, s') h1 in
    let (c, h3) =
      changed_or-inv input.objective current.objective (λ x. bounded_text x 1 4000) _ s (params, s')
        h2 in
    let (d, h4) =
      changed_or-inv input.execution_profile current.execution_profile normalize_execution_profile _
        s (params, s') h3 in
    let (e, h5) =
      changed_or-inv input.autonomy_level current.autonomy_level normalize_autonomy_level _ s
        (params, s') h4 in
    let (f, h6) =
      changed_or-inv input.capabilities current.capabilities (normalize_capabilities env.libraries)
        _ s (params, s') h5 in
    let (g, h7) =
      configuration-inv env.libraries input.configuration current.configuration _ s (params, s')
        h6 in
    written env input.actor_user_id input.expected_version "updated" "agent.updated"
      (λ agent. agent_updated agent input.actor_user_id) s s' params
      (λ r. not (is_deleted r.status)) with_settings
      (record current {
        display_name = a;
        role_title = b;
        objective = c;
        execution_profile = d;
        autonomy_level = e;
        capabilities = f;
        configuration = g;
      })
      current found (ground (arith, fine)) refl (refl, refl) h7

-- What is known of a command that a request sends.
pub data Sends (request : Request) (read : OrganizationStore) : Command → Type 0 where
  creates :
      (params : CreateAgentParams)
      → params.agent.version ≡ 1
      → inserted params.agent ≡ params.agent
      → Sends request read (new_agent params)
  edits :
      (params : UpdateAgentParams)
      → IsChangeOfRead (admits request) with_settings params.agent read
      → Sends request read (edit_agent params)
  moves :
      (params : UpdateAgentParams)
      → IsChangeOfRead (admits request) with_manager params.agent read
      → Sends request read (move_agent params)
  sets :
      (params : UpdateAgentParams)
      → IsChangeOfRead (admits request) with_status params.agent read
      → Sends request read (set_status params)
  drops :
      (params : UpdateAgentParams)
      → IsChangeOfRead (admits request) with_deleted params.agent read
      → Sends request read (drop_agent params)
  opens : (params : CreateCompanyParams) → Sends request read (open_company params)
  bootstraps : (params : EnsureDefaultCompanyParams) → Sends request read (open_default params)
  describes : (params : UpdateCompanyParams) → Sends request read (edit_company params)
  closes : (params : UpdateCompanyParams) → Sends request read (close_company params)

pub then_send-inv :
    {P : Type 0} (prepare : Tx P) (command : P → Option Command) (c : Command)
    (s s' : OrganizationStore)
    → then_send prepare command s ≡ ok (some c, s')
    → (params : P) × (s1 : OrganizationStore) × (prepare s ≡ ok (params, s1))
      × (command params ≡ some c)
then_send-inv prepare command c s s' h =
    let (params, s1, made, rest) = continue-inv (prepare s) _ (some c, s') h in
    (params, s1, made, ground (arith, rest))

sent :
    {request : Request} {read : OrganizationStore} {P : Type 0} (command : P → Command)
    (c : Command) (params : P)
    → some (command params) ≡ some c
    → Sends request read (command params)
    → Sends request read c
sent {request} {read} command c params e = subst (Sends request read) (some-injective _ _ e)

abbrev IsFirst : CreateAgentParams → Type 0
IsFirst params = (params.agent.version ≡ 1) × (inserted params.agent ≡ params.agent)

mapped-inv :
    {A B : Type 0} (r : Result Error (A × OrganizationStore)) (f : A → B) (b : B)
    (s' : OrganizationStore)
    → continue r (λ a. pure (f a)) ≡ ok (b, s')
    → (a : A) × (b ≡ f a)
mapped-inv (ok (a, s)) f b s' h = (a, ground (arith, h))
mapped-inv (err e) f b s' h = cc

make_agent-IsFirst :
    (env : Environment) (input : CreateAgentInput) (slug name role goal : String)
    (profile : ExecutionProfile) (level : AutonomyLevel) (skills : List String)
    (s s' : OrganizationStore) (params : CreateAgentParams)
    → make_agent env input slug name role goal profile level skills s ≡ ok (params, s')
    → IsFirst params
unfolding make_agent
make_agent-IsFirst env input slug name role goal profile level skills s s' params h =
    let (agent_id, s2, _, h1) = continue-inv (or_internal env.new_id s) _ (params, s') h in
    let (event, made) = mapped-inv _ _ params s' h1 in subst IsFirst (sym made) (refl, refl)

prepare_create_agent-IsFirst :
    (env : Environment) (input : CreateAgentInput) (s s' : OrganizationStore)
    (params : CreateAgentParams)
    → prepare_create_agent env input s ≡ ok (params, s')
    → IsFirst params
unfolding prepare_create_agent
prepare_create_agent-IsFirst env input s s' params h =
    let x : CreateAgentParams × OrganizationStore = (params, s') in
    let ids : List String = input.actor_user_id ∷ input.tenant_id ∷ input.company_id ∷ [] in
    let (_, _, h1) = lift-inv (validate_uuids env.libraries ids) _ s x h in
    let (_, _, h2) =
      lift-inv (validate_uuids env.libraries (to_list input.manager_agent_id)) _ s x h1 in
    let (_, s1, _, h3) =
      continue-inv (authorize env input.actor_user_id input.tenant_id permission_agent_create s) _ x
        h2 in
    let (slug, _, h4) = lift-inv (normalize_slug env.libraries input.slug) _ s1 x h3 in
    let (name, _, h5) = lift-inv (bounded_text input.display_name 1 120) _ s1 x h4 in
    let (role, _, h6) = lift-inv (bounded_text input.role_title 1 120) _ s1 x h5 in
    let (goal, _, h7) = lift-inv (bounded_text input.objective 1 4000) _ s1 x h6 in
    let (profile, _, h8) =
      lift-inv (normalize_execution_profile input.execution_profile) _ s1 x h7 in
    let (level, _, h9) = lift-inv (normalize_autonomy_level input.autonomy_level) _ s1 x h8 in
    let (skills, _, h10) =
      lift-inv (normalize_capabilities env.libraries input.capabilities) _ s1 x h9 in
    let (_, _, h11) =
      lift-inv (validate_configuration env.libraries input.configuration) _ s1 x h10 in
    make_agent-IsFirst env input slug name role goal profile level skills s1 s' params h11

closes_if :
    {request : Request} {read : OrganizationStore} {c : Command} (r : Company ⊎ UpdateCompanyParams)
    → archiving r ≡ some c
    → Sends request read c
closes_if (inl company) e = cc
closes_if (inr params) e = sent close_company _ params e (closes params)

-- What each request sends was made of what it has read.
pub prepare-Sends :
    (env : Environment) (request : Request) (s s' : OrganizationStore) (c : Command)
    → prepare env request s ≡ ok (some c, s')
    → Sends request s c
unfolding prepare admits prepare_pause_agent prepare_resume_agent
prepare-Sends env (create_agent_as input) s s' c h =
    let (params, s1, made, e) =
      then_send-inv (prepare_create_agent env input) (λ p. some (new_agent p)) c s s' h in
    let (one, new) = prepare_create_agent-IsFirst env input s s1 params made in
    sent new_agent c params e (creates params one new)
prepare-Sends env (update_agent_as input) s s' c h =
    let (params, s1, made, e) =
      then_send-inv (prepare_update_agent env input) (λ p. some (edit_agent p)) c s s' h in
    sent edit_agent c params e (edits params (update-IsChangeOfRead env s s1 params input made))
prepare-Sends env (set_agent_manager_as input) s s' c h =
    let (params, s1, made, e) =
      then_send-inv (prepare_set_agent_manager env input) (λ p. some (move_agent p)) c s s' h in
    sent move_agent c params e (moves params (manager-IsChangeOfRead env s s1 params input made))
prepare-Sends env (pause_agent_as input) s s' c h =
    let (params, s1, made, e) =
      then_send-inv (prepare_pause_agent env input) (λ p. some (set_status p)) c s s' h in
    sent set_status c params e (
      sets params
        (status-IsChangeOfRead env s s1 params can_pause paused "paused" "agent.paused" input made))
prepare-Sends env (resume_agent_as input) s s' c h =
    let (params, s1, made, e) =
      then_send-inv (prepare_resume_agent env input) (λ p. some (set_status p)) c s s' h in
    sent set_status c params e (
      sets params (
        status-IsChangeOfRead env s s1 params can_resume ready "resumed" "agent.resumed" input
          made))
prepare-Sends env (delete_agent_as input) s s' c h =
    let (params, s1, made, e) =
      then_send-inv (prepare_delete_agent env input) (λ p. some (drop_agent p)) c s s' h in
    sent drop_agent c params e (drops params (delete-IsChangeOfRead env s s1 params input made))
prepare-Sends env (create_company_as input) s s' c h =
    let (params, s1, made, e) =
      then_send-inv (prepare_create_company env input) (λ p. some (open_company p)) c s s' h in
    sent open_company c params e (opens params)
prepare-Sends env (update_company_as input) s s' c h =
    let (params, s1, made, e) =
      then_send-inv (prepare_update_company env input) (λ p. some (edit_company p)) c s s' h in
    sent edit_company c params e (describes params)
prepare-Sends env (archive_company_as u t i v) s s' c h =
    let (params, s1, made, e) =
      then_send-inv (prepare_archive_company env u t i v) archiving c s s' h in
    closes_if params e
prepare-Sends env (ensure_default_company_as input) s s' c h =
    let (params, s1, made, e) =
      then_send-inv (prepare_ensure_default_company env input) (λ p. some (open_default p)) c s s'
        h in
    sent open_default c params e (bootstraps params)
