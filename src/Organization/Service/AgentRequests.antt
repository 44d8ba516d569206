-- ===== src/Organization/Service/AgentRequests.antt =====
-- services/organization-agent/internal/application/agent.go: the requests that change agents. A
-- request is prepared from the agent as it was read, and then written; other writes may come
-- between.
use gereh.Prelude.{
  Result, ◌>>=◌, ◌>>◌, pure, throw_if, ℕ, String, Bool, not, Option, none, some, List, [], ◌∷◌,
  string_eq, nat_eq,
}
use gereh.Tenant.Permissions.{
  Permission, permission_agent_create, permission_agent_update, permission_agent_delete,
  permission_agent_hierarchy_manage, permission_agent_lifecycle_manage,
}
use gereh.Organization.Model.{
  AgentStatus, draft, ready, paused, deleted, ExecutionProfile, AutonomyLevel, is_deleted, Agent,
  Error, hierarchy_cycle, invalid_transition,
}
use gereh.Organization.Store.{Tx}
use gereh.Organization.Configuration.{Configuration}
use gereh.Organization.Validation.{
  Libraries, validate_uuids, bounded_text, normalize_slug, normalize_capabilities,
  validate_configuration, normalize_execution_profile, normalize_autonomy_level, can_pause,
  can_resume, can_delete,
}
use gereh.Organization.Agents.{CreateAgentParams, UpdateAgentParams, is_manager, get_agent, bumped}
use gereh.Organization.Service.{
  Payload, agent_created, agent_updated, agent_manager_changed, agent_lifecycle_changed,
  agent_deleted, Environment, or_internal, lift, call, authorize, new_outbox_event,
}

pub record CreateAgentInput : Type 0 where
  pub actor_user_id : String
  pub tenant_id : String
  pub company_id : String
  pub slug : String
  pub display_name : String
  pub role_title : String
  pub objective : String
  pub manager_agent_id : Option String
  pub execution_profile : ExecutionProfile
  pub autonomy_level : AutonomyLevel
  pub capabilities : List String
  pub configuration : Configuration

pub record UpdateAgentInput : Type 0 where
  pub actor_user_id : String
  pub tenant_id : String
  pub agent_id : String
  pub expected_version : ℕ
  pub display_name : Option String
  pub role_title : Option String
  pub objective : Option String
  pub execution_profile : Option ExecutionProfile
  pub autonomy_level : Option AutonomyLevel
  pub capabilities : Option (List String)
  pub configuration : Configuration

pub record SetAgentManagerInput : Type 0 where
  pub actor_user_id : String
  pub tenant_id : String
  pub agent_id : String
  pub expected_version : ℕ
  pub manager_agent_id : Option String

pub record LifecycleInput : Type 0 where
  pub actor_user_id : String
  pub tenant_id : String
  pub agent_id : String
  pub expected_version : ℕ

abbrev pub to_list : Option String → List String
to_list none = []
to_list (some x) = x ∷ []

-- A field that the input names is validated, another stays.
abbrev pub changed_or : {A B : Type 0} → Option A → B → (A → Result Error B) → Tx B
changed_or none old validate = pure old
changed_or (some x) old validate = lift (validate x)

unfoldable pub checked_configuration : Libraries → Configuration → Configuration → Tx Configuration
unfolding validate_configuration
checked_configuration libraries none old = pure old
checked_configuration libraries (some given) old = do
  lift (validate_configuration libraries (some given))
  pure (some given)

module _ (env : Environment) where
  -- The end of `CreateAgent`: the new agent, of the validated fields, and its event.
  unfoldable pub make_agent :
      CreateAgentInput
      → String
      → String
      → String
      → String
      → ExecutionProfile
      → AutonomyLevel
      → List String
      → Tx CreateAgentParams
  unfolding new_outbox_event
  make_agent input slug display_name role_title objective execution_profile autonomy_level
        capabilities =
      do
        agent_id ← or_internal env.new_id
        let agent : Agent = record {
          tenant_id = input.tenant_id;
          company_id = input.company_id;
          id = agent_id;
          slug = slug;
          display_name = display_name;
          role_title = role_title;
          objective = objective;
          manager_agent_id = input.manager_agent_id;
          status = draft;
          execution_profile = execution_profile;
          autonomy_level = autonomy_level;
          capabilities = capabilities;
          configuration = input.configuration;
          version = 1;
          created_by_user_id = input.actor_user_id;
          created_at = env.now;
          updated_at = env.now;
          deleted_at = none;
        }
        event ←
            new_outbox_event env env.config.agent_event_topic agent.id "agent.created"
              agent.tenant_id "agent" agent.id agent.version (agent_created agent) env.now
        pure (record { actor_user_id = input.actor_user_id; agent = agent; event = event })

  unfoldable pub prepare_create_agent : CreateAgentInput → Tx CreateAgentParams
  unfolding validate_uuids authorize normalize_slug bounded_text normalize_execution_profile
      normalize_autonomy_level normalize_capabilities validate_configuration make_agent
  prepare_create_agent input = do
    lift (
        validate_uuids env.libraries
          (input.actor_user_id ∷ input.tenant_id ∷ input.company_id ∷ []))
    lift (validate_uuids env.libraries (to_list input.manager_agent_id))
    authorize env input.actor_user_id input.tenant_id permission_agent_create
    slug ← lift (normalize_slug env.libraries input.slug)
    display_name ← lift (bounded_text input.display_name 1 120)
    role_title ← lift (bounded_text input.role_title 1 120)
    objective ← lift (bounded_text input.objective 1 4000)
    execution_profile ← lift (normalize_execution_profile input.execution_profile)
    autonomy_level ← lift (normalize_autonomy_level input.autonomy_level)
    capabilities ← lift (normalize_capabilities env.libraries input.capabilities)
    lift (validate_configuration env.libraries input.configuration)
    make_agent input slug display_name role_title objective execution_profile autonomy_level
        capabilities

  -- What the requests on an agent start with.
  unfoldable pub read_agent : String → String → String → Permission → Tx Agent
  unfolding validate_uuids authorize get_agent
  read_agent actor_user_id tenant_id agent_id permission = do
    lift (validate_uuids env.libraries (actor_user_id ∷ tenant_id ∷ agent_id ∷ []))
    authorize env actor_user_id tenant_id permission
    call (get_agent tenant_id agent_id)

  -- What they end with: the agent as it shall be, at the next version.
  unfoldable pub write_agent :
      String → ℕ → String → String → (Agent → Payload) → Agent → Tx UpdateAgentParams
  unfolding new_outbox_event
  write_agent actor_user_id expected_version change_kind event_type payload changed = do
    let agent : Agent = bumped env.now changed
    event ←
        new_outbox_event env env.config.agent_event_topic agent.id event_type agent.tenant_id
          "agent" agent.id agent.version (payload agent) env.now
    pure (record {
      actor_user_id = actor_user_id;
      agent = agent;
      expected_version = expected_version;
      change_kind = change_kind;
      event = event;
    })

  unfoldable pub prepare_update_agent : UpdateAgentInput → Tx UpdateAgentParams
  unfolding read_agent bounded_text normalize_execution_profile normalize_autonomy_level
      normalize_capabilities checked_configuration write_agent
  prepare_update_agent input = do
    current ← read_agent input.actor_user_id input.tenant_id input.agent_id permission_agent_update
    throw_if (is_deleted current.status) invalid_transition
    display_name ← changed_or input.display_name current.display_name (λ x. bounded_text x 1 120)
    role_title ← changed_or input.role_title current.role_title (λ x. bounded_text x 1 120)
    objective ← changed_or input.objective current.objective (λ x. bounded_text x 1 4000)
    execution_profile ←
        changed_or input.execution_profile current.execution_profile normalize_execution_profile
    autonomy_level ← changed_or input.autonomy_level current.autonomy_level normalize_autonomy_level
    capabilities ←
        changed_or input.capabilities current.capabilities (normalize_capabilities env.libraries)
    configuration ← checked_configuration env.libraries input.configuration current.configuration
    write_agent input.actor_user_id input.expected_version "updated" "agent.updated"
        (λ agent. agent_updated agent input.actor_user_id)
        (record current {
          display_name = display_name;
          role_title = role_title;
          objective = objective;
          execution_profile = execution_profile;
          autonomy_level = autonomy_level;
          capabilities = capabilities;
          configuration = configuration;
        })

  unfoldable pub prepare_set_agent_manager : SetAgentManagerInput → Tx UpdateAgentParams
  unfolding validate_uuids read_agent write_agent
  prepare_set_agent_manager input = do
    lift
        (validate_uuids env.libraries (input.actor_user_id ∷ input.tenant_id ∷ input.agent_id ∷ []))
    lift (validate_uuids env.libraries (to_list input.manager_agent_id))
    throw_if (is_manager input.agent_id input.manager_agent_id) hierarchy_cycle
    current ←
        read_agent input.actor_user_id input.tenant_id input.agent_id
          permission_agent_hierarchy_manage
    throw_if (is_deleted current.status) invalid_transition
    write_agent input.actor_user_id input.expected_version "manager_changed" "agent.manager_changed"
        (λ agent. agent_manager_changed agent current.manager_agent_id input.actor_user_id)
        (record current { manager_agent_id = input.manager_agent_id })

  -- `changeAgentStatus`, with the test of the status that belongs to the target.
  unfoldable pub prepare_status :
      (AgentStatus → Bool) → AgentStatus → String → String → LifecycleInput → Tx UpdateAgentParams
  unfolding read_agent write_agent
  prepare_status allowed target change_kind event_type input = do
    current ←
        read_agent input.actor_user_id input.tenant_id input.agent_id
          permission_agent_lifecycle_manage
    throw_if (not (allowed current.status)) invalid_transition
    write_agent input.actor_user_id input.expected_version change_kind event_type
        (λ agent. agent_lifecycle_changed agent current.status input.actor_user_id)
        (record current { status = target })

  unfoldable pub prepare_pause_agent : LifecycleInput → Tx UpdateAgentParams
  unfolding prepare_status can_pause
  prepare_pause_agent input = prepare_status can_pause paused "paused" "agent.paused" input

  unfoldable pub prepare_resume_agent : LifecycleInput → Tx UpdateAgentParams
  unfolding prepare_status can_resume
  prepare_resume_agent input = prepare_status can_resume ready "resumed" "agent.resumed" input

  unfoldable pub prepare_delete_agent : LifecycleInput → Tx UpdateAgentParams
  unfolding read_agent write_agent can_delete
  prepare_delete_agent input = do
    current ← read_agent input.actor_user_id input.tenant_id input.agent_id permission_agent_delete
    throw_if (not (can_delete current.status)) invalid_transition
    write_agent input.actor_user_id input.expected_version "deleted" "agent.deleted"
        (λ agent. agent_deleted agent input.actor_user_id env.now)
        (record current { status = deleted; deleted_at = some env.now })
