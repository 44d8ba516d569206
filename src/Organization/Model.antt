-- ===== src/Organization/Model.antt =====
-- services/organization-agent/internal/domain/models.go and errors.go: companies, agents and the
-- revisions of agents.
use gereh.Prelude.{Time, ℕ, String, Bool, true, false, Option, List, string_eq, nat_eq}
use gereh.Organization.Configuration.{Configuration}

-- The Go types are strings: `other` holds a text that is none of the named values.
pub data CompanyStatus : Type 0 where
  active archived : CompanyStatus
  other : String → CompanyStatus

pub data AgentStatus : Type 0 where
  draft provisioning configuring_runtime health_checking ready degraded : AgentStatus
  paused failed deleting deleted : AgentStatus
  other : String → AgentStatus

-- The empty text is a value of its own, which stands for the default.
pub data ExecutionProfile : Type 0 where
  unset balanced persistent technical_worker : ExecutionProfile
  other : String → ExecutionProfile

pub data AutonomyLevel : Type 0 where
  unset observe_only suggest approval_required policy_bounded : AutonomyLevel
  other : String → AutonomyLevel

abbrev pub is_active : CompanyStatus → Bool
is_active active = true
is_active _ = false

abbrev pub is_deleted : AgentStatus → Bool
is_deleted deleted = true
is_deleted _ = false

pub record Company : Type 0 where
  pub tenant_id : String
  pub id : String
  pub slug : String
  pub display_name : String
  pub description : String
  pub status : CompanyStatus
  pub is_default : Bool
  pub version : ℕ
  pub created_by_user_id : String
  pub created_at : Time
  pub updated_at : Time
  pub archived_at : Option Time

pub record Agent : Type 0 where
  pub tenant_id : String
  pub company_id : String
  pub id : String
  pub slug : String
  pub display_name : String
  pub role_title : String
  pub objective : String
  pub manager_agent_id : Option String
  pub status : AgentStatus
  pub execution_profile : ExecutionProfile
  pub autonomy_level : AutonomyLevel
  pub capabilities : List String
  pub configuration : Configuration
  pub version : ℕ
  pub created_by_user_id : String
  pub created_at : Time
  pub updated_at : Time
  pub deleted_at : Option Time

-- The snapshot is the agent whose JSON the column holds.
pub record AgentRevision : Type 0 where
  pub tenant_id : String
  pub agent_id : String
  pub version : ℕ
  pub change_kind : String
  pub snapshot : Agent
  pub actor_user_id : String
  pub occurred_at : Time

-- `internal` is any error that is none of these.
pub data Error : Type 0 where
  invalid_argument not_found forbidden tenant_not_active conflict version_conflict : Error
  hierarchy_cycle agent_has_reports company_has_agents invalid_transition default_company : Error
  internal : Error
