-- ===== src/Policy/Model.antt =====
-- services/policy-approval/internal/domain/models.go: what the engine reads and returns. A JSON
-- object (`map[string]any`), which the engine only hands on, is its text.
use gereh.Prelude.{ℤ, ℕ, String, Bool, true, false, Option, none, List, [], string_eq, nat_eq}

-- The Go type is a string: `unset` is the empty text, and `other` holds a text that is none of the
-- named values.
pub data Effect : Type 0 where
  unset allow deny require_approval allow_with_constraints : Effect
  other : String → Effect

abbrev pub is_unset : Effect → Bool
is_unset unset = true
is_unset _ = false

abbrev pub is_deny : Effect → Bool
is_deny deny = true
is_deny _ = false

abbrev pub Risk : Type 0
Risk = String

abbrev pub SubjectType : Type 0
SubjectType = String

abbrev pub subject_agent : SubjectType
subject_agent = "agent"

pub record Constraints : Type 0 where
  pub max_cost_micro_usd : Option ℤ
  pub max_runtime_seconds : Option ℤ
  pub allowed_domains : List String
  pub allowed_resource_ids : List String
  pub require_human_review : Bool

-- The zero value.
abbrev pub no_constraints : Constraints
no_constraints = record {
  max_cost_micro_usd = none;
  max_runtime_seconds = none;
  allowed_domains = [];
  allowed_resource_ids = [];
  require_human_review = false;
}

pub record Rule : Type 0 where
  pub id : String
  pub priority : ℤ
  pub name : String
  pub enabled : Bool
  pub effect : Effect
  pub action_patterns : List String
  pub resource_types : List String
  pub risk_levels : List Risk
  pub maximum_estimated_cost_micro_usd : Option ℤ
  pub condition : String
  pub constraints : Constraints
  pub reason : String

abbrev pub ScopeType : Type 0
ScopeType = String

abbrev pub PolicyStatus : Type 0
PolicyStatus = String

-- An instant, in nanoseconds.
abbrev pub Instant : Type 0
Instant = ℕ

pub record Policy : Type 0 where
  pub tenant_id : String
  pub id : String
  pub scope_type : ScopeType
  pub scope_id : Option String
  pub name : String
  pub description : String
  pub status : PolicyStatus
  pub active_policy_version : Option ℤ
  pub resource_version : ℤ
  pub created_by_user_id : String
  pub created_at : Instant
  pub updated_at : Instant
  pub archived_at : Option Instant

pub record PolicyVersion : Type 0 where
  pub tenant_id : String
  pub policy_id : String
  pub policy_version : ℤ
  pub default_effect : Effect
  pub rules : List Rule
  pub notes : String
  pub created_by_user_id : String
  pub created_at : Instant
  pub activated_at : Option Instant

pub record ActiveBundle : Type 0 where
  pub policy : Policy
  pub version : PolicyVersion

pub record Subject : Type 0 where
  pub type : SubjectType
  pub id : String
  pub company_id : Option String
  pub agent_autonomy : String
  pub agent_status : String
  pub agent_capabilities : List String
  pub agent_version : ℤ

pub record Resource : Type 0 where
  pub type : String
  pub id : String
  pub attributes : String

pub record EvaluationInput : Type 0 where
  pub request_id : String
  pub tenant_id : String
  pub caller_service : String
  pub subject : Subject
  pub action : String
  pub resource : Resource
  pub risk : Risk
  pub estimated_cost_micro_usd : ℤ
  pub context : String
