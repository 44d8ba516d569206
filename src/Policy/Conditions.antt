-- ===== src/Policy/Conditions.antt =====
-- services/policy-approval/internal/engine/evaluator.go: what the condition of a rule is evaluated
-- with. The evaluation itself, by the CEL library, is a parameter of the evaluator.
use gereh.Prelude.{ℤ, Result, String, Bool, Option, none, some, List, string_eq, nat_eq}
use gereh.Policy.Model.{Rule, ActiveBundle, EvaluationInput}

-- What a condition reads of a request.
pub record Variables : Type 0 where
  pub subject_type : String
  pub subject_id : String
  pub subject_company_id : String
  pub subject_autonomy : String
  pub subject_status : String
  pub subject_capabilities : List String
  pub subject_version : ℤ
  pub resource_type : String
  pub resource_id : String
  pub resource_attributes : String
  pub request_action : String
  pub request_risk : String
  pub request_estimated_cost_micro_usd : ℤ
  pub context : String

abbrev pub value_or_empty : Option String → String
value_or_empty none = ""
value_or_empty (some value) = value

unfoldable pub cel_variables : EvaluationInput → Variables
cel_variables input = record {
  subject_type = input.subject.type;
  subject_id = input.subject.id;
  subject_company_id = value_or_empty input.subject.company_id;
  subject_autonomy = input.subject.agent_autonomy;
  subject_status = input.subject.agent_status;
  subject_capabilities = input.subject.agent_capabilities;
  subject_version = input.subject.agent_version;
  resource_type = input.resource.type;
  resource_id = input.resource.id;
  resource_attributes = input.resource.attributes;
  request_action = input.action;
  request_risk = input.risk;
  request_estimated_cost_micro_usd = input.estimated_cost_micro_usd;
  context = input.context;
}

-- The key under which the compiled condition is cached: the parts of its text.
pub record CacheKey : Type 0 where
  pub policy_id : String
  pub policy_version : ℤ
  pub rule_id : String
  pub condition : String

abbrev pub cache_key : ActiveBundle → Rule → CacheKey
cache_key bundle rule = record {
  policy_id = bundle.policy.id;
  policy_version = bundle.version.policy_version;
  rule_id = rule.id;
  condition = rule.condition;
}

-- The evaluation of a condition: true or false, or an error.
abbrev pub Cel : Type 0 → Type 0
Cel E = CacheKey → String → Variables → Result E Bool
