-- ===== src/Policy/Evaluator.antt =====
-- services/policy-approval/internal/engine/evaluator.go: the outcome of all active policies.
-- The evaluation of a condition is a parameter.
pub mod Severity
pub mod Overrides
pub mod Limits
use gereh.Prelude.{
  ltb, if◌then◌else◌, is_empty, ℤ, lt_int, Result, ok, err, text_lt, has_prefix, has_suffix, ◌==◌,
  ℕ, String, Bool, true, false, ◌&&◌, ◌||◌, not, Option, none, some, List, [], ◌∷◌, string_eq,
  nat_eq,
}
use gereh.Policy.Model.{
  Effect, unset, allow, deny, require_approval, allow_with_constraints, is_unset, is_deny,
  subject_agent, Constraints, no_constraints, Rule, Policy, ActiveBundle, EvaluationInput,
}
use gereh.Policy.Constraints.{merge_constraints}
use gereh.Policy.Conditions.{cel_variables, cache_key, Cel}
use gereh.Policy.Matcher.{rule_matches_prefilter}

-- `engine.Result`
pub record Outcome : Type 0 where
  pub effect : Effect
  pub constraints : Constraints
  pub reason : String
  pub matched_policy_id : Option String
  pub matched_policy_version : Option ℤ
  pub matched_rule_id : Option String

-- The zero value, and a value of which some fields are given.
abbrev pub no_outcome : Outcome
no_outcome = record {
  effect = unset;
  constraints = no_constraints;
  reason = "";
  matched_policy_id = none;
  matched_policy_version = none;
  matched_rule_id = none;
}

unfoldable pub is_read_action : String → Bool
unfolding has_prefix has_suffix
is_read_action action =
    has_prefix action "read."
    || (has_suffix action ".read"
        || (has_prefix action "observe." || has_prefix action "research."))

unfoldable pub autonomy_baseline : EvaluationInput → Outcome
unfolding is_read_action
autonomy_baseline input =
    if not (input.subject.type == subject_agent)
    then no_outcome
    else if input.subject.agent_autonomy == "observe_only"
    then (if is_read_action input.action
        then record no_outcome {
          effect = allow_with_constraints;
          reason = "Agent autonomy permits read actions only";
        }
        else record no_outcome { effect = deny; reason = "Agent autonomy is observe-only" })
    else if input.subject.agent_autonomy == "suggest"
    then record no_outcome {
      effect = require_approval;
      constraints = record no_constraints { require_human_review = true };
      reason = "Agent autonomy permits suggestions only";
    }
    else if input.subject.agent_autonomy == "approval_required"
    then record no_outcome {
      effect = require_approval;
      constraints = record no_constraints { require_human_review = true };
      reason = "Agent autonomy requires approval";
    }
    else if input.subject.agent_autonomy == "policy_bounded"
    then no_outcome
    else record no_outcome { effect = deny; reason = "Agent autonomy is unknown" }

unfoldable pub severity : Effect → ℕ
severity deny = 4
severity require_approval = 3
severity allow_with_constraints = 2
severity allow = 1
severity _ = 0

unfoldable pub combine : Outcome → Outcome → Outcome
unfolding severity
combine current incoming =
    if is_unset incoming.effect
    then current
    else if is_unset current.effect
    then incoming
    else if ltb (severity current.effect) (severity incoming.effect)
    then record incoming {
      constraints = merge_constraints current.constraints incoming.constraints;
    }
    else record current { constraints = merge_constraints current.constraints incoming.constraints }

-- The order of the rules: by priority, then by id.
unfoldable pub rule_before : Rule → Rule → Bool
unfolding text_lt
rule_before left right =
    if lt_int left.priority right.priority
    then true
    else if lt_int right.priority left.priority
    then false
    else text_lt left.id right.id

-- `slices.SortFunc`
unfoldable pub insert_rule : Rule → List Rule → List Rule
unfolding rule_before
insert_rule x [] = x ∷ []
insert_rule x (y ∷ ys) =
    let rest = insert_rule x ys in if rule_before y x then y ∷ rest else x ∷ y ∷ ys

unfoldable pub sort_rules : List Rule → List Rule
unfolding insert_rule
sort_rules [] = []
sort_rules (x ∷ xs) = insert_rule x (sort_rules xs)

unfoldable pub default_result : ActiveBundle → Outcome
default_result bundle = record no_outcome {
  effect = bundle.version.default_effect;
  reason = "Policy default effect applied";
  matched_policy_id = some bundle.policy.id;
  matched_policy_version = some bundle.version.policy_version;
}

unfoldable pub rule_result : ActiveBundle → Rule → Outcome
rule_result bundle rule = record {
  effect = rule.effect;
  constraints = rule.constraints;
  reason = rule.reason;
  matched_policy_id = some bundle.policy.id;
  matched_policy_version = some bundle.version.policy_version;
  matched_rule_id = some rule.id;
}

-- The result after a rule, and whether the evaluation ends there.
unfoldable pub apply_rule : ActiveBundle → Rule → Outcome → Bool → Bool × Outcome
unfolding rule_result
apply_rule bundle rule result false = (false, result)
apply_rule bundle rule result true =
    let result' = combine result (rule_result bundle rule) in (is_deny result'.effect, result')

-- What is returned after the loops, if they did not return early.
unfoldable pub conclude_evaluation : List ActiveBundle → Bool × Outcome → Outcome
conclude_evaluation bundles (true, result) = result
conclude_evaluation bundles (false, result) =
    if is_empty bundles && is_unset result.effect
    then record no_outcome { effect = deny; reason = "No active policy allows this action" }
    else if is_unset result.effect
    then record result { effect = deny; reason = "No matching policy rule" }
    else result

module _ {E : Type 0} (cel : Cel E) where
  -- Whether a rule fires: its condition is evaluated only if it is enabled and concerns the
  -- request.
  unfoldable pub rule_fires : EvaluationInput → ActiveBundle → Rule → Result E Bool
  unfolding cel_variables
  rule_fires input bundle rule =
      if not rule.enabled || not (rule_matches_prefilter rule input)
      then ok false
      else cel (cache_key bundle rule) rule.condition (cel_variables input)

  -- The loop over the sorted rules of a bundle. `true` marks an early return.
  unfoldable pub evaluate_rules :
      EvaluationInput → ActiveBundle → List Rule → Outcome → Result E (Bool × Outcome)
  evaluate_rules input bundle [] result = ok (false, result)
  evaluate_rules input bundle (rule ∷ rules) result = elim (rule_fires input bundle rule) [
    | err e ↦ err e
    | ok fired ↦
        let (ends, result') = apply_rule bundle rule result fired in
        elim ends [ true ↦ ok (true, result') | false ↦ evaluate_rules input bundle rules result' ]
  ]

  -- The loop over the bundles, each of which first adds its default.
  unfoldable pub evaluate_bundles :
      EvaluationInput → List ActiveBundle → Outcome → Result E (Bool × Outcome)
  evaluate_bundles input [] result = ok (false, result)
  evaluate_bundles input (bundle ∷ bundles) result =
      let first =
        evaluate_rules input bundle (sort_rules bundle.version.rules)
          (combine result (default_result bundle)) in
      elim first [
        | err e ↦ err e
        | ok (ends, result') ↦ elim ends [
          | true ↦ ok (true, result')
          | false ↦ evaluate_bundles input bundles result'
        ]
      ]

  unfoldable pub evaluate : EvaluationInput → List ActiveBundle → Result E Outcome
  evaluate input bundles = elim (evaluate_bundles input bundles (autonomy_baseline input)) [
    | err e ↦ err e
    | ok r ↦ ok (conclude_evaluation bundles r)
  ]
