-- ===== src/Tests/Policies.antt =====
-- A policy with two rules, and a request that an agent makes, against
-- services/policy-approval/internal/engine.
use mathlib.Core.List.{Memᴰ}
use gereh.Prelude.{
  if◌then◌else◌, Bool-cases, pos, ok, has_prefix, has_suffix, trim_suffix, ◌==◌, string_eq,
  contains, ℕ, ◌≤◌, String, ◌≡◌, refl, subst, ◌⊎◌, inl, inr, true, false, ◌||◌, none, some, List,
  [], ◌∷◌, arith, nat_eq,
}
use gereh.Policy.Model.{
  Effect, allow, deny, require_approval, allow_with_constraints, Constraints, no_constraints, Rule,
  ActiveBundle, EvaluationInput,
}
use gereh.Policy.Matcher.{exceeds, rule_matches_prefilter}
use gereh.Policy.Constraints.{intersection, merge_constraints}
use gereh.Policy.Constraints.Merge.{intersection-disjoint, merge_constraints-limits}
use gereh.Policy.Conditions.{Cel}
use gereh.Policy.Evaluator.{
  Outcome, no_outcome, is_read_action, autonomy_baseline, severity, combine, rule_before,
  insert_rule, sort_rules, default_result, rule_result, apply_rule, conclude_evaluation, rule_fires,
  evaluate_rules, evaluate_bundles, evaluate,
}
use gereh.Policy.Evaluator.Limits.{evaluate-limits}
use gereh.Policy.Evaluator.Severity.{highest_severity, evaluate-severity}
use gereh.Policy.Evaluator.Overrides.{evaluate-no_override, evaluate-autonomy}

-- A condition holds unless it is the text "false".
abbrev conditions : Cel String
conditions key condition variables = if condition == "false" then ok false else ok true

abbrev with_limit : List String → ℕ → Constraints
with_limit domains cost = record no_constraints {
  max_cost_micro_usd = some (pos cost);
  allowed_domains = domains;
}

abbrev rule_of : String → ℕ → Effect → List String → Constraints → String → Rule
rule_of id priority effect patterns constraints condition = record {
  id = id;
  priority = pos priority;
  name = id;
  enabled = true;
  effect = effect;
  action_patterns = patterns;
  resource_types = [];
  risk_levels = [];
  maximum_estimated_cost_micro_usd = none;
  condition = condition;
  constraints = constraints;
  reason = id;
}

abbrev spends : Rule
spends =
    rule_of "spends" 10 require_approval ("billing.*" ∷ [])
      (with_limit ("a.com" ∷ "b.com" ∷ []) 500) "true"

abbrev browses : Rule
browses =
    rule_of "browses" 5 allow_with_constraints ("*" ∷ []) (with_limit ("b.com" ∷ "c.com" ∷ []) 900)
      "true"

abbrev never : Rule
never = rule_of "never" 1 deny ("billing.pay" ∷ []) no_constraints "false"

abbrev bundle : ActiveBundle
bundle = record {
  policy = record {
    tenant_id = "t1";
    id = "p1";
    scope_type = "tenant";
    scope_id = none;
    name = "spending";
    description = "";
    status = "active";
    active_policy_version = some (pos 3);
    resource_version = pos 7;
    created_by_user_id = "u1";
    created_at = 1;
    updated_at = 1;
    archived_at = none;
  };
  version = record {
    policy_version = pos 3;
    default_effect = allow;
    rules = spends ∷ browses ∷ never ∷ [];
    tenant_id = "t1";
    policy_id = "p1";
    notes = "";
    created_by_user_id = "u1";
    created_at = 1;
    activated_at = some 1;
  };
}

abbrev input_of : String → String → EvaluationInput
input_of autonomy action = record {
  request_id = "r1";
  tenant_id = "t1";
  caller_service = "work";
  subject = record {
    type = "agent";
    id = "a1";
    company_id = none;
    agent_autonomy = autonomy;
    agent_status = "active";
    agent_capabilities = [];
    agent_version = pos 1;
  };
  action = action;
  resource = record { type = "invoice"; id = "i1"; attributes = "{}" };
  risk = "low";
  estimated_cost_micro_usd = pos 100;
  context = "{}";
}

abbrev outcome_of : Outcome
outcome_of = record {
  effect = require_approval;
  constraints = with_limit ("b.com" ∷ []) 500;
  reason = "spends";
  matched_policy_id = some "p1";
  matched_policy_version = some (pos 3);
  matched_rule_id = some "spends";
}

-- The approval outranks the two permissions; the limits of both rules are kept.
pays : evaluate conditions (input_of "policy_bounded" "billing.pay") (bundle ∷ []) ≡ ok outcome_of
unfolding evaluate evaluate_bundles evaluate_rules rule_fires conclude_evaluation apply_rule
    rule_result default_result sort_rules insert_rule combine autonomy_baseline severity rule_before
    merge_constraints rule_matches_prefilter has_suffix has_prefix trim_suffix
pays = refl

evaluate-severity_example :
    (severity outcome_of.effect
      ≡ highest_severity conditions (input_of "policy_bounded" "billing.pay") (bundle ∷ []))
    ⊎ ((outcome_of.effect ≡ deny)
        × (highest_severity conditions (input_of "policy_bounded" "billing.pay") (bundle ∷ []) ≡ 0))
evaluate-severity_example =
    evaluate-severity conditions (input_of "policy_bounded" "billing.pay") (bundle ∷ []) outcome_of
      pays

spends-fires :
    rule_fires conditions (input_of "policy_bounded" "billing.pay") bundle spends ≡ ok true
unfolding rule_fires rule_matches_prefilter
spends-fires = refl

evaluate-no_override_example :
    (severity require_approval ≤ severity outcome_of.effect)
    × (severity allow ≤ severity outcome_of.effect)
evaluate-no_override_example =
    evaluate-no_override conditions (input_of "policy_bounded" "billing.pay") bundle spends
      (bundle ∷ []) outcome_of (Memᴰ.head refl) (Memᴰ.head refl) spends-fires pays

abbrev refusal : Outcome
refusal = record no_outcome { effect = deny; reason = "Agent autonomy is observe-only" }

observes : evaluate conditions (input_of "observe_only" "billing.pay") [] ≡ ok refusal
unfolding evaluate evaluate_bundles conclude_evaluation autonomy_baseline is_read_action
observes = refl

abbrev observe_only : String
observe_only = "observe_only"

evaluate-autonomy_example :
    ((observe_only == "observe_only") ≡ true
      → is_read_action "billing.pay" ≡ false
      → refusal.effect ≡ deny)
    × ((observe_only == "observe_only"
            || (observe_only == "suggest"
                || (observe_only == "approval_required" || observe_only == "policy_bounded")))
          ≡ false
        → refusal.effect ≡ deny)
    × ((observe_only ≡ "suggest") ⊎ (observe_only ≡ "approval_required")
        → (refusal.effect ≡ deny) ⊎ (refusal.effect ≡ require_approval))
evaluate-autonomy_example =
    evaluate-autonomy conditions (input_of "observe_only" "billing.pay") [] refusal refl observes

merge_constraints-limits_example :
    let merged = merge_constraints spends.constraints browses.constraints in
    (exceeds (pos 600) merged.max_cost_micro_usd ≡ true)
    × (exceeds (pos 600) merged.max_runtime_seconds ≡ false)
    × (contains merged.allowed_domains "b.com" ≡ true)
    × (contains merged.allowed_resource_ids "b.com" ≡ false)
    × (merged.require_human_review ≡ false)
merge_constraints-limits_example =
    merge_constraints-limits spends.constraints browses.constraints (pos 600) "b.com"

nothing_shared : (a : String) → contains ("a.com" ∷ []) a ≡ true → contains ("b.com" ∷ []) a ≡ false
nothing_shared a h = elim (Bool-cases (a == "b.com")) [
  | inl same ↦ absurd (
      ground (
        arith,
        subst (λ x. contains ("a.com" ∷ []) x ≡ true) ((string_eq.same_iff a "b.com").0 same) h,
      ))
  | inr differs ↦ ground (arith, differs)
]

intersection-disjoint_example :
    intersection (intersection ("a.com" ∷ []) ("b.com" ∷ [])) ("c.com" ∷ []) ≡ "c.com" ∷ []
intersection-disjoint_example =
    intersection-disjoint ("a.com" ∷ []) ("b.com" ∷ []) ("c.com" ∷ []) refl refl nothing_shared

evaluate-limits_example :
    (exceeds (pos 600) spends.constraints.max_cost_micro_usd ≡ true
      → exceeds (pos 600) outcome_of.constraints.max_cost_micro_usd ≡ true)
    × (exceeds (pos 600) spends.constraints.max_runtime_seconds ≡ true
        → exceeds (pos 600) outcome_of.constraints.max_runtime_seconds ≡ true)
    × (spends.constraints.require_human_review ≡ true
        → outcome_of.constraints.require_human_review ≡ true)
evaluate-limits_example =
    evaluate-limits conditions (input_of "policy_bounded" "billing.pay") bundle spends (bundle ∷ [])
      outcome_of (pos 600) (Memᴰ.head refl) (Memᴰ.head refl) spends-fires refl pays refl
