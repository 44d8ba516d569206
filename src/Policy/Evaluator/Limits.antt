-- ===== src/Policy/Evaluator/Limits.antt =====
-- The limits of a rule that fires stand in the outcome.
use mathlib.Core.List.{Memᴰ}
use gereh.Prelude.{
  any_of, ℤ, ok, err, Result-cases, ◌≡◌, refl, ap, ◌∙◌, inl, inr, Bool, true, false, ◌&&◌, ◌||◌,
  not, List, [], ◌∷◌, arith, string_eq, nat_eq,
}
use gereh.Policy.Model.{is_unset, is_deny, Constraints, Rule, ActiveBundle, EvaluationInput}
use gereh.Policy.Matcher.{exceeds}
use gereh.Policy.Constraints.{merge_constraints}
use gereh.Policy.Constraints.Merge.{exceeds-minimum}
use gereh.Policy.Conditions.{Cel}
use gereh.Policy.Evaluator.{
  Outcome, autonomy_baseline, severity, combine, insert_rule, sort_rules, default_result,
  rule_result, apply_rule, conclude_evaluation, rule_fires, evaluate_rules, evaluate_bundles,
  evaluate,
}

-- A test of constraints that a merge does not weaken.
record IsLimit (test : Constraints → Bool) : Type 0 where
  merges : (a b : Constraints) → test (merge_constraints a b) ≡ (test a || test b)

cost-IsLimit : (v : ℤ) → IsLimit (λ c. exceeds v c.max_cost_micro_usd)
unfolding merge_constraints
cost-IsLimit v = record {
  merges = λ a b. exceeds-minimum v a.max_cost_micro_usd b.max_cost_micro_usd;
}

runtime-IsLimit : (v : ℤ) → IsLimit (λ c. exceeds v c.max_runtime_seconds)
unfolding merge_constraints
runtime-IsLimit v = record {
  merges = λ a b. exceeds-minimum v a.max_runtime_seconds b.max_runtime_seconds;
}

review-IsLimit : IsLimit (λ c. c.require_human_review)
unfolding merge_constraints
review-IsLimit = record { merges = λ a b. refl }

module _ (test : Constraints → Bool) (limit : IsLimit test) where
  -- The effect is set and the limit is in force.
  abbrev holds : Outcome → Bool
  holds r = not (is_unset r.effect) && test r.constraints

  -- So it is, unless the action is denied.
  abbrev settles : Outcome → Bool
  settles r = is_deny r.effect || holds r

  settles-combine : (a b : Outcome) → (settles a || holds b) ≡ true → settles (combine a b) ≡ true
  unfolding combine severity
  settles-combine a b h = ground (arith, limit.merges a.constraints b.constraints)

  module _ {E : Type 0} (cel : Cel E) (input : EvaluationInput) where
    -- Whether a rule fires and brings the limit.
    unfoldable imposes : ActiveBundle → Rule → Bool
    imposes bundle rule = elim (rule_fires cel input bundle rule) [
      | err e ↦ false
      | ok fired ↦ fired && holds (rule_result bundle rule)
    ]

    any_of-insert :
        (bundle : ActiveBundle) (rule : Rule) (rules : List Rule)
        → any_of (imposes bundle) (insert_rule rule rules)
          ≡ (imposes bundle rule || any_of (imposes bundle) rules)
    unfolding insert_rule
    any_of-insert bundle rule [] = refl
    any_of-insert bundle rule (x ∷ rules) = ground (arith, any_of-insert bundle rule rules)

    any_of-sort :
        (bundle : ActiveBundle) (rules : List Rule)
        → any_of (imposes bundle) (sort_rules rules) ≡ any_of (imposes bundle) rules
    unfolding sort_rules
    any_of-sort bundle [] = refl
    any_of-sort bundle (rule ∷ rules) =
        any_of-insert bundle rule (sort_rules rules)
        ∙ ap (λ b. imposes bundle rule || b) (any_of-sort bundle rules)

    rules_settle :
        (bundle : ActiveBundle) (rules : List Rule) (result r : Outcome) (ends : Bool)
        → evaluate_rules cel input bundle rules result ≡ ok (ends, r)
        → (settles result || any_of (imposes bundle) rules) ≡ true
        → settles r ≡ true
    unfolding evaluate_rules imposes apply_rule
    rules_settle bundle [] result r ends e h = ground arith
    rules_settle bundle (rule ∷ rules) result r ends e h =
        let combined = combine result (rule_result bundle rule) in
        ground (
          arith,
          settles-combine result (rule_result bundle rule),
          rules_settle bundle rules result r ends,
          rules_settle bundle rules combined r ends,
        )

    -- Whether a rule of a policy fires and brings the limit.
    abbrev is_imposed_by : ActiveBundle → Bool
    is_imposed_by bundle = any_of (imposes bundle) bundle.version.rules

    -- An early end is a denial.
    rules_end :
        (bundle : ActiveBundle) (rules : List Rule) (result r : Outcome)
        → evaluate_rules cel input bundle rules result ≡ ok (true, r)
        → is_deny r.effect ≡ true
    unfolding evaluate_rules apply_rule
    rules_end bundle [] result r e = ground arith
    rules_end bundle (rule ∷ rules) result r e =
        let combined = combine result (rule_result bundle rule) in
        ground (arith, rules_end bundle rules result r, rules_end bundle rules combined r)

    bundles_settle :
        (bundles : List ActiveBundle) (result r : Outcome) (ends : Bool)
        → evaluate_bundles cel input bundles result ≡ ok (ends, r)
        → (settles result || any_of is_imposed_by bundles) ≡ true
        → settles r ≡ true
    unfolding evaluate_bundles
    bundles_settle [] result r ends e h = ground arith
    bundles_settle (bundle ∷ bundles) result r ends e h =
        let start = combine result (default_result bundle) in
        elim (Result-cases
          (evaluate_rules cel input bundle (sort_rules bundle.version.rules) start)) [
            | inr (error, fails) ↦ absurd (ground (arith, fails, e))
            | inl ((early, r'), runs) ↦ ground (
              arith,
              runs,
              e,
              h,
              settles-combine result (default_result bundle),
              any_of-sort bundle bundle.version.rules,
              rules_settle bundle (sort_rules bundle.version.rules) start r' early runs,
              rules_end bundle (sort_rules bundle.version.rules) start r',
              bundles_settle bundles r' r ends,
            )
          ]

    imposes_any :
        (bundle : ActiveBundle) (rule : Rule) (rules : List Rule)
        → Memᴰ rule rules
        → imposes bundle rule ≡ true
        → any_of (imposes bundle) rules ≡ true
    imposes_any bundle rule [] m h = elim m [ ]
    imposes_any bundle rule (x ∷ rules) (Memᴰ.head same) h =
        ground (arith, h, ap (imposes bundle) same)
    imposes_any bundle rule (x ∷ rules) (Memᴰ.tail m) h =
        ground (arith, imposes_any bundle rule rules m h)

    imposed_any :
        (bundle : ActiveBundle) (bundles : List ActiveBundle)
        → Memᴰ bundle bundles
        → is_imposed_by bundle ≡ true
        → any_of is_imposed_by bundles ≡ true
    imposed_any bundle [] m h = elim m [ ]
    imposed_any bundle (x ∷ bundles) (Memᴰ.head same) h = ground (arith, h, ap is_imposed_by same)
    imposed_any bundle (x ∷ bundles) (Memᴰ.tail m) h =
        ground (arith, imposed_any bundle bundles m h)

    evaluate-settles :
        (bundle : ActiveBundle) (rule : Rule) (bundles : List ActiveBundle) (r : Outcome)
        → Memᴰ bundle bundles
        → Memᴰ rule bundle.version.rules
        → rule_fires cel input bundle rule ≡ ok true
        → is_unset rule.effect ≡ false
        → evaluate cel input bundles ≡ ok r
        → test rule.constraints ≡ true
        → is_deny r.effect ≡ false
        → test r.constraints ≡ true
    unfolding evaluate imposes conclude_evaluation rule_result
    evaluate-settles bundle rule bundles r in_bundles in_rules fires set e at allowed =
        let imposed : imposes bundle rule ≡ true = ground (arith, fires, set, at) in
        let found =
          imposed_any bundle bundles in_bundles
            (imposes_any bundle rule bundle.version.rules in_rules imposed) in
        elim (Result-cases (evaluate_bundles cel input bundles (autonomy_baseline input))) [
          | inr (error, fails) ↦ absurd (ground (arith, fails, e))
          | inl ((ends, r'), runs) ↦ ground (
            arith,
            runs,
            e,
            allowed,
            bundles_settle bundles (autonomy_baseline input) r' ends runs (ground (arith, found)),
          )
        ]

-- For every policy among those evaluated and every rule of it that fires and has an effect, if the
-- evaluation returns an outcome that is not a denial: a cost or a running time that exceeds the
-- limit of the rule exceeds that of the outcome, and a review that the rule requires is required.
pub evaluate-limits :
    {E : Type 0} (cel : Cel E) (input : EvaluationInput) (bundle : ActiveBundle) (rule : Rule)
    (bundles : List ActiveBundle) (r : Outcome) (value : ℤ)
    → Memᴰ bundle bundles
    → Memᴰ rule bundle.version.rules
    → rule_fires cel input bundle rule ≡ ok true
    → is_unset rule.effect ≡ false
    → evaluate cel input bundles ≡ ok r
    → is_deny r.effect ≡ false
    → (exceeds value rule.constraints.max_cost_micro_usd ≡ true
        → exceeds value r.constraints.max_cost_micro_usd ≡ true)
      × (exceeds value rule.constraints.max_runtime_seconds ≡ true
          → exceeds value r.constraints.max_runtime_seconds ≡ true)
      × (rule.constraints.require_human_review ≡ true → r.constraints.require_human_review ≡ true)
evaluate-limits cel input bundle rule bundles r value in_bundles in_rules fires set e allowed =
    let each =
      λ (test : Constraints → Bool) (limit : IsLimit test) (at : test rule.constraints ≡ true).
        evaluate-settles test limit cel input bundle rule bundles r in_bundles in_rules fires set e
          at allowed in
    (
      each (λ c. exceeds value c.max_cost_micro_usd) (cost-IsLimit value),
      each (λ c. exceeds value c.max_runtime_seconds) (runtime-IsLimit value),
      each (λ c. c.require_human_review) review-IsLimit,
    )
