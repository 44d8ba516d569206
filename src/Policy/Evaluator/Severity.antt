-- ===== src/Policy/Evaluator/Severity.antt =====
-- The outcome is as severe as the most severe of what the policies say of the request.
use gereh.Prelude.{
  if◌then◌else◌, ok, err, Result-cases, ℕ, ◌≤◌, max, ◌≡◌, refl, ap, ◌∙◌, ◌⊎◌, inl, inr, Bool, true,
  List, [], ◌∷◌, arith, string_eq, nat_eq,
}
use gereh.Policy.Model.{Effect, deny, is_unset, is_deny, Rule, ActiveBundle, EvaluationInput}
use gereh.Policy.Conditions.{Cel}
use gereh.Policy.Evaluator.{
  Outcome, autonomy_baseline, severity, combine, insert_rule, sort_rules, default_result,
  rule_result, apply_rule, conclude_evaluation, rule_fires, evaluate_rules, evaluate_bundles,
  evaluate,
}

severity-le : (e : Effect) → severity e ≤ 4
unfolding severity
severity-le e = ground arith

pub severity-deny : (e : Effect) → 4 ≤ severity e → e ≡ deny
unfolding severity
severity-deny e h = ground arith

is_deny-severity : (e : Effect) → is_deny e ≡ true → severity e ≡ 4
unfolding severity
is_deny-severity e h = ground arith

unset-severity : (e : Effect) → is_unset e ≡ true → severity e ≡ 0
unfolding severity
unset-severity e h = ground arith

severity-combine :
    (a b : Outcome) → severity (combine a b).effect ≡ max (severity a.effect) (severity b.effect)
unfolding combine
severity-combine a b = ground arith

module _ {E : Type 0} (cel : Cel E) (input : EvaluationInput) where
  -- The severity that a rule adds: that of its effect, if it fires.
  unfoldable pub rule_severity : ActiveBundle → Rule → ℕ
  rule_severity bundle rule = elim (rule_fires cel input bundle rule) [
    | err e ↦ 0
    | ok fired ↦ if fired then severity rule.effect else 0
  ]

  unfoldable pub rules_severity : ActiveBundle → List Rule → ℕ
  rules_severity bundle [] = 0
  rules_severity bundle (rule ∷ rules) =
      max (rule_severity bundle rule) (rules_severity bundle rules)

  unfoldable pub bundles_severity : List ActiveBundle → ℕ
  unfolding rules_severity
  bundles_severity [] = 0
  bundles_severity (bundle ∷ bundles) =
      max
        (max (severity bundle.version.default_effect) (rules_severity bundle bundle.version.rules))
        (bundles_severity bundles)

  -- The order of the rules does not matter.
  rules_severity-insert :
      (bundle : ActiveBundle) (rule : Rule) (rules : List Rule)
      → rules_severity bundle (insert_rule rule rules)
        ≡ max (rule_severity bundle rule) (rules_severity bundle rules)
  unfolding rules_severity insert_rule
  rules_severity-insert bundle rule [] = refl
  rules_severity-insert bundle rule (x ∷ rules) =
      ground (arith, rules_severity-insert bundle rule rules)

  rules_severity-sort :
      (bundle : ActiveBundle) (rules : List Rule)
      → rules_severity bundle (sort_rules rules) ≡ rules_severity bundle rules
  unfolding sort_rules rules_severity
  rules_severity-sort bundle [] = refl
  rules_severity-sort bundle (rule ∷ rules) =
      rules_severity-insert bundle rule (sort_rules rules)
      ∙ ap (max (rule_severity bundle rule)) (rules_severity-sort bundle rules)

  rules_severity-le : (bundle : ActiveBundle) (rules : List Rule) → rules_severity bundle rules ≤ 4
  unfolding rules_severity rule_severity
  rules_severity-le bundle [] = omega arith
  rules_severity-le bundle (rule ∷ rules) =
      ground (arith, severity-le rule.effect, rules_severity-le bundle rules)

  bundles_severity-le : (bundles : List ActiveBundle) → bundles_severity bundles ≤ 4
  unfolding bundles_severity
  bundles_severity-le [] = omega arith
  bundles_severity-le (bundle ∷ bundles) = omega (
    arith,
    severity-le bundle.version.default_effect,
    rules_severity-le bundle bundle.version.rules,
    bundles_severity-le bundles,
  )

  -- The loop over the rules ends with the highest severity met, and early only on a denial.
  evaluate_rules-severity :
      (bundle : ActiveBundle) (rules : List Rule) (result r : Outcome) (ends : Bool)
      → evaluate_rules cel input bundle rules result ≡ ok (ends, r)
      → (severity r.effect ≡ max (severity result.effect) (rules_severity bundle rules))
        × (ends ≡ true → severity r.effect ≡ 4)
  unfolding evaluate_rules rules_severity rule_severity apply_rule rule_result
  evaluate_rules-severity bundle [] result r ends h = ground arith
  evaluate_rules-severity bundle (rule ∷ rules) result r ends h =
      let combined = combine result (rule_result bundle rule) in
      ground (
        arith,
        evaluate_rules-severity bundle rules result r ends,
        evaluate_rules-severity bundle rules combined r ends,
        severity-combine result (rule_result bundle rule),
        is_deny-severity combined.effect,
        severity-le result.effect,
        severity-le rule.effect,
        rules_severity-le bundle rules,
      )

  evaluate_bundles-severity :
      (bundles : List ActiveBundle) (result r : Outcome) (ends : Bool)
      → evaluate_bundles cel input bundles result ≡ ok (ends, r)
      → (severity r.effect ≡ max (severity result.effect) (bundles_severity bundles))
        × (ends ≡ true → severity r.effect ≡ 4)
  unfolding evaluate_bundles bundles_severity default_result
  evaluate_bundles-severity [] result r ends h = ground arith
  evaluate_bundles-severity (bundle ∷ bundles) result r ends h =
      elim (Result-cases (
        evaluate_rules cel input bundle (sort_rules bundle.version.rules)
          (combine result (default_result bundle)))) [
            | inr (e, fails) ↦ absurd (ground (arith, fails))
            | inl ((early, r'), runs) ↦ ground (
              arith,
              runs,
              evaluate_rules-severity bundle (sort_rules bundle.version.rules)
                  (combine result (default_result bundle)) r' early runs,
              rules_severity-sort bundle bundle.version.rules,
              severity-combine result (default_result bundle),
              evaluate_bundles-severity bundles r' r ends,
              severity-le result.effect,
              severity-le bundle.version.default_effect,
              bundles_severity-le bundles,
            )
          ]

  -- The highest severity of the autonomy baseline, the default effects and the rules that fire.
  unfoldable pub highest_severity : List ActiveBundle → ℕ
  unfolding bundles_severity
  highest_severity bundles =
      max (severity (autonomy_baseline input).effect) (bundles_severity bundles)

  -- Whatever the request, the policies and the conditions, if the evaluation returns an outcome,
  -- its severity is the highest of the autonomy baseline, the default effects of the policies and
  -- the effects of the rules that fire, in whatever order the rules stand; only where that is 0 may
  -- the outcome be a denial instead.
  pub evaluate-severity :
      (bundles : List ActiveBundle) (r : Outcome)
      → evaluate cel input bundles ≡ ok r
      → (severity r.effect ≡ highest_severity bundles)
        ⊎ ((r.effect ≡ deny) × (highest_severity bundles ≡ 0))
  unfolding evaluate highest_severity conclude_evaluation
  evaluate-severity bundles r h =
      elim (Result-cases (evaluate_bundles cel input bundles (autonomy_baseline input))) [
        | inr (e, fails) ↦ absurd (ground (arith, fails))
        | inl ((ends, r'), runs) ↦ ground (
          arith,
          runs,
          evaluate_bundles-severity bundles (autonomy_baseline input) r' ends runs,
          unset-severity r'.effect,
        )
      ]
