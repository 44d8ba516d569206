-- ===== src/Policy/Evaluator/Overrides.antt =====
-- What an outcome can never be: less severe than a rule that fires, a default effect, or the limit
-- on an agent's autonomy.
use mathlib.Core.List.{Memᴰ}
use gereh.Prelude.{
  ok, ◌==◌, ℕ, ◌≤◌, ◌≡◌, refl, ap, ◌⊎◌, inl, inr, true, false, ◌||◌, List, [], ◌∷◌, arith,
  string_eq, nat_eq,
}
use gereh.Policy.Model.{
  Effect, deny, require_approval, subject_agent, Rule, ActiveBundle, EvaluationInput,
}
use gereh.Policy.Conditions.{Cel}
use gereh.Policy.Evaluator.Severity.{
  severity-deny, rule_severity, rules_severity, bundles_severity, highest_severity,
  evaluate-severity,
}
use gereh.Policy.Evaluator.{
  Outcome, is_read_action, autonomy_baseline, severity, rule_fires, evaluate,
}

not_less-severe :
    {n m : ℕ} {e : Effect} → n ≤ m → (severity e ≡ m) ⊎ ((e ≡ deny) × (m ≡ 0)) → n ≤ severity e
not_less-severe {n} {m} h (inl at) = omega (arith, at)
not_less-severe {n} {m} h (inr (d, z)) = omega (arith, z)

module _ {E : Type 0} (cel : Cel E) (input : EvaluationInput) where
  rule-le :
      (bundle : ActiveBundle) (rule : Rule) (rules : List Rule)
      → Memᴰ rule rules
      → rule_severity cel input bundle rule ≤ rules_severity cel input bundle rules
  unfolding rules_severity
  rule-le bundle rule [] m = elim m [ ]
  rule-le bundle rule (x ∷ rules) (Memᴰ.head e) =
      omega (arith, ap (rule_severity cel input bundle) e)
  rule-le bundle rule (x ∷ rules) (Memᴰ.tail m) = omega (arith, rule-le bundle rule rules m)

  bundle-le :
      (bundle : ActiveBundle) (bundles : List ActiveBundle)
      → Memᴰ bundle bundles
      → (severity bundle.version.default_effect ≤ bundles_severity cel input bundles)
        × (rules_severity cel input bundle bundle.version.rules
            ≤ bundles_severity cel input bundles)
  unfolding bundles_severity
  bundle-le bundle [] m = elim m [ ]
  bundle-le bundle (x ∷ bundles) (Memᴰ.head e) = omega (
    arith,
    ap (λ (b : ActiveBundle). severity b.version.default_effect) e,
    ap (λ (b : ActiveBundle). rules_severity cel input b b.version.rules) e,
  )
  bundle-le bundle (x ∷ bundles) (Memᴰ.tail m) = omega (arith, bundle-le bundle bundles m)

  -- For every policy among those evaluated and every rule of it that fires, a returned outcome is
  -- no
  -- less severe than the rule's effect and than the policy's default effect.
  pub evaluate-no_override :
      (bundle : ActiveBundle) (rule : Rule) (bundles : List ActiveBundle) (r : Outcome)
      → Memᴰ bundle bundles
      → Memᴰ rule bundle.version.rules
      → rule_fires cel input bundle rule ≡ ok true
      → evaluate cel input bundles ≡ ok r
      → (severity rule.effect ≤ severity r.effect)
        × (severity bundle.version.default_effect ≤ severity r.effect)
  unfolding rule_severity highest_severity
  evaluate-no_override bundle rule bundles r in_bundles in_rules fires h =
      let bound = evaluate-severity cel input bundles r h in
      let fired : rule_severity cel input bundle rule ≡ severity rule.effect =
        ground (arith, fires) in
      let rule_bound = rule-le bundle rule bundle.version.rules in_rules in
      let bundle_bound = bundle-le bundle bundles in_bundles in
      (
        not_less-severe (omega (arith, fired, rule_bound, bundle_bound)) bound,
        not_less-severe (omega (arith, bundle_bound)) bound,
      )

  -- The baseline bounds the outcome.
  baseline-le :
      (bundles : List ActiveBundle) (r : Outcome)
      → evaluate cel input bundles ≡ ok r
      → severity (autonomy_baseline input).effect ≤ severity r.effect
  unfolding highest_severity
  baseline-le bundles r h = not_less-severe (omega arith) (evaluate-severity cel input bundles r h)

  baseline-suggest :
      (input.subject.type == subject_agent) ≡ true
      → input.subject.agent_autonomy ≡ "suggest"
      → (autonomy_baseline input).effect ≡ require_approval
  unfolding autonomy_baseline
  baseline-suggest agent suggests = rw (agent, suggests) refl

  baseline-approval_required :
      (input.subject.type == subject_agent) ≡ true
      → input.subject.agent_autonomy ≡ "approval_required"
      → (autonomy_baseline input).effect ≡ require_approval
  unfolding autonomy_baseline
  baseline-approval_required agent asks = rw (agent, asks) refl

  asks_first :
      (e : Effect)
      → (autonomy_baseline input).effect ≡ require_approval
      → severity (autonomy_baseline input).effect ≤ severity e
      → (e ≡ deny) ⊎ (e ≡ require_approval)
  unfolding severity
  asks_first e asks bound = ground (arith, ap severity asks, bound)

  -- Whatever the policies and the conditions say, for a request of an agent: if its autonomy is to
  -- observe only and the action does not read, or is none of the four known, a returned outcome is
  -- a denial; if its autonomy is to suggest or to ask for approval, it is a denial or requires an
  -- approval.
  pub evaluate-autonomy :
      (bundles : List ActiveBundle) (r : Outcome)
      → (input.subject.type == subject_agent) ≡ true
      → evaluate cel input bundles ≡ ok r
      → ((input.subject.agent_autonomy == "observe_only") ≡ true
          → is_read_action input.action ≡ false
          → r.effect ≡ deny)
        × ((input.subject.agent_autonomy == "observe_only"
                || (input.subject.agent_autonomy == "suggest"
                    || (input.subject.agent_autonomy == "approval_required"
                        || input.subject.agent_autonomy == "policy_bounded")))
              ≡ false
            → r.effect ≡ deny)
        × ((input.subject.agent_autonomy ≡ "suggest")
              ⊎ (input.subject.agent_autonomy ≡ "approval_required")
            → (r.effect ≡ deny) ⊎ (r.effect ≡ require_approval))
  unfolding autonomy_baseline severity
  evaluate-autonomy bundles r agent h =
      let bound = baseline-le bundles r h in
      (
        λ observe write. severity-deny r.effect (ground (arith, agent, observe, write, bound)),
        λ unknown. severity-deny r.effect (ground (arith, agent, unknown, bound)),
        elim [
          | inl suggests ↦ asks_first r.effect (baseline-suggest agent suggests) bound
          | inr asks ↦ asks_first r.effect (baseline-approval_required agent asks) bound
        ],
      )
