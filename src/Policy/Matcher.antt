-- ===== src/Policy/Matcher.antt =====
-- services/policy-approval/internal/engine/matcher.go: which rules concern a request, before their
-- conditions are evaluated.
pub mod Patterns
pub mod Padding
use Prim.Native.Char.{code}
use gereh.Prelude.{
  ltb, if◌then◌else◌, any_of, is_empty, ℤ, lt_int, has_prefix, has_suffix, trim_suffix, trim_right,
  trim_left, byte_length, ◌==◌, contains, ℕ, ◌+◌, ◌*◌, String, Bool, true, false, ◌&&◌, ◌||◌, not,
  Option, none, some, [], ◌∷◌, string_eq, nat_eq,
}
use gereh.Policy.Model.{Rule, EvaluationInput}

-- `strings.Count` of a text of one character.
unfoldable pub count_stars : String → ℕ
count_stars String.[] = 0
count_stars (String.◌∷◌ c s) = (if code c == 42 then 1 else 0) + count_stars s

-- Whether the validation accepts a pattern; its errors are all ErrInvalidArgument.
unfoldable pub validate_action_pattern : String → Bool
unfolding trim_right trim_left byte_length count_stars has_suffix
validate_action_pattern untrimmed =
    let pattern = trim_left (trim_right untrimmed) in
    if pattern == "" || ltb 256 (byte_length pattern)
    then false
    else if ltb 1 (count_stars pattern)
    then false
    else if ltb 0 (count_stars pattern) && not (has_suffix pattern "*")
    then false
    else true

unfoldable pub action_matches : String → String → Bool
unfolding has_suffix has_prefix trim_suffix
action_matches pattern action =
    if has_suffix pattern "*"
    then has_prefix action (trim_suffix pattern "*")
    else pattern == action

-- A missing limit is not exceeded.
abbrev pub exceeds : ℤ → Option ℤ → Bool
exceeds cost none = false
exceeds cost (some limit) = lt_int limit cost

unfoldable pub rule_matches_prefilter : Rule → EvaluationInput → Bool
unfolding action_matches
rule_matches_prefilter rule input =
    if not (any_of (λ pattern. action_matches pattern input.action) rule.action_patterns)
    then false
    else if not (is_empty rule.resource_types)
        && not (contains rule.resource_types input.resource.type)
    then false
    else if not (is_empty rule.risk_levels) && not (contains rule.risk_levels input.risk)
    then false
    else not (exceeds input.estimated_cost_micro_usd rule.maximum_estimated_cost_micro_usd)
