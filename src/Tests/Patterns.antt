-- ===== src/Tests/Patterns.antt =====
-- Action patterns at concrete texts.
use gereh.Prelude.{
  is_space, byte_length, ◌==◌, ◌≤◌, String, ◌≡◌, refl, ◌↔◌, true, false, string_eq, nat_eq,
}
use gereh.Policy.Matcher.{validate_action_pattern, action_matches}
use gereh.Policy.Matcher.Patterns.{
  append, Matches, action_matches-Matches, trimmed, IsPattern, validate_action_pattern-IsPattern,
}
use gereh.Policy.Matcher.Padding.{action_matches-padded}

billing : action_matches "billing.*" "billing.pay" ≡ true
unfolding action_matches
billing = refl

action_matches-Matches_example :
    (action_matches "billing.*" "billing.pay" ≡ true) ↔ Matches "billing.*" "billing.pay"
action_matches-Matches_example = action_matches-Matches "billing.*" "billing.pay"

accepted : validate_action_pattern "billing.*" ≡ true
unfolding validate_action_pattern is_space
accepted = refl

-- A second star is refused.
refused : validate_action_pattern "work.*.*" ≡ false
unfolding validate_action_pattern is_space
refused = refl

validate_action_pattern-IsPattern_example : (validate_action_pattern "billing.*" ≡ true) ↔ (
    ((trimmed "billing.*" == "") ≡ false)
    × (byte_length (trimmed "billing.*") ≤ 256)
    × IsPattern (trimmed "billing.*"))
validate_action_pattern-IsPattern_example = validate_action_pattern-IsPattern "billing.*"

abbrev payment : String
payment = "billing.pay"

action_matches-padded_example :
    (validate_action_pattern "billing.* " ≡ true)
    × (action_matches "billing.* " payment ≡ true → payment ≡ "billing.* ")
unfolding append
action_matches-padded_example = action_matches-padded "billing." payment accepted
