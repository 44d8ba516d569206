-- ===== src/Tests/Validations.antt =====
-- Inputs of the organization service, and what its validation makes of them.
use gereh.Prelude.{
  length, all_of, any_of, count_where, ok, err, ◌==◌, contains, ℕ, ◌≤◌, ◌<◌, String, ◌≡◌, refl, ◌↔◌,
  ◌⊎◌, true, false, some, List, [], ◌∷◌, string_eq, nat_eq,
}
use gereh.Organization.Configuration.{
  text, array, object, no_values, entry, Fields, no_fields, field,
}
use gereh.Organization.Model.{invalid_argument}
use gereh.Organization.Validation.{
  Libraries, trim_space, forbidden_keys, normal, is_capability, normalize_capabilities,
  validate_configuration,
}
use gereh.Organization.Validation.Secrets.{HasKey, validate_configuration-HasKey}
use gereh.Organization.Validation.Capabilities.{once_if, normalize_capabilities-occurs}

abbrev libraries : Libraries
libraries = record {
  is_uuid = λ name. true;
  to_lower = λ name. name;
  encoded_length = λ given. some 100;
}

abbrev nested : Fields
nested = field "llm" (object (field "password" (text "x") no_fields)) no_fields

abbrev listed : Fields
listed =
    field "llm" (array (entry (object (field "password" (text "x") no_fields)) no_values)) no_fields

nested_refused : validate_configuration libraries (some nested) ≡ err invalid_argument
unfolding validate_configuration
nested_refused = refl

-- The same object in a list is accepted.
listed_accepted : validate_configuration libraries (some listed) ≡ ok tt
unfolding validate_configuration
listed_accepted = refl

validate_configuration-HasKey_example : (validate_configuration libraries (some nested) ≡ ok tt) ↔ (
    (size : ℕ) × (some 100 ≡ some size)
    × (size ≤ 65536)
    × ((key : String) → HasKey key nested → contains forbidden_keys key ≡ false))
validate_configuration-HasKey_example = validate_configuration-HasKey libraries nested

abbrev wanted : List String
wanted = " web " ∷ "mail" ∷ "web" ∷ []

three_to_two : normalize_capabilities libraries wanted ≡ ok ("mail" ∷ "web" ∷ [])
unfolding normalize_capabilities trim_space is_capability
three_to_two = refl

normalize_capabilities-occurs_example :
    ((r : List String) × (normalize_capabilities libraries wanted ≡ ok r)
      × (length wanted ≤ 64)
      × (all_of (λ w. is_capability libraries (normal libraries w)) wanted ≡ true)
      × (length r ≤ 64)
      × ((v : String)
          → count_where (λ w. w == v) r ≡ once_if (any_of (λ w. normal libraries w == v) wanted)))
    ⊎ ((normalize_capabilities libraries wanted ≡ err invalid_argument)
        × ((64 < length wanted)
            ⊎ (all_of (λ w. is_capability libraries (normal libraries w)) wanted ≡ false)))
normalize_capabilities-occurs_example = normalize_capabilities-occurs libraries wanted
