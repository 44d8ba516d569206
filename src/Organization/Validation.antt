-- ===== src/Organization/Validation.antt =====
-- services/organization-agent/internal/application/validation.go and pagination.go, and the
-- normalizations and status tests of agent.go: what the service accepts. Every refusal is
-- ErrInvalidArgument.
pub mod Secrets
pub mod Capabilities
use Prim.Native.Char.{code}
use gereh.Prelude.{
  ltb, leb, if◌then◌else◌, length, all_of, ℤ, pos, negsuc, Result, ok, err, trim_right, trim_left,
  byte_length, rune_count, sort_texts, ◌==◌, contains, ℕ, ◌*◌, String, Bool, true, false, ◌&&◌,
  ◌||◌, not, Option, none, some, List, [], ◌∷◌, ◌++◌, string_eq, nat_eq,
}
use gereh.Organization.Configuration.{Json, object, Fields, no_fields, field, Configuration}
use gereh.Organization.Model.{
  other, AgentStatus, draft, ready, degraded, paused, failed, ExecutionProfile, unset, balanced,
  AutonomyLevel, approval_required, Error, invalid_argument,
}

-- What is used of other libraries: `uuid.Parse`, `strings.ToLower` and `json.Marshal`, of which the
-- length of the result is read.
pub record Libraries : Type 0 where
  pub is_uuid : String → Bool
  pub to_lower : String → String
  pub encoded_length : Fields → Option ℕ

-- `strings.TrimSpace`
unfoldable pub trim_space : String → String
unfolding trim_left trim_right
trim_space value = trim_left (trim_right value)

abbrev pub require : Bool → Result Error (Unit {0})
require true = ok tt
require false = err invalid_argument

module _ (libraries : Libraries) where
  unfoldable pub validate_uuid : String → Result Error (Unit {0})
  validate_uuid value = require (libraries.is_uuid (trim_space value))

  -- The loop over a map of names and values, whose order does not matter for the result.
  unfoldable pub validate_uuids : List String → Result Error (Unit {0})
  unfolding validate_uuid
  validate_uuids values = require (all_of (λ value. libraries.is_uuid (trim_space value)) values)

-- [a-z0-9]
abbrev pub is_alphanumeric : ℕ → Bool
is_alphanumeric c = (leb 97 c && leb c 122) || (leb 48 c && leb c 57)

-- [a-z0-9-]*[a-z0-9]
unfoldable pub is_slug_tail : String → Bool
is_slug_tail String.[] = false
is_slug_tail (String.◌∷◌ c String.[]) = is_alphanumeric (code c)
is_slug_tail (String.◌∷◌ c (String.◌∷◌ d s)) =
    (is_alphanumeric (code c) || code c == 45) && is_slug_tail (String.◌∷◌ d s)

-- ^[a-z0-9](?:[a-z0-9-]{0,61}[a-z0-9])?$
unfoldable pub matches_slug : String → Bool
unfolding is_slug_tail rune_count
matches_slug String.[] = false
matches_slug (String.◌∷◌ c String.[]) = is_alphanumeric (code c)
matches_slug (String.◌∷◌ c (String.◌∷◌ d s)) =
    is_alphanumeric (code c)
    && (is_slug_tail (String.◌∷◌ d s) && leb (rune_count (String.◌∷◌ d s)) 62)

unfoldable pub bounded_text : String → ℕ → ℕ → Result Error String
unfolding rune_count
bounded_text untrimmed minimum maximum =
    let value = trim_space untrimmed in
    if ltb (rune_count value) minimum || ltb maximum (rune_count value)
    then err invalid_argument
    else ok value

abbrev pub forbidden_keys : List String
forbidden_keys =
    "api_key" ∷ "apikey" ∷ "access_token" ∷ "refresh_token" ∷ "password" ∷ "secret" ∷ "private_key"
    ∷ []

module _ (libraries : Libraries) where
  abbrev pub normal : String → String
  normal value = libraries.to_lower (trim_space value)

  unfoldable pub normalize_slug : String → Result Error String
  unfolding matches_slug
  normalize_slug value =
      if matches_slug (normal value) then ok (normal value) else err invalid_argument

  unfoldable pub is_capability : String → Bool
  unfolding byte_length
  is_capability value = not (value == "") && not (ltb 128 (byte_length value))

  -- The loop, with the result so far.
  unfoldable pub collect_capabilities : List String → List String → Result Error (List String)
  collect_capabilities [] result = ok result
  collect_capabilities (value ∷ values) result =
      let rest =
        collect_capabilities values
          (if contains result (normal value) then result else result ++ normal value ∷ []) in
      if is_capability (normal value) then rest else err invalid_argument

  unfoldable pub normalize_capabilities : List String → Result Error (List String)
  unfolding collect_capabilities sort_texts
  normalize_capabilities values =
      if ltb 64 (length values)
      then err invalid_argument
      else elim (collect_capabilities values []) [
        | ok result ↦ ok (sort_texts result)
        | err e ↦ err e
      ]

  -- The closure `inspect`: whether no key is forbidden, of the object and of the objects in it.
  unfoldable mutual
    pub inspect : Fields → Bool
    inspect no_fields = true
    inspect (field key raw rest) =
        not (contains forbidden_keys (libraries.to_lower key))
        && (inspect_value raw && inspect rest)

    pub inspect_value : Json → Bool
    inspect_value (object fields) = inspect fields
    inspect_value _ = true

  unfoldable pub validate_configuration : Configuration → Result Error (Unit {0})
  unfolding inspect
  validate_configuration none = ok tt
  validate_configuration (some value) = elim (libraries.encoded_length value) [
    | none ↦ err invalid_argument
    | some size ↦ if ltb (64 * 1024) size then err invalid_argument else require (inspect value)
  ]

unfoldable pub normalize_execution_profile : ExecutionProfile → Result Error ExecutionProfile
normalize_execution_profile ExecutionProfile.unset = ok balanced
normalize_execution_profile (ExecutionProfile.other name) = err invalid_argument
normalize_execution_profile value = ok value

unfoldable pub normalize_autonomy_level : AutonomyLevel → Result Error AutonomyLevel
normalize_autonomy_level AutonomyLevel.unset = ok approval_required
normalize_autonomy_level (AutonomyLevel.other name) = err invalid_argument
normalize_autonomy_level value = ok value

unfoldable pub can_pause : AgentStatus → Bool
can_pause ready = true
can_pause degraded = true
can_pause failed = true
can_pause _ = false

unfoldable pub can_resume : AgentStatus → Bool
can_resume paused = true
can_resume _ = false

unfoldable pub can_delete : AgentStatus → Bool
can_delete draft = true
can_delete paused = true
can_delete failed = true
can_delete _ = false

-- The size of a page of a list.
unfoldable pub normalize_page_size : ℤ → ℕ
normalize_page_size (negsuc n) = 50
normalize_page_size (pos n) = if n == 0 then 50 else if ltb 100 n then 100 else n
