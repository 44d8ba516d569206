-- ===== src/Policy/Constraints.antt =====
-- services/policy-approval/internal/engine/constraints.go: the merge of two constraint sets.
pub mod Merge
use gereh.Prelude.{
  if◌then◌else◌, ℤ, le_int, sort_texts, contains, String, ◌&&◌, ◌||◌, not, Option, none, some, List,
  [], ◌∷◌, ◌++◌, string_eq, nat_eq,
}
use gereh.Policy.Model.{Constraints}

unfoldable pub clone_int64 : Option ℤ → Option ℤ
clone_int64 none = none
clone_int64 (some value) = some value

unfoldable pub minimum_int64 : Option ℤ → Option ℤ → Option ℤ
unfolding clone_int64
minimum_int64 none right = clone_int64 right
minimum_int64 left none = clone_int64 left
minimum_int64 (some left) (some right) =
    if le_int left right then clone_int64 (some left) else clone_int64 (some right)

-- The loop of `intersection` over the left list, with the result so far.
unfoldable pub common : List String → List String → List String → List String
common right [] result = result
common right (value ∷ left) result =
    common right left
      (if contains right value && not (contains result value) then result ++ value ∷ [] else result)

unfoldable pub intersection : List String → List String → List String
unfolding common sort_texts
intersection [] right = right
intersection left [] = left
intersection left right = sort_texts (common right left [])

unfoldable pub merge_constraints : Constraints → Constraints → Constraints
unfolding minimum_int64 intersection
merge_constraints current incoming = record {
  max_cost_micro_usd = minimum_int64 current.max_cost_micro_usd incoming.max_cost_micro_usd;
  max_runtime_seconds = minimum_int64 current.max_runtime_seconds incoming.max_runtime_seconds;
  allowed_domains = intersection current.allowed_domains incoming.allowed_domains;
  allowed_resource_ids = intersection current.allowed_resource_ids incoming.allowed_resource_ids;
  require_human_review = current.require_human_review || incoming.require_human_review;
}
