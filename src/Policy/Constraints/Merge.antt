-- ===== src/Policy/Constraints/Merge.antt =====
-- The limits and the lists of the merge of two constraint sets.
use gereh.Prelude.{
  Bool-cases, is_empty, ℤ, insert_text, sort_texts, ◌==◌, string_eq, eq_refl, contains,
  contains-append, String, ◌≡◌, refl, ap, ◌∙◌, inl, inr, Bool, true, false, ◌&&◌, ◌||◌, Option,
  none, some, List, [], ◌∷◌, ◌++◌, arith, nat_eq,
}
use gereh.Policy.Matcher.{exceeds}
use gereh.Policy.Constraints.{clone_int64, minimum_int64, common, intersection, merge_constraints}
use gereh.Policy.Model.{Constraints}

-- A value exceeds the smaller of two limits exactly when it exceeds one of them.
pub exceeds-minimum :
    (value : ℤ) (left right : Option ℤ)
    → exceeds value (minimum_int64 left right) ≡ (exceeds value left || exceeds value right)
unfolding minimum_int64 clone_int64
exceeds-minimum value none none = refl
exceeds-minimum value none (some right) = refl
exceeds-minimum value (some left) none = ground arith
exceeds-minimum value (some left) (some right) = ground arith

contains-insert_text :
    (x : String) (xs : List String) (a : String)
    → contains (insert_text x xs) a ≡ (a == x || contains xs a)
unfolding insert_text
contains-insert_text x [] a = refl
contains-insert_text x (y ∷ ys) a = ground (arith, contains-insert_text x ys a)

contains-sort_texts : (xs : List String) (a : String) → contains (sort_texts xs) a ≡ contains xs a
unfolding sort_texts
contains-sort_texts [] a = refl
contains-sort_texts (x ∷ xs) a =
    contains-insert_text x (sort_texts xs) a ∙ ap (λ b. a == x || b) (contains-sort_texts xs a)

-- The values that the loop adds to those it has.
contains-common :
    (right left result : List String) (a : String)
    → contains (common right left result) a
      ≡ (contains result a || contains left a && contains right a)
unfolding common
contains-common right [] result a = ground arith
contains-common right (x ∷ left) result a = elim (Bool-cases (a == x)) [
  | inl same ↦ rw ((string_eq.same_iff a x).0 same) (
      ground (
        arith,
        eq_refl x,
        contains-append result (x ∷ []) x,
        contains-common right left (result ++ x ∷ []) x,
        contains-common right left result x,
      ))
  | inr differs ↦ ground (
    arith,
    differs,
    contains-append result (x ∷ []) a,
    contains-common right left (result ++ x ∷ []) a,
    contains-common right left result a,
  )
]

contains-intersection :
    (left right : List String) (a : String)
    → is_empty left ≡ false
    → is_empty right ≡ false
    → contains (intersection left right) a ≡ (contains left a && contains right a)
unfolding intersection
contains-intersection [] right a l r = absurd (ground (arith, l))
contains-intersection (x ∷ left) [] a l r = absurd (ground (arith, r))
contains-intersection (x ∷ left) (y ∷ right) a l r =
    contains-sort_texts (common (y ∷ right) (x ∷ left) []) a
    ∙ contains-common (y ∷ right) (x ∷ left) [] a

-- An intersection with nothing in it.
contains-empty : (xs : List String) → ((a : String) → contains xs a ≡ false) → xs ≡ []
contains-empty [] h = refl
contains-empty (x ∷ xs) h = absurd (ground (arith, h x, eq_refl x))

-- The sorted intersection of two lists with nothing in common is empty, which the next merge reads
-- as no limit: the third list is kept as it is.
pub intersection-disjoint :
    (left right third : List String)
    → is_empty left ≡ false
    → is_empty right ≡ false
    → ((a : String) → contains left a ≡ true → contains right a ≡ false)
    → intersection (intersection left right) third ≡ third
unfolding intersection
intersection-disjoint left right third l r disjoint =
    let none_common : intersection left right ≡ [] =
      contains-empty (intersection left right)
        (λ a. ground (arith, contains-intersection left right a l r, disjoint a)) in
    rw none_common refl

-- Whether a merged list has a value: one of the lists has it, and none that has values leaves it
-- out.
abbrev pub is_kept : List String → List String → String → Bool
is_kept left right a =
    (contains left a || contains right a)
    && (is_empty left || contains left a)
    && (is_empty right || contains right a)

intersection-is_kept :
    (left right : List String) (a : String)
    → contains (intersection left right) a ≡ is_kept left right a
unfolding intersection
intersection-is_kept [] right a = ground arith
intersection-is_kept (x ∷ left) [] a = ground arith
intersection-is_kept (x ∷ left) (y ∷ right) a =
    ground (arith, contains-intersection (x ∷ left) (y ∷ right) a refl refl)

-- For any two constraint sets, a cost or a running time exceeds the merged limit exactly when it
-- exceeds that of either side; a domain or a resource is on the merged list exactly when one side
-- lists it and neither side has a list without it, so that the merged list has the values of
-- one side where the other has no list, and none where both have lists with nothing in common; and
-- a review is required exactly when either side requires it.
pub merge_constraints-limits :
    (current incoming : Constraints) (value : ℤ) (a : String)
    → let merged = merge_constraints current incoming in
      (exceeds value merged.max_cost_micro_usd
        ≡ (exceeds value current.max_cost_micro_usd || exceeds value incoming.max_cost_micro_usd))
      × (exceeds value merged.max_runtime_seconds ≡ (
          exceeds value current.max_runtime_seconds || exceeds value incoming.max_runtime_seconds))
      × (contains merged.allowed_domains a
          ≡ is_kept current.allowed_domains incoming.allowed_domains a)
      × (contains merged.allowed_resource_ids a
          ≡ is_kept current.allowed_resource_ids incoming.allowed_resource_ids a)
      × (merged.require_human_review
          ≡ (current.require_human_review || incoming.require_human_review))
unfolding merge_constraints
merge_constraints-limits current incoming value a = (
  exceeds-minimum value current.max_cost_micro_usd incoming.max_cost_micro_usd,
  exceeds-minimum value current.max_runtime_seconds incoming.max_runtime_seconds,
  intersection-is_kept current.allowed_domains incoming.allowed_domains a,
  intersection-is_kept current.allowed_resource_ids incoming.allowed_resource_ids a,
  refl,
)
