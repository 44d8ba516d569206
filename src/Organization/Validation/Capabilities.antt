-- ===== src/Organization/Validation/Capabilities.antt =====
-- The lists of capabilities that the service keeps: bounded, without repetitions, and of the same
-- capabilities as were asked for.
use gereh.Prelude.{
  ltb, if◌then◌else◌, Bool-cases, Bool-ext, length, all_of, any_of, length-append, count_where,
  count_where-append, ok, err, insert_text, sort_texts, ◌==◌, string_eq, contains, contains-append,
  ℕ, suc, ◌+◌, ◌≤◌, ◌<◌, String, ◌≡◌, refl, sym, ◌∙◌, subst, ◌⊎◌, inl, inr, Bool, true, false, ◌||◌,
  List, [], ◌∷◌, ◌++◌, arith, nat_eq,
}
use gereh.Organization.Model.{invalid_argument}
use gereh.Organization.Validation.{
  Libraries, normal, is_capability, collect_capabilities, normalize_capabilities,
}

length-insert_text : (x : String) (xs : List String) → length (insert_text x xs) ≡ suc (length xs)
unfolding insert_text
length-insert_text x [] = refl
length-insert_text x (y ∷ ys) = ground (arith, length-insert_text x ys)

length-sort_texts : (xs : List String) → length (sort_texts xs) ≡ length xs
unfolding sort_texts
length-sort_texts [] = refl
length-sort_texts (x ∷ xs) =
    ground (arith, length-insert_text x (sort_texts xs), length-sort_texts xs)

count_where-insert_text :
    (p : String → Bool) (x : String) (xs : List String)
    → count_where p (insert_text x xs) ≡ count_where p (x ∷ xs)
unfolding insert_text count_where
count_where-insert_text p x [] = refl
count_where-insert_text p x (y ∷ ys) = ground (arith, count_where-insert_text p x ys)

-- Sorting keeps how often each text stands in the list.
count_where-sort_texts :
    (p : String → Bool) (xs : List String) → count_where p (sort_texts xs) ≡ count_where p xs
unfolding sort_texts count_where
count_where-sort_texts p [] = refl
count_where-sort_texts p (x ∷ xs) =
    ground (arith, count_where-insert_text p x (sort_texts xs), count_where-sort_texts p xs)

-- How often a text stands in a list.
abbrev occurs : String → List String → ℕ
occurs v = count_where (λ w. w == v)

abbrev pub once_if : Bool → ℕ
once_if true = 1
once_if false = 0

abbrev NoneTwice : List String → Type 0
NoneTwice xs = (v : String) → occurs v xs ≡ once_if (contains xs v)

text_eq_comm : (a b : String) → (a == b) ≡ (b == a)
text_eq_comm a b =
    Bool-ext (a == b) (b == a)
      (λ h. (string_eq.same_iff b a).1 (sym ((string_eq.same_iff a b).0 h)))
      (λ h. (string_eq.same_iff a b).1 (sym ((string_eq.same_iff b a).0 h)))

module _ (libraries : Libraries) where
  abbrev asked_for : List String → String → Bool
  asked_for values v = any_of (λ w. normal libraries w == v) values

  abbrev all_capabilities : List String → Bool
  all_capabilities = all_of (λ w. is_capability libraries (normal libraries w))

  abbrev with_next : String → List String → List String
  with_next n result = if contains result n then result else result ++ n ∷ []

  contains-with_next :
      (n v : String) (result : List String)
      → contains (with_next n result) v ≡ (contains result v || n == v)
  contains-with_next n v result = elim (Bool-cases (contains result n)) [
    | inl k ↦ elim (Bool-cases (n == v)) [
      | inl same ↦
          let there : contains result v ≡ true =
            subst (λ x. contains result x ≡ true) ((string_eq.same_iff n v).0 same) k in
          ground (arith, k, same, there)
      | inr differs ↦ ground (arith, k, differs)
    ]
    | inr k ↦ ground (arith, k, contains-append result (n ∷ []) v, text_eq_comm v n)
  ]

  NoneTwice-with_next :
      (n : String) (result : List String) → NoneTwice result → NoneTwice (with_next n result)
  unfolding count_where
  NoneTwice-with_next n result old v = elim (Bool-cases (contains result n)) [
    | inl k ↦ ground (arith, k, old v)
    | inr k ↦ elim (Bool-cases (n == v)) [
      | inl same ↦
          let absent : contains result v ≡ false =
            subst (λ x. contains result x ≡ false) ((string_eq.same_iff n v).0 same) k in
          ground (
            arith,
            k,
            same,
            absent,
            old v,
            contains-append result (n ∷ []) v,
            text_eq_comm v n,
            count_where-append (λ w. w == v) result (n ∷ []),
          )
      | inr differs ↦ ground (
        arith,
        k,
        differs,
        old v,
        contains-append result (n ∷ []) v,
        text_eq_comm v n,
        count_where-append (λ w. w == v) result (n ∷ []),
      )
    ]
  ]

  length-with_next :
      (n : String) (result : List String) → length (with_next n result) ≤ length result + 1
  length-with_next n result = elim (Bool-cases (contains result n)) [
    | inl k ↦ ground (arith, k)
    | inr k ↦ ground (arith, k, length-append result (n ∷ []))
  ]

  collected :
      (values result : List String)
      → NoneTwice result
      → ((r : List String) × (collect_capabilities libraries values result ≡ ok r)
          × (length r ≤ length result + length values)
          × ((v : String) → occurs v r ≡ once_if (contains result v || asked_for values v))
          × (all_capabilities values ≡ true))
        ⊎ ((collect_capabilities libraries values result ≡ err invalid_argument)
            × (all_capabilities values ≡ false))
  unfolding collect_capabilities
  collected [] result old = inl (result, refl, omega arith, λ v. ground (arith, old v), refl)
  collected (x ∷ values) result old =
      let n = normal libraries x in
      elim (Bool-cases (is_capability libraries n)) [
        | inr k ↦ inr (ground (arith, k), ground (arith, k))
        | inl k ↦ elim (collected values (with_next n result) (NoneTwice-with_next n result old)) [
          | inr (e, bad) ↦ inr (ground (arith, k, e), ground (arith, k, bad))
          | inl (r, e, bound, same, all) ↦ inl (
            r,
            ground (arith, k, e),
            omega (arith, bound, length-with_next n result),
            λ v. ground (arith, same v, contains-with_next n v result),
            ground (arith, k, all),
          )
        ]
      ]

  -- A list of capabilities is accepted if it has 64 entries at most and each, without the spaces
  -- around it and in lower case, is not empty and has 128 bytes at most. The result then has 64
  -- entries at most, each capability that was asked for once, and no other. Every other list is
  -- refused as an invalid argument.
  pub normalize_capabilities-occurs :
      (values : List String)
      → ((r : List String) × (normalize_capabilities libraries values ≡ ok r)
          × (length values ≤ 64)
          × (all_capabilities values ≡ true)
          × (length r ≤ 64)
          × ((v : String) → occurs v r ≡ once_if (asked_for values v)))
        ⊎ ((normalize_capabilities libraries values ≡ err invalid_argument)
            × ((64 < length values) ⊎ (all_capabilities values ≡ false)))
  unfolding normalize_capabilities count_where
  normalize_capabilities-occurs values = elim (Bool-cases (ltb 64 (length values))) [
    | inl k ↦ inr (ground (arith, k), inl (ground (arith, k)))
    | inr k ↦ elim (collected values [] (λ v. refl)) [
      | inr (e, bad) ↦ inr (ground (arith, k, e), inr bad)
      | inl (r, e, bound, same, all) ↦ inl (
        sort_texts r,
        ground (arith, k, e),
        ground (arith, k),
        all,
        ground (arith, k, bound, length-sort_texts r),
        λ v. count_where-sort_texts (λ w. w == v) r ∙ same v,
      )
    ]
  ]
