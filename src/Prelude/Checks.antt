-- ===== src/Prelude/Checks.antt =====
-- A test that all rows of a table pass, as a check of the table, under the statements.
use mathlib.Core.Path.{◌≡◌, refl}
use mathlib.Core.Logic.{◌⊎◌, inl, inr}
use mathlib.Core.Bool.{Bool, true, false, ◌||◌, ◌&&◌}
use mathlib.Core.Option.{none, some}
use mathlib.Core.List.{List, [], ◌∷◌, ◌++◌}
use native.Mathlib.Omega.{arith}
use gereh.Prelude.Tests.{if◌then◌else◌, Bool-cases}
use gereh.Prelude.Lists.{keep_if, all_of, any_of, is_empty}
use gereh.Prelude.Tables.{find_row, update_where}

module _ {ℓ} {A : Type ℓ} where
  pub all_of-append :
      (p : A → Bool) (xs ys : List A) → all_of p (xs ++ ys) ≡ (all_of p xs && all_of p ys)
  all_of-append p [] ys = refl
  all_of-append p (x ∷ xs) ys = ground (arith, all_of-append p xs ys)

  pub any_of-append :
      (p : A → Bool) (xs ys : List A) → any_of p (xs ++ ys) ≡ (any_of p xs || any_of p ys)
  any_of-append p [] ys = refl
  any_of-append p (x ∷ xs) ys = ground (arith, any_of-append p xs ys)

  -- A check that the affected rows were tested for.
  pub all_of-update_checked :
      (p sel : A → Bool) (f : A → A) (xs : List A)
      → all_of p xs ≡ true
      → all_of (λ x. p (f x)) (keep_if sel xs) ≡ true
      → all_of p (update_where sel f xs) ≡ true
  unfolding update_where
  all_of-update_checked p sel f [] h k = refl
  all_of-update_checked p sel f (x ∷ xs) h k = ground (arith, all_of-update_checked p sel f xs)

  pub all_of_mono :
      (p q : A → Bool) (xs : List A)
      → ((x : A) → p x ≡ true → q x ≡ true)
      → all_of p xs ≡ true
      → all_of q xs ≡ true
  all_of_mono p q [] sub h = refl
  all_of_mono p q (x ∷ xs) sub h = ground (arith, sub x, all_of_mono p q xs sub)

  pub any_of-update_where :
      (p sel : A → Bool) (f : A → A) (xs : List A)
      → ((x : A) → p (f x) ≡ p x)
      → any_of p (update_where sel f xs) ≡ any_of p xs
  unfolding update_where
  any_of-update_where p sel f [] same = refl
  any_of-update_where p sel f (x ∷ xs) same =
      ground (arith, same x, any_of-update_where p sel f xs same)

  -- A row that a query finds has passed.
  pub all_of-find_row :
      (p q : A → Bool) (xs : List A) (x : A)
      → all_of p xs ≡ true
      → find_row q xs ≡ some x
      → p x ≡ true
  unfolding find_row
  all_of-find_row p q [] x h e = cc
  all_of-find_row p q (y ∷ xs) x h e = ground (arith, all_of-find_row p q xs x)

  pub all_of-kept :
      (p sel q : A → Bool) (xs : List A) (x : A)
      → all_of p (keep_if sel xs) ≡ true
      → find_row q xs ≡ some x
      → sel x ≡ true
      → p x ≡ true
  unfolding find_row
  all_of-kept p sel q [] x h e k = cc
  all_of-kept p sel q (y ∷ xs) x h e k = ground (arith, all_of-kept p sel q xs x)

  pub find_row-any_of : (p : A → Bool) (xs : List A) → find_row p xs ≡ none → any_of p xs ≡ false
  unfolding find_row
  find_row-any_of p [] h = refl
  find_row-any_of p (x ∷ xs) h = ground (arith, find_row-any_of p xs)

  pub any_of_mono :
      (p q : A → Bool) (xs : List A)
      → ((x : A) → p x ≡ true → q x ≡ true)
      → any_of p xs ≡ true
      → any_of q xs ≡ true
  any_of_mono p q [] sub h = h
  any_of_mono p q (x ∷ xs) sub h = ground (arith, sub x, any_of_mono p q xs sub)

  -- A narrower query finds nothing either.
  pub find_row-narrower_none :
      (p q : A → Bool) (xs : List A)
      → ((x : A) → q x ≡ true → p x ≡ true)
      → find_row p xs ≡ none
      → find_row q xs ≡ none
  unfolding find_row
  find_row-narrower_none p q [] sub h = refl
  find_row-narrower_none p q (x ∷ xs) sub h =
      ground (arith, sub x, h, find_row-narrower_none p q xs sub)

  pub any_of-find_row :
      (p q : A → Bool) (xs : List A) (x : A)
      → find_row q xs ≡ some x
      → p x ≡ true
      → any_of p xs ≡ true
  unfolding find_row
  any_of-find_row p q [] x h k = cc
  any_of-find_row p q (y ∷ xs) x h k = ground (arith, h, k, any_of-find_row p q xs x)

  pub find_row-append_one :
      (p : A → Bool) (xs : List A) (x : A)
      → find_row p (xs ++ x ∷ [])
        ≡ elim (find_row p xs) [ none ↦ if p x then some x else none | some y ↦ some y ]
  unfolding find_row
  find_row-append_one p [] x = refl
  find_row-append_one p (y ∷ xs) x = ground (arith, find_row-append_one p xs x)

  pub find_row-keep_if :
      (p : A → Bool) (xs : List A) → find_row p xs ≡ none → is_empty (keep_if p xs) ≡ true
  unfolding find_row
  find_row-keep_if p [] h = refl
  find_row-keep_if p (x ∷ xs) h = ground (arith, h, find_row-keep_if p xs)

  -- What is found in a longer list is the first that the shorter one has, or the last of the
  -- longer.
  pub find_row-appended :
      (p : A → Bool) (xs : List A) (x y : A)
      → find_row p (xs ++ x ∷ []) ≡ some y
      → (find_row p xs ≡ some y) ⊎ ((find_row p xs ≡ none) × (p x ≡ true) × (x ≡ y))
  unfolding find_row
  find_row-appended p [] x y h = ground (arith, h)
  find_row-appended p (z ∷ xs) x y h = elim (Bool-cases (p z)) [
    | inl hit ↦ inl (ground (arith, hit, h))
    | inr miss ↦ elim (find_row-appended p xs x y (ground (arith, miss, h))) [
      | inl e ↦ inl (ground (arith, miss, e))
      | inr (e, k, same) ↦ inr (ground (arith, miss, e), k, same)
    ]
  ]
