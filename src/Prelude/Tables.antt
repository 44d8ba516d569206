-- ===== src/Prelude/Tables.antt =====
-- A table of a database as a list of rows: the statements that the services send, and how they
-- change the number of rows that satisfy a test.
use Prim.Native.Nat.{ℕ, suc, ◌+◌, ◌≤◌}
use mathlib.Core.Path.{◌≡◌, refl}
use mathlib.Core.Bool.{Bool, true, false, ◌&&◌}
use mathlib.Core.Option
use mathlib.Core.Option.{Option, none, some}
use mathlib.Core.List.{List, [], ◌∷◌, ◌++◌, map}
use native.Mathlib.Omega.{arith}
use gereh.Prelude.Lists.{length, keep_if}
use gereh.Prelude.Tests.{if◌then◌else◌}

module _ {ℓ} {A : Type ℓ} where
  -- SELECT of one row.
  unfoldable pub find_row : (A → Bool) → List A → Option A
  find_row p [] = none
  find_row p (x ∷ xs) = if p x then some x else find_row p xs

  -- How many rows a WHERE clause selects, the rows that an UPDATE or a DELETE affects.
  unfoldable pub count_where : (A → Bool) → List A → ℕ
  count_where p [] = 0
  count_where p (x ∷ xs) = let n = count_where p xs in if p x then suc n else n

  -- UPDATE … WHERE
  unfoldable pub update_where : (A → Bool) → (A → A) → List A → List A
  update_where p f [] = []
  update_where p f (x ∷ xs) = (if p x then f x else x) ∷ update_where p f xs

  -- DELETE … WHERE
  unfoldable pub delete_where : (A → Bool) → List A → List A
  delete_where p [] = []
  delete_where p (x ∷ xs) = let rest = delete_where p xs in if p x then rest else x ∷ rest

  pub count_where-append :
      (p : A → Bool) (xs ys : List A)
      → count_where p (xs ++ ys) ≡ count_where p xs + count_where p ys
  unfolding count_where
  count_where-append p [] ys = omega arith
  count_where-append p (x ∷ xs) ys = ground (arith, count_where-append p xs ys)

  pub count_where_mono :
      (p q : A → Bool) (xs : List A)
      → ((x : A) → p x ≡ true → q x ≡ true)
      → count_where p xs ≤ count_where q xs
  unfolding count_where
  count_where_mono p q [] h = omega arith
  count_where_mono p q (x ∷ xs) h = ground (arith, h x, count_where_mono p q xs h)

  -- No more rows stop satisfying `p` than the update touches.
  pub count_where-update_where :
      (p q : A → Bool) (f : A → A) (xs : List A)
      → count_where p xs ≤ count_where p (update_where q f xs) + count_where q xs
  unfolding count_where update_where
  count_where-update_where p q f [] = omega arith
  count_where-update_where p q f (x ∷ xs) = ground (arith, count_where-update_where p q f xs)

  -- An update that does not change what `p` reads of the touched rows keeps the count.
  pub count_where-update_where_same :
      (p q : A → Bool) (f : A → A) (xs : List A)
      → ((x : A) → q x ≡ true → p (f x) ≡ p x)
      → count_where p (update_where q f xs) ≡ count_where p xs
  unfolding count_where update_where
  count_where-update_where_same p q f [] h = refl
  count_where-update_where_same p q f (x ∷ xs) h =
      ground (arith, h x, count_where-update_where_same p q f xs h)

  -- Rows that satisfy `p` before an update that makes no row lose it satisfy it after.
  pub count_where-update_where_ge :
      (p q : A → Bool) (f : A → A) (xs : List A)
      → ((x : A) → q x ≡ true → p x ≡ true → p (f x) ≡ true)
      → count_where p xs ≤ count_where p (update_where q f xs)
  unfolding count_where update_where
  count_where-update_where_ge p q f [] h = omega arith
  count_where-update_where_ge p q f (x ∷ xs) h =
      ground (arith, h x, count_where-update_where_ge p q f xs h)

  pub count_where-delete_where :
      (p q : A → Bool) (xs : List A)
      → count_where p xs ≤ count_where p (delete_where q xs) + count_where q xs
  unfolding count_where delete_where
  count_where-delete_where p q [] = omega arith
  count_where-delete_where p q (x ∷ xs) = ground (arith, count_where-delete_where p q xs)

  pub count_where-delete_where_le :
      (p q : A → Bool) (xs : List A) → count_where p (delete_where q xs) ≤ count_where p xs
  unfolding count_where delete_where
  count_where-delete_where_le p q [] = omega arith
  count_where-delete_where_le p q (x ∷ xs) = ground (arith, count_where-delete_where_le p q xs)

  -- A deletion of rows that do not satisfy `p` keeps the count.
  pub count_where-delete_where_same :
      (p q : A → Bool) (xs : List A)
      → ((x : A) → q x ≡ true → p x ≡ false)
      → count_where p (delete_where q xs) ≡ count_where p xs
  unfolding count_where delete_where
  count_where-delete_where_same p q [] h = refl
  count_where-delete_where_same p q (x ∷ xs) h =
      ground (arith, h x, count_where-delete_where_same p q xs h)

  pub find_row-satisfies :
      (p : A → Bool) (xs : List A) (a : A) → find_row p xs ≡ some a → p a ≡ true
  unfolding find_row
  find_row-satisfies p [] a h = cc
  find_row-satisfies p (x ∷ xs) a h = ground (arith, find_row-satisfies p xs a)

  -- A row that is found counts.
  pub count_where-find_row :
      (p q : A → Bool) (xs : List A) (a : A)
      → find_row p xs ≡ some a
      → q a ≡ true
      → 1 ≤ count_where q xs
  unfolding find_row count_where
  count_where-find_row p q [] a h k = cc
  count_where-find_row p q (x ∷ xs) a h k = ground (arith, count_where-find_row p q xs a)

  -- No row is found exactly when none counts.
  pub find_row-none : (p : A → Bool) (xs : List A) → find_row p xs ≡ none → count_where p xs ≡ 0
  unfolding find_row count_where
  find_row-none p [] h = refl
  find_row-none p (x ∷ xs) h = ground (arith, find_row-none p xs)

  -- At most the touched rows that satisfied `p` stop doing so.
  pub count_where-update_where_both :
      (p q : A → Bool) (f : A → A) (xs : List A)
      → count_where p xs ≤ count_where p (update_where q f xs) + count_where (λ x. q x && p x) xs
  unfolding count_where update_where
  count_where-update_where_both p q f [] = omega arith
  count_where-update_where_both p q f (x ∷ xs) =
      ground (arith, count_where-update_where_both p q f xs)

  pub count_where-delete_where_both :
      (p q : A → Bool) (xs : List A)
      → count_where p xs ≤ count_where p (delete_where q xs) + count_where (λ x. q x && p x) xs
  unfolding count_where delete_where
  count_where-delete_where_both p q [] = omega arith
  count_where-delete_where_both p q (x ∷ xs) = ground (arith, count_where-delete_where_both p q xs)

  -- If `p` selects one row at most, what fails of the row that is found fails of all it selects.
  pub count_where-found :
      (p q : A → Bool) (xs : List A) (a : A)
      → find_row p xs ≡ some a
      → count_where p xs ≤ 1
      → q a ≡ false
      → count_where (λ x. p x && q x) xs ≡ 0
  unfolding find_row count_where
  count_where-found p q [] a h one no_q = refl
  count_where-found p q (x ∷ xs) a h one no_q = ground (
    arith,
    count_where-found p q xs a,
    count_where_mono (λ y. p y && q y) p xs (λ y k. ground arith),
  )

  pub length-map-keep_if {κ} :
      {B : Type κ} (p : A → Bool) (f : A → B) (xs : List A)
      → length (map f (keep_if p xs)) ≡ count_where p xs
  unfolding count_where
  length-map-keep_if p f [] = refl
  length-map-keep_if p f (x ∷ xs) = ground (arith, length-map-keep_if p f xs)

  pub count_where-never :
      (p : A → Bool) (xs : List A) → ((x : A) → p x ≡ false) → count_where p xs ≡ 0
  unfolding count_where
  count_where-never p [] h = refl
  count_where-never p (x ∷ xs) h = rw (h x) (count_where-never p xs h)

  -- An update that keeps what `p` reads changes the row that is found, and finds no other.
  pub find_row-update_where :
      (p q : A → Bool) (f : A → A) (xs : List A)
      → ((x : A) → p (f x) ≡ p x)
      → find_row p (update_where q f xs) ≡ Option.map (λ x. if q x then f x else x) (find_row p xs)
  unfolding find_row update_where
  find_row-update_where p q f [] same = refl
  find_row-update_where p q f (x ∷ xs) same =
      ground (arith, same x, find_row-update_where p q f xs same)

  pub find_row-append :
      (p : A → Bool) (xs ys : List A) (a : A)
      → find_row p xs ≡ some a
      → find_row p (xs ++ ys) ≡ some a
  unfolding find_row
  find_row-append p [] ys a h = cc
  find_row-append p (x ∷ xs) ys a h = ground (arith, find_row-append p xs ys a)

  pub keep_if-append :
      (p : A → Bool) (xs ys : List A) → keep_if p (xs ++ ys) ≡ keep_if p xs ++ keep_if p ys
  keep_if-append p [] ys = refl
  keep_if-append p (x ∷ xs) ys = ground (arith, keep_if-append p xs ys)

  -- Changes of rows that `p` does not select leave what it selects.
  pub keep_if-update_where :
      (p q : A → Bool) (f : A → A) (xs : List A)
      → ((x : A) → p (f x) ≡ p x)
      → ((x : A) → q x ≡ true → p x ≡ false)
      → keep_if p (update_where q f xs) ≡ keep_if p xs
  unfolding update_where
  keep_if-update_where p q f [] same apart = refl
  keep_if-update_where p q f (x ∷ xs) same apart =
      ground (arith, same x, apart x, keep_if-update_where p q f xs same apart)

  pub keep_if-delete_where :
      (p q : A → Bool) (xs : List A)
      → ((x : A) → q x ≡ true → p x ≡ false)
      → keep_if p (delete_where q xs) ≡ keep_if p xs
  unfolding delete_where
  keep_if-delete_where p q [] apart = refl
  keep_if-delete_where p q (x ∷ xs) apart =
      ground (arith, apart x, keep_if-delete_where p q xs apart)
