-- ===== src/Prelude/EqTests.antt =====
-- Equality tests: one operator for every type that has an instance.
use Prim.Native.Nat.{ℕ, compare, Ordering}
use Prim.Native.String.{String}
use mathlib.Core.Path.{◌≡◌, refl}
use mathlib.Core.Logic.{◌↔◌, inl, inr}
use mathlib.Core.Bool.{Bool, true, false, ◌&&◌, ◌||◌}
use mathlib.Core.List.{List, [], ◌∷◌, ◌++◌}
use native.Mathlib.Omega.{arith}
use text.Mathlib.Text.{◌==◌ as str_eq}
use text.Mathlib.TextEquality.{eq_iff}
use gereh.Prelude.Tests.{Bool-cases}
use gereh.Prelude.Lists.{keep_if, all_of}

-- A Boolean test of a type together with the proof that it decides equality.
pub record Eq {ℓ} (A : Type ℓ) : Type ℓ where
  pub same_as : A → A → Bool
  pub same_iff : (left right : A) → (same_as left right ≡ true) ↔ (left ≡ right)

-- Texts are compared by the library, native numbers by their three-way comparison.
instance abbrev pub string_eq : Eq String
string_eq = record { same_iff = eq_iff; same_as = str_eq }

abbrev pub nat_beq : ℕ → ℕ → Bool
nat_beq a b = elim (compare a b) [ Ordering.eq ↦ true | _ ↦ false ]

pub nat_beq_iff : (a b : ℕ) → (nat_beq a b ≡ true) ↔ (a ≡ b)
nat_beq_iff a b = ground arith

instance abbrev pub nat_eq : Eq ℕ
nat_eq = record { same_iff = nat_beq_iff; same_as = nat_beq }

infix 50 ◌==◌
abbrev pub ◌==◌ {ℓ} : {A : Type ℓ} ⦃test : Eq A⦄ → A → A → Bool
◌==◌ ⦃test⦄ left right = test.same_as left right

module _ {ℓ} {A : Type ℓ} ⦃e : Eq A⦄ where
  pub eq_refl : (a : A) → (a == a) ≡ true
  eq_refl a = (e.same_iff a a).1 refl

  -- `slices.Contains`
  abbrev pub contains : List A → A → Bool
  contains [] a = false
  contains (x ∷ xs) a = a == x || contains xs a

  -- An element is in a filtered list exactly when it is in the list and passes the test.
  pub contains-keep_if :
      (p : A → Bool) (xs : List A) (a : A) → contains (keep_if p xs) a ≡ (contains xs a && p a)
  contains-keep_if p [] a = refl
  contains-keep_if p (x ∷ xs) a = elim (Bool-cases (a == x)) [
    | inl same ↦ rw ((e.same_iff a x).0 same) (ground (arith, eq_refl x, contains-keep_if p xs x))
    | inr other ↦ ground (arith, contains-keep_if p xs a)
  ]

  -- What a table test says of every member.
  pub all_of-contains :
      (p : A → Bool) (xs : List A) (a : A) → all_of p xs ≡ true → contains xs a ≡ true → p a ≡ true
  all_of-contains p [] a h m = cc
  all_of-contains p (x ∷ xs) a h m = elim (Bool-cases (a == x)) [
    | inl same ↦ rw ((e.same_iff a x).0 same) (ground arith)
    | inr other ↦ all_of-contains p xs a (ground arith) (ground arith)
  ]

  pub contains-append :
      (xs ys : List A) (a : A) → contains (xs ++ ys) a ≡ (contains xs a || contains ys a)
  contains-append [] ys a = refl
  contains-append (x ∷ xs) ys a = ground (arith, contains-append xs ys a)
