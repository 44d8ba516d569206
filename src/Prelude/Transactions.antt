-- ===== src/Prelude/Transactions.antt =====
-- Transactions: a body that reads and changes a store or ends with an error, composed as Go code
-- does with `if err != nil { return err }`, committed on success and rolled back on an error.
use mathlib.Core.Path.{◌≡◌, refl, sym, subst}
use mathlib.Core.Bool.{Bool, true, false}
use mathlib.Core.Option.{Option, none, some}
use gereh.Prelude.Results.{Result, ok, err}

-- The work inside a transaction.
abbrev pub Transaction {ℓ} : Type 0 → Type 0 → Type ℓ → Type ℓ
Transaction E S A = S → Result E (A × S)

abbrev pub continue {ℓ κ} :
    {E S : Type 0} {A : Type ℓ} {B : Type κ}
    → Result E (A × S)
    → (A → Transaction E S B)
    → Result E (B × S)
continue (ok (a, s)) f = f a s
continue (err e) f = err e

infixl 5 ◌>>=◌ ◌>>◌
abbrev pub ◌>>=◌ {ℓ κ} :
    {E S : Type 0} {A : Type ℓ} {B : Type κ}
    → Transaction E S A
    → (A → Transaction E S B)
    → Transaction E S B
◌>>=◌ m f s = continue (m s) f

abbrev pub ◌>>◌ {ℓ κ} :
    {E S : Type 0} {A : Type ℓ} {B : Type κ}
    → Transaction E S A
    → Transaction E S B
    → Transaction E S B
m >> k = m >>= λ _. k

-- A chain that succeeded has succeeded at its first step.
pub continue-inv {ℓ κ} :
    {E S : Type 0} {A : Type ℓ} {B : Type κ} (x : Result E (A × S)) (f : A → Transaction E S B)
    (r : B × S)
    → continue x f ≡ ok r
    → (a : A) × (s : S) × (x ≡ ok (a, s)) × (f a s ≡ ok r)
continue-inv (ok (a, s)) f r h = (a, s, refl, h)
continue-inv (err e) f r h = cc

abbrev pub pure {ℓ} : {E S : Type 0} {A : Type ℓ} → A → Transaction E S A
pure a s = ok (a, s)

abbrev pub throw {ℓ} : {E S : Type 0} {A : Type ℓ} → E → Transaction E S A
throw e s = err e

-- `if test { return err }`
abbrev pub throw_if : {E S : Type 0} → Bool → E → Transaction E S (Unit {0})
throw_if true e s = err e
throw_if false e s = ok (tt, s)

-- Commit on success, roll back on an error.
abbrev pub conclude {ℓ} : {E S : Type 0} {A : Type ℓ} → Result E (A × S) → S → Result E A × S
conclude (ok (a, s')) s = (ok a, s')
conclude (err e) s = (err e, s)

abbrev pub transact {ℓ} : {E S : Type 0} {A : Type ℓ} → Transaction E S A → S → Result E A × S
transact m s = conclude (m s) s

pub conclude-err {ℓ} :
    {E S : Type 0} {A : Type ℓ} (x : Result E (A × S)) (s : S) (e : E)
    → (conclude x s).0 ≡ err e
    → (conclude x s).1 ≡ s
conclude-err (ok (a, s')) s e h = cc
conclude-err (err e') s e h = refl

-- `mapDatabaseError` of the error that a query of one row gives for no row.
abbrev pub row_or {ℓ} : {E S : Type 0} {A : Type ℓ} → E → Option A → Transaction E S A
row_or e (some a) s = ok (a, s)
row_or e none s = err e

-- Whether a method succeeded, and the store after it.
abbrev pub outcome {ℓ} : {E S : Type 0} {A : Type ℓ} → Result E A × S → Result E (Unit {0}) × S
outcome (ok a, s) = (ok tt, s)
outcome (err e, s) = (err e, s)

pub outcome-store {ℓ} : {E S : Type 0} {A : Type ℓ} (x : Result E A × S) → (outcome x).1 ≡ x.1
outcome-store (ok a, s) = refl
outcome-store (err e, s) = refl

pub outcome-ok {ℓ} :
    {E S : Type 0} {A : Type ℓ} (x : Result E A × S)
    → (outcome x).0 ≡ ok tt
    → (a : A) × (x ≡ (ok a, x.1))
outcome-ok (ok a, s) h = (a, refl)
outcome-ok (err e, s) h = cc

-- What holds of the store after a success and, since an error rolls back, of the store before.
pub outcome_by {ℓ κ} :
    {E S : Type 0} {A : Type ℓ} (P : S → Type κ) (x : Result E A × S) (s : S)
    → ((a : A) → x ≡ (ok a, x.1) → P x.1)
    → ((e : E) → x.0 ≡ err e → x.1 ≡ s)
    → P s
    → P (outcome x).1
outcome_by P (ok a, s') s done undone h = done a refl
outcome_by P (err e, s') s done undone h = subst P (sym (undone e refl)) h
