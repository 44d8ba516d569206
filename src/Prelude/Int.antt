-- ===== src/Prelude/Int.antt =====
-- Signed integers over the native numbers, compared as the machine does.
use Prim.Native.Nat.{ℕ}
use mathlib.Core.Bool.{Bool, true, false}
use gereh.Prelude.Tests.{leb}

-- `negsuc n` is -(n + 1).
pub data ℤ : Type 0 where
  pos : ℕ → ℤ
  negsuc : ℕ → ℤ

-- `a <= b` on signed integers.
abbrev pub le_int : ℤ → ℤ → Bool
le_int (pos a) (pos b) = leb a b
le_int (pos a) (negsuc b) = false
le_int (negsuc a) (pos b) = true
le_int (negsuc a) (negsuc b) = leb b a

-- `a < b` on signed integers.
abbrev pub lt_int : ℤ → ℤ → Bool
lt_int a b = elim (le_int b a) [ true ↦ false | false ↦ true ]
