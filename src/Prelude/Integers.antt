-- ===== src/Prelude/Integers.antt =====
-- Whole numbers with a sign, over the native ℕ.
use Prim.Native.Nat.{ℕ, zero, suc}
use mathlib.Core.Bool.{Bool, true, false}
use lapor_kos.Prelude.Tests.{leb}

-- `negsuc n` is `-(n + 1)`.
pub data ℤ : Type 0 where
  pos negsuc : ℕ → ℤ

-- `-n`; `-0` compares as `0` does.
abbrev pub neg : ℕ → ℤ
neg zero = pos 0
neg (suc n) = negsuc n

-- `a <= b`
abbrev pub leb_int : ℤ → ℤ → Bool
leb_int (pos a) (pos b) = leb a b
leb_int (pos a) (negsuc b) = false
leb_int (negsuc a) (pos b) = true
leb_int (negsuc a) (negsuc b) = leb b a

-- `a >= 0`
abbrev pub is_nonnegative : ℤ → Bool
is_nonnegative a = leb_int (pos 0) a
