-- ===== src/Prelude/Integers.antt =====
-- Go's int, where the program tells 0 from a negative number.
use Prim.Native.Nat.{ℕ}
use mathlib.Core.Path.{◌≡◌}

-- pos n is n, and negsuc n is -(n + 1).
pub data ℤ : Type 0 where
  pos negsuc : ℕ → ℤ

-- The number, or 0 for a negative one.
abbrev pub positive_part : ℤ → ℕ
positive_part (pos n) = n
positive_part (negsuc n) = 0

abbrev pub IsNegative : ℤ → Type 0
IsNegative n = (m : ℕ) × (n ≡ negsuc m)
