-- ===== src/Base/Int.antt =====
-- Go's `int`, which the program only compares and passes on, so it needs no arithmetic.
use Prim.Native.Nat.{ℕ, ◌≤◌}
use mathlib.Core.Bool.{Bool, false}
use signbyte_bff.Base.Tests.{ltb}

-- `negsuc n` is -(n + 1).
pub data ℤ : Type 0 where
  pos : ℕ → ℤ
  negsuc : ℕ → ℤ

-- `n > k`
abbrev pub above : ℤ → ℕ → Bool
above (pos n) k = ltb k n
above (negsuc n) k = false

-- `z ≤ k`, for a bound that is not negative
abbrev pub IsAtMost : ℤ → ℕ → Type 0
IsAtMost (pos n) k = n ≤ k
IsAtMost (negsuc n) k = Unit
