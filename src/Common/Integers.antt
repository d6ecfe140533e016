-- ===== src/Common/Integers.antt =====
-- Signed integers over the native numbers, for the offsets of the backend.
use Prim.Native.Nat.{ℕ, suc, ◌+◌, ◌-◌}
use mathlib.Core.Bool.{Bool, true, false}
use joosc.Common.Tests.{leb, ltb, if◌then◌else◌}

-- `negsuc n` is one less than the negation of `n`.
pub data ℤ : Type 0 where
  pos negsuc : ℕ → ℤ

infixl 60 ◌+ℤ◌ ◌-ℤ◌
unfoldable pub ◌+ℤ◌ : ℤ → ℕ → ℤ
pos n +ℤ k = pos (n + k)
negsuc n +ℤ k = if ltb n k then pos (k - suc n) else negsuc (n - k)

unfoldable pub ◌-ℤ◌ : ℤ → ℕ → ℤ
pos n -ℤ k = if leb k n then pos (n - k) else negsuc (k - suc n)
negsuc n -ℤ k = negsuc (n + k)

abbrev pub is_nonnegative : ℤ → Bool
is_nonnegative (pos n) = true
is_nonnegative (negsuc n) = false
