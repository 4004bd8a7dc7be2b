-- ===== src/Base/Int.antt =====
-- Signed integers over the native numbers: what the program's tests on `int` and durations need.
use Prim.Native.Nat.{ℕ}
use mathlib.Core.Bool.{Bool, true, false}
use smtp_store.Base.Tests.{ltb, ◌==◌}

-- `negsuc n` is -(n + 1).
pub data ℤ : Type 0 where
  pos : ℕ → ℤ
  negsuc : ℕ → ℤ

-- `z == 0`, `z < 0` and `z < n`.
abbrev pub is_zero : ℤ → Bool
is_zero (pos n) = n == 0
is_zero (negsuc n) = false

abbrev pub is_negative : ℤ → Bool
is_negative (pos n) = false
is_negative (negsuc n) = true

abbrev pub is_below : ℤ → ℕ → Bool
is_below (pos n) m = ltb n m
is_below (negsuc n) m = true

-- `n < z`.
abbrev pub is_above : ℤ → ℕ → Bool
is_above (pos n) m = ltb m n
is_above (negsuc n) m = false
