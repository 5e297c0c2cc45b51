-- ===== src/Shared/Int.antt =====
-- Signed integers over the native numbers: exit codes and signal numbers (i32).
use Prim.Native.Nat.{ℕ}
use mathlib.Core.Bool.{Bool, false}
use nusa_launchd.Shared.Tests.{◌==◌}

-- `negsuc n` is -(n + 1).
pub data ℤ : Type 0 where
  pos : ℕ → ℤ
  negsuc : ℕ → ℤ

abbrev pub is_zero : ℤ → Bool
is_zero (pos n) = n == 0
is_zero (negsuc n) = false
