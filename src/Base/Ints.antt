-- ===== src/Base/Ints.antt =====
-- Signed numbers over the native ones, for what the program counts below 0.
use Prim.Native.Nat.{ℕ, ◌+◌, ◌-◌}
use v34_working.Base.Tests.{leb, if◌then◌else◌}

pub data ℤ : Type 0 where
  pos negsuc : ℕ → ℤ

-- A number of either sign with a natural number.
unfoldable pub raise : ℤ → ℕ → ℤ
raise (pos a) n = pos (a + n)
raise (negsuc a) n = if leb (a + 1) n then pos (n - (a + 1)) else negsuc (a - n)

unfoldable pub lower_by : ℤ → ℕ → ℤ
lower_by (pos a) n = if leb n a then pos (a - n) else negsuc (n - a - 1)
lower_by (negsuc a) n = negsuc (a + n)
