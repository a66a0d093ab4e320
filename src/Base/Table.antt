-- ===== src/Base/Table.antt =====
-- Finite tables: a test that every number below a bound passes, found by evaluation.
use Prim.Native.Nat.{ℕ, zero, suc, ◌<◌}
use mathlib.Core.Path.{◌≡◌}
use mathlib.Core.Bool.{Bool, true, ◌&&◌}
use native.Mathlib.Omega.{arith}

-- The largest number is tried last.
unfoldable pub passes : (ℕ → Bool) → ℕ → Bool
passes test zero = true
passes test (suc top) = passes test top && test top

pub passes_lem :
    (test : ℕ → Bool) (limit i : ℕ) → i < limit → passes test limit ≡ true → test i ≡ true
unfolding passes
passes_lem test zero i small all = absurd (omega arith)
passes_lem test (suc top) i small all = ground (arith, passes_lem test top i)
