-- ===== src/Base/Word.antt =====
-- Unsigned machine words as native numbers, each wrap written out.
use Prim.Native.Nat.{ℕ, ◌+◌, ◌-◌, ◌%◌, ◌^◌}

abbrev pub u8 : ℕ → ℕ
u8 n = n % 2 ^ 8

abbrev pub u16 : ℕ → ℕ
u16 n = n % 2 ^ 16

abbrev pub u32 : ℕ → ℕ
u32 n = n % 2 ^ 32

abbrev pub u64 : ℕ → ℕ
u64 n = n % 2 ^ 64

-- `a - b` on words: `-` on ℕ stops at 0, so the modulus is added first.
abbrev pub sub_u32 : ℕ → ℕ → ℕ
sub_u32 a b = u32 (a + 2 ^ 32 - b)

abbrev pub sub_u64 : ℕ → ℕ → ℕ
sub_u64 a b = u64 (a + 2 ^ 64 - b)
