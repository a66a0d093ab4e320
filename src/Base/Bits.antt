-- ===== src/Base/Bits.antt =====
-- The lowest binary digit of `bit_xor` at variables.
use Prim.Native.Nat.{ℕ, zero, suc, ◌+◌, ◌%◌, ◌<◌, differ, bit_xor, bit_xor-bitwise}
use mathlib.Core.Path.{◌≡◌, refl}
use native.Mathlib.Omega.{arith}

differ_digits : (x y : ℕ) → x < 2 → y < 2 → differ x y ≡ (x + y) % 2
differ_digits zero zero hx hy = refl
differ_digits zero (suc zero) hx hy = refl
differ_digits (suc zero) zero hx hy = refl
differ_digits (suc zero) (suc zero) hx hy = refl
differ_digits zero (suc (suc y)) hx hy = absurd (omega arith)
differ_digits (suc zero) (suc (suc y)) hx hy = absurd (omega arith)
differ_digits (suc (suc x)) y hx hy = absurd (omega arith)

pub bit_xor-mod_two : (a b : ℕ) → bit_xor a b % 2 ≡ (a + b) % 2
bit_xor-mod_two zero b = simp bit_xor-bitwise (omega arith)
bit_xor-mod_two (suc a) b =
    simp bit_xor-bitwise
      (omega (arith, differ_digits (suc a % 2) (b % 2) (omega arith) (omega arith)))
