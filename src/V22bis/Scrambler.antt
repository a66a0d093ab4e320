-- ===== src/V22bis/Scrambler.antt =====
-- The self-synchronising scrambler (`scramble`, v22bis_tx.c) and descrambler (`descramble`,
-- v22bis_rx.c). The register is a `uint32_t`.
pub mod Sync
pub mod Acquire
use v34_working.Base.{
  ℕ, ◌+◌, ◌*◌, ◌/◌, ◌%◌, ◌^◌, List, [], ◌∷◌, bit_xor, leb, ◌==◌, u32, if◌then◌else◌,
}

-- `scramble_reg` and `scrambler_pattern_count`
pub record Scrambler : Type 0 where
  pub reg : ℕ
  pub count : ℕ

unfoldable pub restart : Scrambler
restart = record { reg = 0; count = 0 }

-- The tap sum of both functions.
unfoldable pub taps : ℕ → ℕ → ℕ
taps bit reg = bit_xor (bit_xor bit (reg / 2 ^ 13)) (reg / 2 ^ 16) % 2

-- `pattern_count` after the line bit.
unfoldable pub run_length : ℕ → ℕ → ℕ
run_length line count = if line == 1 then count + 1 else 0

unfoldable pub scramble : Scrambler → ℕ → ℕ × Scrambler
unfolding taps run_length
scramble s bit =
    let stuffed = leb 64 s.count in
    let bit' = if stuffed then bit_xor bit 1 else bit in
    let count = if stuffed then 0 else s.count in
    let out_bit = taps bit' s.reg in
    (out_bit, record { reg = u32 (s.reg * 2 + out_bit); count = run_length out_bit count })

unfoldable pub descramble : Scrambler → ℕ → ℕ × Scrambler
unfolding taps run_length
descramble s line =
    let bit = line % 2 in
    let out_bit = taps bit s.reg in
    let stuffed = leb 64 s.count in
    let out_bit' = if stuffed then bit_xor out_bit 1 else out_bit in
    let count = if stuffed then 0 else s.count in
    (out_bit', record { reg = u32 (s.reg * 2 + bit); count = run_length bit count })

-- The calls for a sequence of bits.
unfoldable pub scramble_all : Scrambler → List ℕ → List ℕ × Scrambler
scramble_all s [] = ([], s)
scramble_all s (b ∷ bs) =
    let (line, s') = scramble s b in let (rest, s'') = scramble_all s' bs in (line ∷ rest, s'')

unfoldable pub descramble_all : Scrambler → List ℕ → List ℕ × Scrambler
descramble_all s [] = ([], s)
descramble_all s (l ∷ ls) =
    let (bit, s') = descramble s l in let (rest, s'') = descramble_all s' ls in (bit ∷ rest, s'')
