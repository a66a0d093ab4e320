-- ===== src/V22bis/Scrambler/Sync.antt =====
-- The descrambler on what the scrambler sends.
use v34_working.Base.{
  ℕ, zero, suc, ◌+◌, ◌/◌, ◌%◌, ◌^◌, ◌<◌, ◌≡◌, refl, ap₂, List, [], ◌∷◌, All, bit_xor,
  bit_xor-mod_two, leb, arith, Bool-cases, inl, inr,
}
use v34_working.V22bis.Scrambler.{
  Scrambler, taps, scramble, descramble, scramble_all, descramble_all,
}

abbrev pub IsBit : ℕ → Type 0
IsBit b = b < 2

-- The taps look at the last seventeen line bits.
pub record InSync (tx rx : Scrambler) : Type 0 where
  pub same_reg : tx.reg % 2 ^ 17 ≡ rx.reg % 2 ^ 17
  pub same_count : tx.count ≡ rx.count

taps_sum : (bit reg : ℕ) → taps bit reg ≡ (bit + reg / 2 ^ 13 + reg / 2 ^ 16) % 2
unfolding taps
taps_sum bit reg = omega (
  arith,
  bit_xor-mod_two (bit_xor bit (reg / 2 ^ 13)) (reg / 2 ^ 16),
  bit_xor-mod_two bit (reg / 2 ^ 13),
)

flip_flip : (bit : ℕ) → IsBit bit → bit_xor (bit_xor bit 1) 1 ≡ bit
flip_flip zero h = refl
flip_flip (suc zero) h = refl
flip_flip (suc (suc b)) h = absurd (omega arith)

flip-IsBit : (bit : ℕ) → IsBit bit → IsBit (bit_xor bit 1)
flip-IsBit zero h = omega arith
flip-IsBit (suc zero) h = omega arith
flip-IsBit (suc (suc b)) h = absurd (omega arith)

-- The descrambler's tap sum over the line bit gives the bit back.
taps-taps : (bit r r' : ℕ) → IsBit bit → r % 2 ^ 17 ≡ r' % 2 ^ 17 → taps (taps bit r % 2) r' ≡ bit
taps-taps bit r r' h e = omega (arith, taps_sum bit r, taps_sum (taps bit r % 2) r')

pub taps-IsBit : (bit reg : ℕ) → IsBit (taps bit reg)
unfolding taps
taps-IsBit bit reg = omega arith

-- One bit through both ends.
pub descramble-scramble :
    (tx rx : Scrambler) (bit : ℕ)
    → IsBit bit
    → InSync tx rx
    → let (line, tx') = scramble tx bit in
      let (bit', rx') = descramble rx line in (bit' ≡ bit) × InSync tx' rx'
unfolding scramble descramble
descramble-scramble tx rx bit h s = elim (Bool-cases (leb 64 tx.count)) [
  | inl stuffed ↦ ground (
    arith,
    flip_flip bit h,
    taps-taps (bit_xor bit 1) tx.reg rx.reg (flip-IsBit bit h),
    taps-IsBit (bit_xor bit 1) tx.reg,
  )
  | inr plain ↦ ground (arith, taps-taps bit tx.reg rx.reg h, taps-IsBit bit tx.reg)
]

-- In step, the descrambler gives back every bit that went into the scrambler, and stays in step.
pub descramble_all-scramble_all :
    (bs : List ℕ) (tx rx : Scrambler)
    → All IsBit bs
    → InSync tx rx
    → let (line, tx') = scramble_all tx bs in
      let (bs', rx') = descramble_all rx line in (bs' ≡ bs) × InSync tx' rx'
unfolding scramble_all descramble_all
descramble_all-scramble_all [] tx rx h s = (refl, s)
descramble_all-scramble_all (b ∷ bs) tx rx h s =
    let (e, s') = descramble-scramble tx rx b h.0 s in
    let (es, s'') =
      descramble_all-scramble_all bs (scramble tx b).1 (descramble rx (scramble tx b).0).1 h.1 s' in
    (ap₂ ◌∷◌ e es, s'')
