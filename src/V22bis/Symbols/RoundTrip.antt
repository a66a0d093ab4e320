-- ===== src/V22bis/Symbols/RoundTrip.antt =====
-- The receiver's quadrant differences and the transmitter's quadrant advances.
use v34_working.Base.{ℕ, zero, suc, ◌+◌, ◌-◌, ◌*◌, ◌/◌, ◌%◌, ◌<◌, ◌≡◌, refl, ap, ◌∙◌, arith}
use v34_working.V22bis.Symbols.{phase_steps, advance, raw_bits_of}

pub phase_steps-phase_steps :
    (bits : ℕ) → bits < 4 → (phase_steps (phase_steps bits) ≡ bits) × (phase_steps bits < 4)
unfolding phase_steps
phase_steps-phase_steps zero h = (refl, omega arith)
phase_steps-phase_steps (suc zero) h = (refl, omega arith)
phase_steps-phase_steps (suc (suc n)) h = (refl, omega arith)

-- The difference between a symbol's quadrant and the one before it is the dibit sent, whatever the
-- point within the quadrant.
pub raw_bits_of-advance :
    (q bits low state : ℕ)
    → q < 4
    → bits < 4
    → low < 4
    → state / 4 ≡ q
    → raw_bits_of (advance q bits * 4 + low) state ≡ bits
unfolding raw_bits_of advance
raw_bits_of-advance q bits low state hq hb hl e =
    let (twice, small) = phase_steps-phase_steps bits hb in
    let step : (((q + phase_steps bits) % 4 * 4 + low) / 4 % 4 + 4 - state / 4 % 4) % 4
        ≡ phase_steps bits =
      omega arith in
    ap phase_steps step ∙ twice

pub advance-lt : (q bits : ℕ) → advance q bits < 4
unfolding advance
advance-lt q bits = omega arith
