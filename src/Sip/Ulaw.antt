-- ===== src/Sip/Ulaw.antt =====
-- The G.711 u-law codec of `src/sip/sm_sip.c`. An `int16_t` is its 16-bit pattern.
pub mod Codec
use v34_working.Base.{
  ℕ, zero, suc, ◌+◌, ◌-◌, ◌*◌, ◌/◌, ◌%◌, ◌^◌, bit_and, bit_or, ◌==◌, ltb, not, if◌then◌else◌,
}

-- BIAS
abbrev pub bias : ℕ
bias = 0x84

-- CLIP
abbrev pub clip : ℕ
clip = 32635

-- The complement of a byte.
abbrev complement : ℕ → ℕ
complement u = 255 - u % 256

-- `sm_ulaw_decode`
unfoldable pub decode : ℕ → ℕ
decode u =
    let v = complement u in
    let t = (bit_and v 0x0F * 8 + bias) * 2 ^ (bit_and v 0x70 / 16) in
    if bit_and v 0x80 == 0 then (t - bias) % 65536 else (65536 + bias - t) % 65536

-- The `while` of `sm_ulaw_encode`: the sample and the exponent at its end.
unfoldable pub normalize : ℕ → ℕ → ℕ × ℕ
normalize zero sample = (sample, zero)
normalize (suc exponent) sample =
    let rest = normalize exponent (sample * 2) in
    if bit_and sample 0x4000 == 0 then rest else (sample, suc exponent)

-- The magnitude that is coded, for the sign bit 0x80 or 0.
unfoldable pub magnitude : ℕ → ℕ → ℕ
magnitude sign pcm =
    let sample = if sign == 0 then pcm else 65536 - pcm in
    (if ltb clip sample then clip else sample) + bias

-- `sm_ulaw_encode`
unfoldable pub encode : ℕ → ℕ
unfolding normalize magnitude
encode pcm =
    let sign = bit_and (pcm / 256) 0x80 in
    let (sample, exponent) = normalize 7 (magnitude sign pcm) in
    let mantissa = bit_and (sample / 1024) 0x0F in
    complement (bit_or (bit_or sign (exponent * 16)) mantissa)
