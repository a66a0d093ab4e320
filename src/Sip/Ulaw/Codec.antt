-- ===== src/Sip/Ulaw/Codec.antt =====
-- What a trip through the codec does to codes and to samples.
use v34_working.Base.{
  ℕ, ◌+◌, ◌-◌, ◌*◌, ◌/◌, ◌%◌, ◌≤◌, ◌<◌, ◌≡◌, refl, subst, Bool, true, leb, ltb, ◌==◌, ==_iff,
  leb→le, passes, passes_lem, arith, if◌then◌else◌,
}
use v34_working.Sip.Ulaw.{bias, clip, decode, encode, normalize, magnitude}

-- The code that stands for the decoded sample: the two codes of zero become one.
abbrev pub canonical : ℕ → ℕ
canonical u = if u == 0x7F then 0xFF else u

code_table : passes (λ u. encode (decode u) == canonical u) 256 ≡ true
unfolding passes encode decode normalize magnitude
code_table = refl

-- Every code but 0x7F, the second zero, comes back from its sample; 0x7F comes back as 0xFF.
pub encode-decode : (u : ℕ) → u < 256 → encode (decode u) ≡ canonical u
encode-decode u h = (==_iff _ _).0 (passes_lem _ 256 u h code_table)

-- A distance.
abbrev pub apart : ℕ → ℕ → ℕ
apart a b = (a - b) + (b - a)

-- The magnitude of a 16-bit pattern as a signed number.
abbrev pub size : ℕ → ℕ
size x = if ltb x 32768 then x else 65536 - x

-- What the coder aims at: the magnitude, clipped.
abbrev pub target : ℕ → ℕ
target x = if ltb clip (size x) then clip else size x

abbrev near : ℕ → Bool
near x = leb (apart (size (decode (encode x))) (target x) * 32) (target x + bias)

near_table : passes (λ hi. passes (λ lo. near (hi * 256 + lo)) 256) 256 ≡ true
unfolding passes encode decode normalize magnitude
near_table = refl

-- The magnitude of a coded and decoded sample differs from the clipped magnitude of the sample by
-- at most a thirty-second of that magnitude with the bias added.
pub decode-encode :
    (x : ℕ) → x < 65536 → apart (size (decode (encode x))) (target x) * 32 ≤ target x + bias
decode-encode x h =
    let row = passes_lem _ 256 (x / 256) (omega arith) near_table in
    let cell = passes_lem _ 256 (x % 256) (omega arith) row in
    let same : x / 256 * 256 + x % 256 ≡ x = omega arith in
    leb→le _ _ (subst (λ y. near y ≡ true) same cell)
