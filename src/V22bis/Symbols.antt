-- ===== src/V22bis/Symbols.antt =====
-- Quadrant coding of `src/modem/v22bis`: dibits as quadrant advances, and the two receive paths
-- (`decode_baud`, `decode_baudx`).
pub mod RoundTrip
use v34_working.Base.{
  ℕ, zero, suc, ◌+◌, ◌-◌, ◌*◌, ◌/◌, ◌%◌, ◌^◌, List, [], ◌∷◌, ◌++◌, Bool, if◌then◌else◌,
}
use v34_working.V22bis.Scrambler.{Scrambler, scramble, descramble}

-- `phase_steps[4]` of both files
unfoldable pub phase_steps : ℕ → ℕ
phase_steps zero = 1
phase_steps (suc zero) = 0
phase_steps (suc (suc n)) = suc (suc n)

-- `(state + phase_steps[bits]) & 3`
unfoldable pub advance : ℕ → ℕ → ℕ
unfolding phase_steps
advance state bits = (state + phase_steps bits) % 4

-- `phase_steps[((nearest >> 2) - (state >> 2)) & 3]`, on a difference that may be negative.
unfoldable pub raw_bits_of : ℕ → ℕ → ℕ
unfolding phase_steps
raw_bits_of nearest state = phase_steps ((nearest / 4 % 4 + 4 - state / 4 % 4) % 4)

-- What the two functions read and write of the receiver.
pub record Decoder : Type 0 where
  pub scrambler : Scrambler
  pub constellation_state : ℕ
  pub sixteen_way : Bool

-- One descrambled bit.
unfoldable pub put : Decoder → ℕ → ℕ × Decoder
unfolding descramble
put d bit = let (b, s) = descramble d.scrambler bit in (b, record d { scrambler = s })

-- `decode_baud`: the bits handed to `put_bit`, in order.
unfoldable pub decode_baud : Decoder → ℕ → List ℕ × Decoder
unfolding put raw_bits_of
decode_baud d nearest =
    let raw_bits = raw_bits_of nearest d.constellation_state in
    let (b₁, d₁) = put (record d { constellation_state = nearest }) (raw_bits / 2) in
    let (b₂, d₂) = put d₁ (raw_bits % 2) in
    let (b₃, d₃) = put d₂ (nearest / 2) in
    let (b₄, d₄) = put d₃ (nearest % 2) in
    if d.sixteen_way then (b₁ ∷ b₂ ∷ b₃ ∷ b₄ ∷ [], d₄) else (b₁ ∷ b₂ ∷ [], d₂)

-- `decode_baudx`: the same bits as one number, for the training states.
unfoldable pub decode_baudx : Decoder → ℕ → ℕ × Decoder
unfolding put raw_bits_of
decode_baudx d nearest =
    let raw_bits = raw_bits_of nearest d.constellation_state in
    let (b₁, d₁) = put (record d { constellation_state = nearest }) (raw_bits / 2) in
    let (b₂, d₂) = put d₁ (raw_bits % 2) in
    let (b₃, d₃) = put d₂ (nearest / 2) in
    let (b₄, d₄) = put d₃ (nearest % 2) in
    if d.sixteen_way then (b₁ * 8 + b₂ * 4 + b₃ * 2 + b₄, d₄) else (b₁ * 2 + b₂, d₂)
