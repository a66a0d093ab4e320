-- ===== src/Serial/Deframer/Bounds.antt =====
-- What holds of the deframer after any bits at all.
use v34_working.Base.{
  ℕ, ◌+◌, ◌*◌, ◌%◌, ◌^◌, ◌≤◌, ◌<◌, ◌≡◌, refl, ap, List, [], ◌∷◌, ◌||◌, true, bit_or, u8, leb, ltb,
  length, length-append, passes, passes_lem, arith, leb→le,
}
use v34_working.Serial.Deframer.{
  Deframer, State, idle, collecting, stop, out_size, init, dispatch, flush, deframer_bit, feed,
}

-- The byte so far fits the bits so far, and the output array is never overrun.
pub record IsValid (d : Deframer) : Type 0 where
  pub out_fits : length d.out ≤ out_size
  pub unfinished : d.state ≡ collecting → (d.nbits < 8) × (d.byte < 2 ^ d.nbits)
  pub finished : d.state ≡ stop → (d.nbits ≡ 8) × (d.byte < 256)

or_bound_table :
    passes
      (λ n.
        passes (λ x. passes (λ b. leb (2 ^ n) x || ltb (bit_or x (b * 2 ^ n)) (2 ^ (n + 1))) 2) 256)
      8
    ≡ true
unfolding passes
or_bound_table = refl

pow_bound_table : passes (λ n. leb (2 ^ n) 256) 9 ≡ true
unfolding passes
pow_bound_table = refl

pow_bound : (n : ℕ) → n < 9 → 2 ^ n ≤ 256
pow_bound n h = leb→le _ _ (passes_lem _ 9 n h pow_bound_table)

or_bound : (n x bit : ℕ) → n < 8 → x < 2 ^ n → bit < 2 → bit_or x (bit * 2 ^ n) < 2 ^ (n + 1)
or_bound n x bit hn hx hb =
    let row = passes_lem _ 8 n hn or_bound_table in
    let cell = passes_lem _ 256 x (omega (arith, pow_bound n)) row in
    let entry = passes_lem _ 2 bit hb cell in ground (arith, entry)

flush-IsValid : (d : Deframer) → IsValid d → IsValid (flush d) × (length (flush d).out < out_size)
unfolding flush
flush-IsValid d v = ground arith

dispatch-IsValid :
    (d : Deframer) (s : State) (bit : ℕ)
    → d.state ≡ s
    → bit < 2
    → IsValid d
    → length d.out < out_size
    → IsValid (dispatch s bit d)
unfolding dispatch
dispatch-IsValid d idle bit e hb v room = ground arith
dispatch-IsValid d collecting bit e hb v room =
    ground (arith, or_bound d.nbits d.byte bit, v.unfinished e)
dispatch-IsValid d stop bit e hb v room = ground (arith, length-append d.out (u8 d.byte ∷ []))

state-flush : (d : Deframer) → (flush d).state ≡ d.state
unfolding flush
state-flush d = ground arith

-- Every bit keeps the deframer valid.
pub deframer_bit-IsValid : (d : Deframer) (bit : ℕ) → IsValid d → IsValid (deframer_bit d bit)
unfolding deframer_bit
deframer_bit-IsValid d bit v =
    let (w, room) = flush-IsValid d v in
    dispatch-IsValid (flush d) d.state (bit % 2) (state-flush d) (omega arith) w room

pub init-IsValid : IsValid init
unfolding init
init-IsValid = ground arith

feed-IsValid : (bits : List ℕ) (d : Deframer) → IsValid d → IsValid (feed d bits)
unfolding feed
feed-IsValid [] d v = v
feed-IsValid (b ∷ bs) d v = feed-IsValid bs (deframer_bit d b) (deframer_bit-IsValid d b v)

-- From its start, whatever bits come in, the deframer never overruns its output array, shifts no
-- data bit beyond the eighth, and finishes a byte with exactly eight bits and a value below 256.
pub feed-init-IsValid : (bits : List ℕ) → IsValid (feed init bits)
feed-init-IsValid bits = feed-IsValid bits init init-IsValid

length-dispatch :
    (d : Deframer) (s : State) (bit : ℕ) → length (dispatch s bit d).out ≤ length d.out + 1
unfolding dispatch
length-dispatch d idle bit = ground arith
length-dispatch d collecting bit = ground arith
length-dispatch d stop bit = ground (arith, length-append d.out (u8 d.byte ∷ []))

flush-full : (d : Deframer) → out_size ≤ length d.out → (flush d).out ≡ []
unfolding flush
flush-full d full = ground arith

-- A bit that finds the output full drops every byte held: at most the one byte that this bit may
-- complete is left.
pub deframer_bit-full :
    (d : Deframer) (bit : ℕ) → out_size ≤ length d.out → length (deframer_bit d bit).out ≤ 1
unfolding deframer_bit
deframer_bit-full d bit full =
    omega (arith, length-dispatch (flush d) d.state (bit % 2), ap length (flush-full d full))
