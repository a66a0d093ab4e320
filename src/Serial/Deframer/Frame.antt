-- ===== src/Serial/Deframer/Frame.antt =====
-- What the deframer makes of a framed byte, of an idle line, and of a damaged stop bit.
use v34_working.Base.{
  ℕ, zero, suc, ◌+◌, ◌*◌, ◌/◌, ◌%◌, ◌^◌, ◌<◌, ◌≡◌, refl, sym, ap, List, [], ◌∷◌, ◌++◌, true, bit_or,
  u8, u64, ◌==◌, ==_iff, length, replicate, passes, passes_lem, arith, ◌∙◌,
}
use v34_working.Serial.Queue.Framing.{data_bits, frame}
use v34_working.Serial.Deframer.{
  Deframer, State, idle, collecting, stop, out_size, deframer_bit, feed,
}

-- Between two bytes, with the line at rest: a falling edge starts the next byte.
pub record IsReady (d : Deframer) : Type 0 where
  pub resting : d.state ≡ idle
  pub line_high : d.prev ≡ 1

-- The data bits or-ed in one by one, as the `collecting` state does.
abbrev gather : ℕ → ℕ → ℕ → ℕ → ℕ
gather zero i acc byte = acc
gather (suc left) i acc byte = gather left (i + 1) (bit_or acc (byte / 2 ^ i % 2 % 2 * 2 ^ i)) byte

gather_table : passes (λ x. gather 8 0 0 x == x) 256 ≡ true
unfolding passes
gather_table = refl

gather_byte : (byte : ℕ) → byte < 256 → gather 8 0 0 byte ≡ byte
gather_byte byte h = (==_iff _ byte).0 (passes_lem _ 256 byte h gather_table)

-- A deframer field by field.
abbrev at : State → ℕ → ℕ → ℕ → List ℕ → ℕ → ℕ → Deframer
at state nbits byte prev out errors total = record {
  state = state;
  nbits = nbits;
  byte = byte;
  prev = prev;
  out = out;
  framing_errors = errors;
  bytes_out = total;
}

module _ (out : List ℕ) (room : length out < out_size) (errors total : ℕ) where
  start_bit :
      (nbits byte : ℕ)
      → deframer_bit (at idle nbits byte 1 out errors total) 0
        ≡ at collecting 0 0 0 out errors total
  unfolding deframer_bit
  start_bit nbits byte = ground arith

  data_bit :
      (i acc prev bit : ℕ)
      → i < 7
      → deframer_bit (at collecting i acc prev out errors total) bit
        ≡ at collecting (i + 1) (bit_or acc (bit % 2 * 2 ^ i)) (bit % 2) out errors total
  unfolding deframer_bit
  data_bit i acc prev bit h = ground arith

  last_data_bit :
      (acc prev bit : ℕ)
      → deframer_bit (at collecting 7 acc prev out errors total) bit
        ≡ at stop 8 (bit_or acc (bit % 2 * 2 ^ 7)) (bit % 2) out errors total
  unfolding deframer_bit
  last_data_bit acc prev bit = ground arith

  stop_bit :
      (byte prev : ℕ)
      → deframer_bit (at stop 8 byte prev out errors total) 1
        ≡ at idle 8 byte 1 (out ++ u8 byte ∷ []) errors (u64 (total + 1))
  unfolding deframer_bit
  stop_bit byte prev = ground arith

  damaged_stop_bit :
      (byte prev : ℕ)
      → deframer_bit (at stop 8 byte prev out errors total) 0
        ≡ at idle 8 byte 0 out (u64 (errors + 1)) total
  unfolding deframer_bit
  damaged_stop_bit byte prev = ground arith

  high_bit :
      (nbits byte : ℕ)
      → deframer_bit (at idle nbits byte 1 out errors total) 1
        ≡ at idle nbits byte 1 out errors total
  unfolding deframer_bit
  high_bit nbits byte = ground arith

  -- The data bits from bit `i` on.
  feed_data :
      (left i acc prev byte : ℕ) (rest : List ℕ)
      → i + suc left ≡ 8
      → feed (at collecting i acc prev out errors total) (data_bits (suc left) i byte ++ rest)
        ≡ feed
            (at stop 8 (gather (suc left) i acc byte) (byte / 2 ^ 7 % 2 % 2) out errors total)
            rest
  unfolding feed
  feed_data zero i acc prev byte rest e =
      let last : i ≡ 7 = omega arith in
      rw last (ap (λ d. feed d rest) (last_data_bit acc prev (byte / 2 ^ 7 % 2)))
  feed_data (suc left) i acc prev byte rest e =
      ap (λ d. feed d (data_bits (suc left) (i + 1) byte ++ rest))
        (data_bit i acc prev (byte / 2 ^ i % 2) (omega arith))
      ∙ feed_data left (i + 1) (bit_or acc (byte / 2 ^ i % 2 % 2 * 2 ^ i)) (byte / 2 ^ i % 2 % 2)
          byte rest (omega arith)

  -- A whole frame, and what follows it.
  feed-frame-at :
      (nbits byte b : ℕ) (rest : List ℕ)
      → b < 256
      → feed (at idle nbits byte 1 out errors total) (frame b ++ rest)
        ≡ feed (at idle 8 b 1 (out ++ b ∷ []) errors (u64 (total + 1))) rest
  unfolding feed
  feed-frame-at nbits byte b rest small =
      ap (λ d. feed d ((data_bits 8 0 b ++ 1 ∷ []) ++ rest)) (start_bit nbits byte)
      ∙ feed_data 7 0 0 0 b (1 ∷ rest) (omega arith)
      ∙ ap (λ d. feed d rest) (stop_bit (gather 8 0 0 b) (b / 2 ^ 7 % 2 % 2))
      ∙ ap (λ x. feed (at idle 8 x 1 (out ++ u8 x ∷ []) errors (u64 (total + 1))) rest)
          (gather_byte b small)
      ∙ ap (λ x. feed (at idle 8 b 1 (out ++ x ∷ []) errors (u64 (total + 1))) rest) (omega arith)

  -- The same with the stop bit damaged.
  feed_damaged_at :
      (nbits byte b : ℕ)
      → feed (at idle nbits byte 1 out errors total) (0 ∷ (data_bits 8 0 b ++ 0 ∷ []))
        ≡ at idle 8 (gather 8 0 0 b) 0 out (u64 (errors + 1)) total
  unfolding feed
  feed_damaged_at nbits byte b =
      ap (λ d. feed d (data_bits 8 0 b ++ 0 ∷ [])) (start_bit nbits byte)
      ∙ feed_data 7 0 0 0 b (0 ∷ []) (omega arith)
      ∙ damaged_stop_bit (gather 8 0 0 b) (b / 2 ^ 7 % 2 % 2)

-- The deframer after one good byte.
abbrev pub received : Deframer → ℕ → Deframer
received d byte = record d {
  state = idle;
  nbits = 8;
  byte = byte;
  prev = 1;
  out = d.out ++ byte ∷ [];
  bytes_out = u64 (d.bytes_out + 1);
}

ready_at :
    (d : Deframer) → IsReady d → d ≡ at idle d.nbits d.byte 1 d.out d.framing_errors d.bytes_out
ready_at d r = ground arith

pub received-IsReady : (d : Deframer) (byte : ℕ) → IsReady (received d byte)
received-IsReady d byte = record { resting = refl; line_high = refl }

-- A ready deframer with room takes the byte of a frame, and is ready for the bits that follow.
pub feed-frame :
    (d : Deframer) (byte : ℕ) (rest : List ℕ)
    → IsReady d
    → length d.out < out_size
    → byte < 256
    → feed d (frame byte ++ rest) ≡ feed (received d byte) rest
feed-frame d byte rest r room small =
    ap (λ x. feed x (frame byte ++ rest)) (ready_at d r)
    ∙ feed-frame-at d.out room d.framing_errors d.bytes_out d.nbits d.byte byte rest small

-- A line at rest brings nothing, for however long.
pub feed_ones :
    (n : ℕ) (d : Deframer) (rest : List ℕ)
    → IsReady d
    → length d.out < out_size
    → feed d (replicate n 1 ++ rest) ≡ feed d rest
unfolding feed
feed_ones zero d rest r room = refl
feed_ones (suc n) d rest r room =
    let still : deframer_bit d 1 ≡ d =
      ap (λ x. deframer_bit x 1) (ready_at d r)
      ∙ high_bit d.out room d.framing_errors d.bytes_out d.nbits d.byte
      ∙ sym (ready_at d r) in
    ap (λ x. feed x (replicate n 1 ++ rest)) still ∙ feed_ones n d rest r room

-- To a ready deframer with room, a frame whose stop bit is damaged is a framing error: it is
-- counted, its byte is not delivered, and the bytes already held stay.
pub feed_damaged :
    (d : Deframer) (byte : ℕ)
    → IsReady d
    → length d.out < out_size
    → let d' = feed d (0 ∷ (data_bits 8 0 byte ++ 0 ∷ [])) in
      (d'.out ≡ d.out)
      × (d'.framing_errors ≡ u64 (d.framing_errors + 1))
      × (d'.bytes_out ≡ d.bytes_out)
      × (d'.state ≡ idle)
      × (d'.prev ≡ 0)
feed_damaged d byte r room =
    let e =
      ap (λ x. feed x (0 ∷ (data_bits 8 0 byte ++ 0 ∷ []))) (ready_at d r)
      ∙ feed_damaged_at d.out room d.framing_errors d.bytes_out d.nbits d.byte byte in
    (
      ap (λ x. x.out) e,
      ap (λ x. x.framing_errors) e,
      ap (λ x. x.bytes_out) e,
      ap (λ x. x.state) e,
      ap (λ x. x.prev) e,
    )
