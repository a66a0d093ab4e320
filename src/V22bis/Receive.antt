-- ===== src/V22bis/Receive.antt =====
-- The receiver's training in `process_half_baud` (v22bis_rx.c), once a symbol is sliced: `nearest` is
-- its index, and what is floating point (equalizer, carrier, slicer) is left out.
pub mod Sound
pub mod Locked
use v34_working.Base.{
  ℕ, zero, suc, ◌+◌, ◌-◌, ◌*◌, ◌/◌, ◌%◌, ◌^◌, List, [], ◌∷◌, ◌++◌, Bool, true, false, ◌&&◌, ◌||◌,
  not, leb, ltb, ◌==◌, bit_xor, u64, if◌then◌else◌,
}
use v34_working.V22bis.Symbols.{Decoder, raw_bits_of, decode_baud, decode_baudx}
use v34_working.V22bis.Transmit.{
  Tx, Training, Status, u0011, s11, timed_s11, retrain_occurred, ms_to_symbols,
}

-- `v22bis_rx_training_t`
pub data RxTraining : Type 0 where
  normal_operation symbol_acquisition unscrambled_ones unscrambled_ones_sustaining
        scrambled_ones_at_1200 scrambled_ones_at_1200_sustaining wait_for_scrambled_ones_at_2400
        parked :
      RxTraining

abbrev pub is_parked : RxTraining → Bool
is_parked parked = true
is_parked _ = false

-- `v22bis_state_t`: the transmitter, the decoder, and the receiver's training. `bits` are the calls
-- of `put_bit`.
pub record Modem : Type 0 where
  pub bit_rate : ℕ
  pub tx : Tx
  pub decoder : Decoder
  pub training : RxTraining
  pub training_count : ℕ
  pub pattern_repeats : ℕ
  pub last_raw_bits : ℕ
  pub raw_history : ℕ
  pub raw_hist_count : ℕ
  pub gardner_step : ℕ
  pub bits : List ℕ

-- The transmitter is moved to a stage, from its start.
abbrev pub send : Training → Modem → Modem
send stage m = record m { tx = record m.tx { training = stage; training_count = 0 } }

abbrev pub negotiate : ℕ → Modem → Modem
negotiate rate m = record m { tx = record m.tx { negotiated_bit_rate = rate } }

-- The raw bits are all ones or all zeros.
abbrev pub steady : ℕ → Bool
steady raw = (raw == 3) || (raw == 0)

-- The alternation was long enough for S1.
abbrev was_s1 : Modem → Bool
was_s1 m = leb 50 m.pattern_repeats && steady m.last_raw_bits

abbrev is_normal : RxTraining → Bool
is_normal normal_operation = true
is_normal _ = false

-- This symbol ends an S1 in data mode, so that the receiver retrains.
unfoldable pub retrains : ℕ → Modem → Bool
unfolding raw_bits_of
retrains nearest m =
    let raw = raw_bits_of nearest m.decoder.constellation_state in
    (is_normal m.training && not (bit_xor m.last_raw_bits raw == 3)) && was_s1 m

-- S1 in data mode asks for a retrain.
unfoldable pub search_retrain : ℕ → Modem → Modem
search_retrain raw m =
    if bit_xor m.last_raw_bits raw == 3
    then record m { pattern_repeats = m.pattern_repeats + 1 }
    else if was_s1 m
    then record m {
      pattern_repeats = 0;
      training_count = 0;
      training = scrambled_ones_at_1200;
      tx = record m.tx {
        training = u0011;
        training_count = 0;
        reports = m.tx.reports ++ retrain_occurred ∷ [];
      };
    }
    else record m { pattern_repeats = 0 }

-- `decode_baud`
unfoldable pub deliver : ℕ → Modem → Modem
unfolding decode_baud
deliver nearest m =
    let (bits, d) = decode_baud m.decoder nearest in record m { bits = m.bits ++ bits; decoder = d }

-- `decode_baudx`, its result and the receiver after it.
unfoldable pub decode : ℕ → Modem → ℕ × Modem
unfolding decode_baudx
decode nearest m =
    let (bitstream, d) = decode_baudx m.decoder nearest in (bitstream, record m { decoder = d })

abbrev pub place : ℕ → Modem → Modem
place nearest m = record m { decoder = record m.decoder { constellation_state = nearest } }

-- `case V22BIS_RX_TRAINING_SYMBOL_ACQUISITION`
unfoldable pub acquire : Modem → Modem
acquire m =
    let m' = record m { training_count = m.training_count + 1 } in
    if leb 40 (m.training_count + 1)
    then negotiate 1200 (record m' {
      gardner_step = 4;
      pattern_repeats = 0;
      training = if m.tx.calling_party then unscrambled_ones else scrambled_ones_at_1200;
    })
    else if m.training_count + 1 == 30
    then record m' { gardner_step = 32 }
    else m'

-- The answer to unscrambled ones that have lasted.
unfoldable pub answer_ones : ℕ → ℕ → Modem → Modem
answer_ones raw repeats m =
    if ((raw == m.last_raw_bits) && steady raw) && leb (ms_to_symbols 456) repeats
    then if m.bit_rate == 2400 then send u0011 m else send s11 m
    else m

-- `case V22BIS_RX_TRAINING_UNSCRAMBLED_ONES`
unfoldable pub ones : ℕ → ℕ → Modem → Modem
unfolding answer_ones
ones nearest raw m =
    let repeats = if raw == m.last_raw_bits then m.pattern_repeats + 1 else 0 in
    let m' = record (place nearest m) {
      pattern_repeats = repeats;
      training_count = m.training_count + 1;
    } in
    if m.training_count + 1 == ms_to_symbols (155 + 456)
    then record (answer_ones raw repeats m') {
      pattern_repeats = 0;
      training_count = 0;
      training = unscrambled_ones_sustaining;
    }
    else m'

-- `case V22BIS_RX_TRAINING_UNSCRAMBLED_ONES_SUSTAINING`
unfoldable pub ones_sustaining : ℕ → ℕ → Modem → Modem
ones_sustaining nearest raw m =
    if raw == m.last_raw_bits then place nearest m else record (send timed_s11 (place nearest m)) {
      training_count = 0;
      training = scrambled_ones_at_1200;
      pattern_repeats = 0;
    }

-- The `for` loop over the history: how many neighbours, from the `k`th on, differ in both bits.
unfoldable pub alternations : ℕ → ℕ → ℕ → ℕ
alternations zero k history = 0
alternations (suc left) k history =
    (if bit_xor (history / 4 ^ k % 4) (history / 4 ^ (k + 1) % 4) == 3 then 1 else 0)
    + alternations left (k + 1) history

-- The sliding window.
unfoldable pub look : ℕ → Modem → Modem
unfolding alternations
look raw m =
    let history = u64 (m.raw_history * 4 + raw) in
    let m' = record m { raw_history = history; raw_hist_count = m.raw_hist_count + 1 } in
    let alt = alternations 31 0 history in
    if leb 16 (m.raw_hist_count + 1)
    then record m' { pattern_repeats = if leb 23 alt && steady m.last_raw_bits then alt else 0 }
    else m'

-- S1 is seen.
unfoldable pub accept_s1 : Modem → Modem
accept_s1 m =
    let m' = record m { pattern_repeats = 0; raw_hist_count = 0; training_count = 0 } in
    if m.bit_rate == 2400
    then negotiate 2400 (if m.tx.calling_party then m' else send u0011 m')
    else m'

-- No S1 is seen in time.
unfoldable pub settle : Modem → Modem
settle m =
    if leb (ms_to_symbols 400) m.training_count
    then record (send timed_s11 m) {
      training = if m.tx.calling_party then normal_operation else scrambled_ones_at_1200_sustaining;
    }
    else m

-- The end of the scrambled ones at 1200 once 2400 is agreed on.
unfoldable pub widen : Modem → Modem
widen m =
    if leb (if m.tx.calling_party then ms_to_symbols (100 + 450) else ms_to_symbols 450)
      m.training_count
    then record m {
      decoder = record m.decoder { sixteen_way = true };
      training = wait_for_scrambled_ones_at_2400;
      pattern_repeats = 0;
    }
    else m

-- The search for S1 at 1200, after the window has moved on.
unfoldable pub search_s1 : Modem → Modem
unfolding accept_s1 settle
search_s1 m = if leb 23 m.pattern_repeats && steady m.last_raw_bits then accept_s1 m else settle m

-- `case V22BIS_RX_TRAINING_SCRAMBLED_ONES_AT_1200`
unfoldable pub ones_at_1200 : ℕ → ℕ → Modem → Modem
unfolding decode look search_s1 widen
ones_at_1200 nearest raw m =
    let m₁ = (decode nearest m).1 in
    let m₂ = record m₁ { training_count = m₁.training_count + 1 } in
    if m₂.tx.negotiated_bit_rate == 1200 then search_s1 (look raw m₂) else widen m₂

-- `case V22BIS_RX_TRAINING_SCRAMBLED_ONES_AT_1200_SUSTAINING`
unfoldable pub sustain : ℕ → Modem → Modem
unfolding decode
sustain nearest m =
    let m₁ = (decode nearest m).1 in
    let m₂ = record m₁ { training_count = m₁.training_count + 1 } in
    if ltb (ms_to_symbols (270 + 765)) m₂.training_count
    then record m₂ { training = normal_operation }
    else m₂

-- `case V22BIS_RX_TRAINING_WAIT_FOR_SCRAMBLED_ONES_AT_2400`
unfoldable pub wait_2400 : ℕ → Modem → Modem
unfolding decode
wait_2400 nearest m =
    let (bitstream, m₁) = decode nearest m in
    if bitstream == 15
    then record m₁ {
      pattern_repeats = m₁.pattern_repeats + 1;
      training = if leb 9 (m₁.pattern_repeats + 1) then normal_operation else m₁.training;
    }
    else record m₁ { pattern_repeats = 0 }

-- The end of every case: the raw bits are kept.
abbrev pub keep : ℕ → Modem → Modem
keep raw m = record m { last_raw_bits = raw }

-- The `switch`. Some cases leave the raw bits at 0.
unfoldable pub dispatch : RxTraining → ℕ → Modem → Modem
unfolding raw_bits_of search_retrain deliver acquire ones ones_sustaining ones_at_1200 sustain
    wait_2400
dispatch normal_operation nearest m =
    let raw = raw_bits_of nearest m.decoder.constellation_state in
    keep raw (deliver nearest (search_retrain raw m))
dispatch symbol_acquisition nearest m = keep 0 (acquire m)
dispatch unscrambled_ones nearest m =
    let raw = raw_bits_of nearest m.decoder.constellation_state in keep raw (ones nearest raw m)
dispatch unscrambled_ones_sustaining nearest m =
    let raw = raw_bits_of nearest m.decoder.constellation_state in
    keep raw (ones_sustaining nearest raw m)
dispatch scrambled_ones_at_1200 nearest m =
    let raw = raw_bits_of nearest m.decoder.constellation_state in
    keep raw (ones_at_1200 nearest raw m)
dispatch scrambled_ones_at_1200_sustaining nearest m = keep 0 (sustain nearest m)
dispatch wait_for_scrambled_ones_at_2400 nearest m = keep 0 (wait_2400 nearest m)
dispatch parked nearest m = keep 0 m

-- A sliced symbol.
unfoldable pub baud : ℕ → Modem → Modem
unfolding dispatch
baud nearest m = dispatch m.training nearest m

-- The symbols in order.
unfoldable pub receive : List ℕ → Modem → Modem
unfolding baud
receive [] m = m
receive (x ∷ xs) m = receive xs (baud x m)
