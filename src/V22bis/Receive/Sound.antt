-- ===== src/V22bis/Receive/Sound.antt =====
-- What holds of the receiver after any symbols: the rate it has agreed on, the order of its reports,
-- and the step of its clock recovery.
use v34_working.Base.{
  arith, ◌≤◌, ◌++◌, Option, none, some, ℕ, ◌+◌, ◌≡◌, refl, ◌⊎◌, inl, inr, List, [], ◌∷◌, Bool, true,
  false, ◌&&◌, leb, ltb, ◌==◌, ==_iff, if◌then◌else◌, bit_xor, if-Has,
}
use v34_working.V22bis.Symbols.{raw_bits_of}
use v34_working.V22bis.Transmit.{
  Status, training_succeeded, training_failed, carrier_up, carrier_down, retrain_occurred,
  ms_to_symbols, u0011,
}
use v34_working.V22bis.Receive.{
  Modem, RxTraining, normal_operation, symbol_acquisition, unscrambled_ones,
  unscrambled_ones_sustaining, scrambled_ones_at_1200, scrambled_ones_at_1200_sustaining,
  wait_for_scrambled_ones_at_2400, parked, is_parked, send, negotiate, steady, search_retrain,
  deliver, decode, place, acquire, answer_ones, ones, ones_sustaining, look, accept_s1, settle,
  widen, search_s1, ones_at_1200, sustain, wait_2400, dispatch, baud,
}

-- 1200 bit/s, or 2400 in a modem that is set to 2400.
abbrev pub IsAllowed : Modem → Type 0
IsAllowed m =
    (m.tx.negotiated_bit_rate ≡ 1200) ⊎ ((m.tx.negotiated_bit_rate ≡ 2400) × (m.bit_rate ≡ 2400))

-- Carrier up and carrier down are reported in turn: from a carrier that is up or down to what it
-- is after the reports.
abbrev pub carrier : Bool → List Status → Option Bool
carrier up [] = some up
carrier up (carrier_up ∷ ss) = let rest = carrier true ss in if up then none else rest
carrier up (carrier_down ∷ ss) = let rest = carrier false ss in if up then rest else none
carrier up (training_succeeded ∷ ss) = carrier up ss
carrier up (training_failed ∷ ss) = carrier up ss
carrier up (retrain_occurred ∷ ss) = carrier up ss

-- A sound receiver, whose carrier is up or down.
abbrev pub IsSound : Bool → Modem → Type 0
IsSound up m =
    IsAllowed m
    × (carrier false m.tx.reports ≡ some up)
    × (m.gardner_step ≤ 256)
    × (is_parked m.training ≡ false)

pub carrier-append :
    (b up : Bool) (ss ss' : List Status)
    → carrier b ss ≡ some up
    → carrier b (ss ++ ss') ≡ carrier up ss'
carrier-append b up [] ss' e = ground arith
carrier-append true up (carrier_up ∷ ss) ss' e = cc
carrier-append false up (carrier_up ∷ ss) ss' e = carrier-append true up ss ss' e
carrier-append true up (carrier_down ∷ ss) ss' e = carrier-append false up ss ss' e
carrier-append false up (carrier_down ∷ ss) ss' e = cc
carrier-append b up (training_succeeded ∷ ss) ss' e = carrier-append b up ss ss' e
carrier-append b up (training_failed ∷ ss) ss' e = carrier-append b up ss ss' e
carrier-append b up (retrain_occurred ∷ ss) ss' e = carrier-append b up ss ss' e

-- A stage that is chosen is not parked when neither choice is.
if-is_parked :
    (b : Bool) (x y : RxTraining)
    → is_parked x ≡ false
    → is_parked y ≡ false
    → is_parked (if b then x else y) ≡ false
if-is_parked b x y h k = if-Has (λ s. is_parked s ≡ false) b x y (λ _. h) (λ _. k)

module _ (up : Bool) where
  if-IsSound :
      (b : Bool) (x y : Modem) → IsSound up x → IsSound up y → IsSound up (if b then x else y)
  if-IsSound true x y h k = h
  if-IsSound false x y h k = k

  search_retrain-IsSound : (raw : ℕ) (m : Modem) → IsSound up m → IsSound up (search_retrain raw m)
  unfolding search_retrain
  search_retrain-IsSound raw m h = if-IsSound (bit_xor m.last_raw_bits raw == 3) _ _ h (
      if-IsSound (leb 50 m.pattern_repeats && steady m.last_raw_bits) _ _
        (h.0, carrier-append false up m.tx.reports (retrain_occurred ∷ []) h.1, h.2, refl) h)

  acquire-IsSound : (m : Modem) → IsSound up m → IsSound up (acquire m)
  unfolding acquire
  acquire-IsSound m h =
      if-IsSound (leb 40 (m.training_count + 1)) _ _
        (inl refl, h.1, omega arith, if-is_parked m.tx.calling_party _ _ refl refl)
        (if-IsSound (m.training_count + 1 == 30) _ _ (h.0, h.1, omega arith, h.3) h)

  answer_ones-IsSound :
      (raw repeats : ℕ) (m : Modem) → IsSound up m → IsSound up (answer_ones raw repeats m)
  unfolding answer_ones
  answer_ones-IsSound raw repeats m h =
      if-IsSound (((raw == m.last_raw_bits) && steady raw) && leb (ms_to_symbols 456) repeats) _ m
        (if-IsSound (m.bit_rate == 2400) _ _ h h) h

  ones-IsSound : (nearest raw : ℕ) (m : Modem) → IsSound up m → IsSound up (ones nearest raw m)
  unfolding ones
  ones-IsSound nearest raw m h =
      let repeats = if raw == m.last_raw_bits then m.pattern_repeats + 1 else 0 in
      let m' : Modem = record (place nearest m) {
        pattern_repeats = repeats;
        training_count = m.training_count + 1;
      } in
      let answered = answer_ones-IsSound raw repeats m' h in
      if-IsSound (m.training_count + 1 == ms_to_symbols (155 + 456)) _ m'
        (answered.0, answered.1, answered.2, refl) h

  look-IsSound : (raw : ℕ) (m : Modem) → IsSound up m → IsSound up (look raw m)
  unfolding look
  look-IsSound raw m h = if-IsSound (leb 16 (m.raw_hist_count + 1)) _ _ h h

  -- The step to 2400 is behind the test of the rate that is allowed.
  accept_s1-IsSound : (m : Modem) → IsSound up m → IsSound up (accept_s1 m)
  unfolding accept_s1
  accept_s1-IsSound m h =
      if-Has (IsSound up) (m.bit_rate == 2400) _ _ (λ e. at_2400 ((==_iff m.bit_rate 2400).0 e))
        (λ _. h)
    where
      at_2400 :
          m.bit_rate ≡ 2400
          → let m' : Modem = record m {
            pattern_repeats = 0;
            raw_hist_count = 0;
            training_count = 0;
          } in
            IsSound up (negotiate 2400 (if m.tx.calling_party then m' else send u0011 m'))
      at_2400 e =
          let m' : Modem = record m {
            pattern_repeats = 0;
            raw_hist_count = 0;
            training_count = 0;
          } in
          if-Has (λ x. IsSound up (negotiate 2400 x)) m.tx.calling_party m' (send u0011 m')
            (λ _. (inr (refl, e), h.1, h.2, h.3)) (λ _. (inr (refl, e), h.1, h.2, h.3))

  search_s1-IsSound : (m : Modem) → IsSound up m → IsSound up (search_s1 m)
  unfolding search_s1 settle
  search_s1-IsSound m h =
      if-IsSound (leb 23 m.pattern_repeats && steady m.last_raw_bits) _ _ (accept_s1-IsSound m h) (
        if-IsSound (leb (ms_to_symbols 400) m.training_count) _ m
          (h.0, h.1, h.2, if-is_parked m.tx.calling_party _ _ refl refl) h)

  widen-IsSound : (m : Modem) → IsSound up m → IsSound up (widen m)
  unfolding widen
  widen-IsSound m h =
      if-IsSound
        (leb (if m.tx.calling_party then ms_to_symbols (100 + 450) else ms_to_symbols 450)
          m.training_count)
        _ m (h.0, h.1, h.2, refl) h

  ones_at_1200-IsSound :
      (nearest raw : ℕ) (m : Modem) → IsSound up m → IsSound up (ones_at_1200 nearest raw m)
  unfolding ones_at_1200 decode
  ones_at_1200-IsSound nearest raw m h =
      let m₁ = (decode nearest m).1 in
      let m₂ : Modem = record m₁ { training_count = m₁.training_count + 1 } in
      if-IsSound (m₂.tx.negotiated_bit_rate == 1200) _ _
        (search_s1-IsSound (look raw m₂) (look-IsSound raw m₂ h)) (widen-IsSound m₂ h)

  dispatch-IsSound :
      (stage : RxTraining) (nearest : ℕ) (m : Modem)
      → IsSound up m
      → IsSound up (dispatch stage nearest m)
  unfolding dispatch deliver ones_sustaining sustain wait_2400 decode
  dispatch-IsSound normal_operation nearest m h =
      search_retrain-IsSound (raw_bits_of nearest m.decoder.constellation_state) m h
  dispatch-IsSound symbol_acquisition nearest m h = acquire-IsSound m h
  dispatch-IsSound unscrambled_ones nearest m h =
      ones-IsSound nearest (raw_bits_of nearest m.decoder.constellation_state) m h
  dispatch-IsSound unscrambled_ones_sustaining nearest m h =
      if-IsSound (raw_bits_of nearest m.decoder.constellation_state == m.last_raw_bits) _ _ h
        (h.0, h.1, h.2, refl)
  dispatch-IsSound scrambled_ones_at_1200 nearest m h =
      ones_at_1200-IsSound nearest (raw_bits_of nearest m.decoder.constellation_state) m h
  dispatch-IsSound scrambled_ones_at_1200_sustaining nearest m h =
      if-IsSound (ltb (ms_to_symbols (270 + 765)) (m.training_count + 1)) _ _ (h.0, h.1, h.2, refl)
        h
  dispatch-IsSound wait_for_scrambled_ones_at_2400 nearest m h =
      if-IsSound ((decode nearest m).0 == 15) _ _
        (h.0, h.1, h.2, if-is_parked (leb 9 (m.pattern_repeats + 1)) _ _ refl h.3) h
  dispatch-IsSound parked nearest m h = h

  pub baud-IsSound : (nearest : ℕ) (m : Modem) → IsSound up m → IsSound up (baud nearest m)
  unfolding baud
  baud-IsSound nearest m h = dispatch-IsSound m.training nearest m h
