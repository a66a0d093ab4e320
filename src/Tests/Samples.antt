-- ===== src/Tests/Samples.antt =====
-- The sample loops of the modem on short signals.
use v34_working.Base.{
  ℕ, zero, suc, ◌+◌, ◌*◌, ◌/◌, ◌%◌, ◌≤◌, ◌≡◌, refl, inl, List, [], ◌∷◌, ◌++◌, true, false, All,
  length, pos, replicate, arith,
}
use v34_working.V22bis.Scrambler.{restart}
use v34_working.V22bis.Transmit.{tx_restart, carrier_up}
use v34_working.V22bis.Transmit.DataMode.{from_list}
use v34_working.V22bis.Receive.{RxTraining, receive}
use v34_working.V22bis.Pulse.{Shaper, phases, phase_step, shaper_restart, v22bis_tx}
use v34_working.V22bis.Pulse.Rate.{bauds, Slides, v22bis_tx-Slides}
use v34_working.V22bis.Carrier.{Measure, Front, v22bis_rx}
use v34_working.V22bis.Carrier.Alternates.{HasSound, v22bis_rx-HasSound}
use v34_working.V22bis.Carrier.Debounce.{IsLost, v22bis_rx-IsLost}
use v34_working.V22bis.Carrier.Heard.{heard, count_retrains, v22bis_rx-receive}

-- An answerer at its start, and ten milliseconds of it.
abbrev quiet : Shaper
quiet = shaper_restart false 0

v22bis_tx-Slides_example :
    Slides from_list 80
      ((quiet.baud_phase + phase_step * 80) % phases)
      quiet
      (bauds from_list ((quiet.baud_phase + phase_step * 80) / phases) (tx_restart false) (1 ∷ []))
      (v22bis_tx from_list 80 quiet (tx_restart false) (1 ∷ []))
v22bis_tx-Slides_example =
    v22bis_tx-Slides from_list 80 quiet (tx_restart false) (1 ∷ [])
      (unfold shaper_restart in record { slot = omega arith; in_baud = omega arith })
      (unfold tx_restart in omega arith)

-- A receiver with a carrier that it has missed for 798 samples.
abbrev listening : Front
listening = record {
  modem = record {
    bit_rate = 2400;
    tx = record (tx_restart false) { reports = carrier_up ∷ [] };
    decoder = record { scrambler = restart; constellation_state = 0; sixteen_way = false };
    training = RxTraining.symbol_acquisition;
    training_count = 0;
    pattern_repeats = 0;
    last_raw_bits = 0;
    raw_history = 0;
    raw_hist_count = 0;
    gardner_step = 256;
    bits = [];
  };
  signal_present = true;
  carrier_down_count = 798;
  eq_put_step = pos 19;
  gardner_integrate = pos 0;
  baud_phase = 0;
}

listening-HasSound : HasSound listening
unfolding tx_restart
listening-HasSound = (inl refl, refl, omega arith, refl)

abbrev loud : Measure
loud = record { is_off = false; is_on = true; positive = true; nearest = 5 }

abbrev faint : Measure
faint = record { is_off = true; is_on = false; positive = false; nearest = 1 }

-- The carrier goes, and comes back.
abbrev fading : List Measure
fading = loud ∷ faint ∷ faint ∷ loud ∷ []

v22bis_rx-HasSound_example : HasSound (v22bis_rx fading listening)
v22bis_rx-HasSound_example = v22bis_rx-HasSound fading listening listening-HasSound

loud-All : (n : ℕ) → All (λ m. m.is_off ≡ false) (replicate n loud)
loud-All zero = tt
loud-All (suc n) = (refl, loud-All n)

v22bis_rx-receive_example :
    let symbols = heard (replicate 20 loud) listening in
    ((v22bis_rx (replicate 20 loud) listening).modem ≡ receive symbols listening.modem)
    × (144 * length symbols
        ≤ 12 * length (replicate 20 loud) + 175 + 45 * count_retrains symbols listening.modem)
    × (12 * length (replicate 20 loud) ≤ 176 * length symbols + 175)
v22bis_rx-receive_example =
    v22bis_rx-receive (replicate 20 loud) listening
      (record {
        ahead = refl;
        low = omega arith;
        high = omega arith;
        half = omega arith;
        small = omega arith;
      })
      listening-HasSound refl (loud-All 20)

-- After one more faint sample the next one is the eight hundredth.
v22bis_rx-IsLost_example :
    let f' = v22bis_rx [] listening in
    (f'.signal_present ≡ true)
    × IsLost (v22bis_rx (faint ∷ []) f') (v22bis_rx ((faint ∷ []) ++ faint ∷ []) f')
v22bis_rx-IsLost_example =
    v22bis_rx-IsLost [] (faint ∷ []) faint listening refl tt (refl, tt) refl
      (unfold v22bis_rx in refl)
