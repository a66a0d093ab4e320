-- ===== src/V22bis/Carrier.antt =====
-- The sample loop of `v22bis_rx` (v22bis_rx.c): carrier detection, the clock that says when a symbol
-- is complete, and `v22bis_rx_restart`. What is floating point (filters, power meter, equalizer,
-- slicer) enters as the outcome of its comparisons.
pub mod Alternates
pub mod Debounce
pub mod Clock
pub mod Paced
pub mod Heard
use v34_working.Base.{
  ℕ, zero, suc, ◌+◌, ◌-◌, ◌*◌, ◌/◌, List, [], ◌∷◌, ◌++◌, Bool, true, false, leb, ◌==◌, ℤ, pos,
  negsuc, raise, lower_by, if◌then◌else◌,
}
use v34_working.V22bis.Scrambler.{restart}
use v34_working.V22bis.Transmit.{Status, carrier_up, carrier_down}
use v34_working.V22bis.Receive.{Modem, RxTraining, symbol_acquisition, is_parked, retrains, baud}

-- What is measured at a sample: the power is below `carrier_off_power`, it has reached
-- `carrier_on_power`, the Gardner term is positive, and the sliced symbol. The last two are read
-- when a symbol is complete.
pub record Measure : Type 0 where
  pub is_off : Bool
  pub is_on : Bool
  pub positive : Bool
  pub nearest : ℕ

-- The receiver's part of `v22bis_state_t`, with the modem's.
pub record Front : Type 0 where
  pub modem : Modem
  pub signal_present : Bool
  pub carrier_down_count : ℕ
  pub eq_put_step : ℤ
  pub gardner_integrate : ℤ
  pub baud_phase : ℕ

-- V22BIS_RX_COEFF_SETS, and the samples for which a carrier may be away.
abbrev pub coeff_sets : ℕ
coeff_sets = 12

abbrev pub down_limit : ℕ
down_limit = 800

-- `report_status`
unfoldable pub report_status : Status → Modem → Modem
report_status status m = record m { tx = record m.tx { reports = m.tx.reports ++ status ∷ [] } }

-- What `equalizer_reset` leaves in `eq_put_step`.
abbrev pub first_step : ℤ
first_step = pos (20 - 1)

-- `v22bis_rx_restart`, without the filters and the carrier's oscillator. The transmitter keeps its
-- training; the rate, which they share, falls back to 1200.
unfoldable pub rx_restart : Front → Front
unfolding restart
rx_restart f = record {
  modem = record f.modem {
    tx = record f.modem.tx { negotiated_bit_rate = 1200 };
    decoder = record { scrambler = restart; constellation_state = 0; sixteen_way = false };
    training = symbol_acquisition;
    training_count = 0;
    pattern_repeats = 0;
    last_raw_bits = 0;
    raw_history = 0;
    raw_hist_count = 0;
    gardner_step = 256;
  };
  signal_present = false;
  carrier_down_count = 0;
  eq_put_step = first_step;
  gardner_integrate = pos 0;
  baud_phase = 0;
}

-- `abs`
abbrev pub magnitude : ℤ → ℕ
magnitude (pos a) = a
magnitude (negsuc a) = a + 1

-- A sixteenth of `g`, rounded towards 0, is added to `e`.
abbrev pub add_sixteenth : ℤ → ℤ → ℤ
add_sixteenth e (pos a) = raise e (a / 16)
add_sixteenth e (negsuc a) = lower_by e ((a + 1) / 16)

-- The integral of the Gardner term's sign.
unfoldable pub integrate : Bool → Front → ℤ
unfolding raise lower_by
integrate positive f =
    if positive
    then raise f.gardner_integrate f.modem.gardner_step
    else lower_by f.gardner_integrate f.modem.gardner_step

-- The end of `symbol_sync`.
unfoldable pub symbol_sync : Bool → Front → Front
unfolding integrate raise lower_by
symbol_sync positive f =
    let g = integrate positive f in
    if leb 16 (magnitude g)
    then record f { eq_put_step = add_sixteenth f.eq_put_step g; gardner_integrate = pos 0 }
    else record f { gardner_integrate = g }

-- The sliced symbol. A retrain resets the equalizer, and with it the time of the next insertion.
unfoldable pub take_symbol : ℕ → Front → Front
unfolding baud retrains
take_symbol nearest f = record f {
  modem = baud nearest f.modem;
  eq_put_step = if retrains nearest f.modem then first_step else f.eq_put_step;
}

-- `process_half_baud`: at every other call a symbol is complete.
unfoldable pub process_half_baud : Measure → Front → Front
unfolding symbol_sync take_symbol
process_half_baud m f =
    let f' = record f { baud_phase = 1 - f.baud_phase } in
    let f'' = symbol_sync m.positive f' in
    if f.baud_phase == 0 then f' else take_symbol m.nearest f''

-- `<= 0`
abbrev pub is_due : ℤ → Bool
is_due (pos a) = a == 0
is_due (negsuc a) = true

-- The insertion into the equalizer when its time has come.
unfoldable pub insert : Measure → Front → Front
unfolding process_half_baud raise lower_by
insert m f =
    let e = lower_by f.eq_put_step coeff_sets in
    let f' = record f { eq_put_step = e } in
    if is_due e
    then process_half_baud m (record f { eq_put_step = raise e (coeff_sets * 40 / (3 * 2)) })
    else f'

-- The sample once there is a carrier.
unfoldable pub proceed : Measure → Front → Front
unfolding insert
proceed m f = if is_parked f.modem.training then f else insert m f

-- The debounced loss of the carrier.
unfoldable pub lose : Measure → Front → Front
unfolding proceed rx_restart report_status
lose m f =
    let restarted = rx_restart f in
    if leb down_limit (f.carrier_down_count + 1)
    then record restarted { modem = report_status carrier_down restarted.modem }
    else proceed m (record f { carrier_down_count = f.carrier_down_count + 1 })

-- One turn of the loop.
unfoldable pub take_sample : Measure → Front → Front
unfolding lose proceed report_status
take_sample m f =
    let f' = record f { carrier_down_count = 0 } in
    if f.signal_present
    then if m.is_off then lose m f else proceed m f'
    else if m.is_on
    then proceed m (record f' { signal_present = true; modem = report_status carrier_up f.modem })
    else f

-- `v22bis_rx`
unfoldable pub v22bis_rx : List Measure → Front → Front
unfolding take_sample
v22bis_rx [] f = f
v22bis_rx (m ∷ ms) f = v22bis_rx ms (take_sample m f)
