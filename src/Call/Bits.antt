-- ===== src/Call/Bits.antt =====
-- The callbacks of the modem engines: `call_get_bit`, `call_put_bit`, `call_status` and
-- `call_v8_result`.
pub mod Keeps
use v34_working.Base.{
  ℕ, ◌/◌, ◌%◌, ◌^◌, Bool, true, ◌&&◌, ◌||◌, Option, none, some, ◌==◌, if◌then◌else◌,
}
use v34_working.Serial.Link.{call_get_bit}
use v34_working.Serial.Deframer.{deframer_bit, init as deframer_init}
use v34_working.Call.{Mode, v22, v34, Phase, handshake, data_mode, is_data, Call}

-- `v22bis_status_t`
pub data ModemStatus : Type 0 where
  training_succeeded training_failed carrier_up carrier_down retrain_occurred : ModemStatus

-- One function of an engine: the callbacks that it makes, in order. `put` has the bit, `none` for a
-- negative one, and what `v34_get_current_bit_rate` would give at that moment.
pub data Script (A : Type 0) : Type 0 where
  done : A → Script A
  get : (ℕ → Script A) → Script A
  put : Option ℕ → ℕ → Script A → Script A
  status : ModemStatus → Script A → Script A

-- `v8_ok` for the modulations of a call: bit 11 is V8_MOD_V34 and bit 2 is V8_MOD_V22.
abbrev v8_choice : Bool → ℕ → ℕ
v8_choice use_v34 modulations =
    if use_v34 && (modulations / 2 ^ 11 % 2 == 1) then 2 else modulations / 2 ^ 2 % 2

module _ {X G : Type 0} where
  -- The first payload bit of V.34 is the beginning of data mode.
  unfoldable pub enter_v34 : ℕ → Call X G → Call X G
  enter_v34 rate c =
      if is_data c.phase then c else record c { phase = data_mode; negotiated_rate = rate }

  unfoldable pub put_data : ℕ → Call X G → Call X G
  put_data bit c = record c { deframer = deframer_bit c.deframer bit }

  -- A bit that is not negative, by the mode of the call.
  unfoldable pub put_valid : Mode → ℕ → ℕ → Call X G → Call X G
  unfolding enter_v34 put_data
  put_valid v34 bit rate c = put_data bit (enter_v34 rate c)
  put_valid v22 bit rate c = if is_data c.phase then put_data bit c else c

  -- `call_put_bit`
  unfoldable pub call_put_bit : Option ℕ → ℕ → Call X G → Call X G
  unfolding put_valid
  call_put_bit none rate c = c
  call_put_bit (some bit) rate c = put_valid c.mode bit rate c

  -- `call_status`
  unfoldable pub call_status : ModemStatus → Call X G → Call X G
  call_status retrain_occurred c = record c { deframer = deframer_init; phase = handshake }
  call_status _ c = c

  -- An engine's function, run on the call.
  unfoldable pub play : {A : Type 0} → Script A → Call X G → A × Call X G
  unfolding call_put_bit call_status
  play (done a) c = (a, c)
  play (get next) c = let (b, q) = call_get_bit c.txbits in play (next b) (record c { txbits = q })
  play (put bit rate next) c = play next (call_put_bit bit rate c)
  play (status st next) c = play next (call_status st c)

  -- `call_v8_result`
  unfoldable pub call_v8_result : ℕ → ℕ → Call X G → Call X G
  call_v8_result st modulations c =
      if st == 2
      then record c { v8_done = true; v8_ok = v8_choice c.cfg.use_v34 modulations }
      else if (st == 3) || (st == 4)
      then record c { v8_done = true; v8_ok = 0 }
      else c
