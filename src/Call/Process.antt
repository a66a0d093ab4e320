-- ===== src/Call/Process.antt =====
-- What stands around the sample loop of `process_audio`: the capture, the BinModem engine
-- (`bm_poll`), the way from V.8 to a modem, and the detection of data mode.
pub mod Fresh
pub mod Leave
use v34_working.Base.{
  ℕ, zero, suc, ◌+◌, ◌-◌, ◌*◌, ◌/◌, List, [], ◌∷◌, ◌++◌, Bool, true, false, not, ◌&&◌, ◌||◌, Option,
  none, some, ltb, leb, ◌==◌, length, take, update, if◌then◌else◌,
}
use v34_working.Serial.Deframer.{init as deframer_init}
use v34_working.Bbs.Session.{Session}
use v34_working.Bbs.Tick.{bbs_session_tick}
use v34_working.Call.{
  Mode, v22, v34, Phase, v8, handshake, data_mode, hangup, is_v8, is_data, is_v34, is_some, Call,
}
use v34_working.Call.Bits.{play}
use v34_working.Call.Engines.{
  BmStatus, running, connected, failed, agreed_v22, agreed_other, retraining, Engines,
}
use v34_working.Call.Audio.{audio_loop}

-- SM_SAMPLE_RATE
abbrev pub sample_rate : ℕ
sample_rate = 8000

-- `SM_SAMPLE_RATE * 500 / 1000`
abbrev pub guard_samples : ℕ
guard_samples = 4000

abbrev pub is_handshake : Phase → Bool
is_handshake handshake = true
is_handshake _ = false

-- The first `n` entries of an array.
abbrev pub front : ℕ → (ℕ → ℕ) → List ℕ
front zero f = []
front (suc n) f = front n f ++ f n ∷ []

-- `fwrite`, to a file that is open.
abbrev pub append_file : List ℕ → Option (List ℕ) → Option (List ℕ)
append_file xs none = none
append_file xs (some ys) = some (ys ++ xs)

-- A configured value, or 2400.
abbrev or_2400 : ℕ → ℕ
or_2400 n = if n == 0 then 2400 else n

module _ {X G : Type 0} where
  abbrev pub captures : Call X G → Bool
  captures c = (is_some c.cap_in || is_some c.cap_out) && ltb c.cap_count (120 * sample_rate)

  -- The capture, of at most 120 seconds, before the samples of this chunk are made.
  unfoldable pub capture : List ℕ → Call X G → Call X G
  capture xs c =
      if captures c
      then record c {
        cap_in = append_file xs c.cap_in;
        cap_out = append_file (front (length xs) c.txbuf) c.cap_out;
        cap_count = c.cap_count + length xs;
      }
      else c

module _ {X G : Type 0} (e : Engines X) where
  -- Back to the V.22bis engine, with a receiver that hears nothing for half a second.
  unfoldable pub enter_v22 : Call X G → Call X G
  enter_v22 c = record c {
    mode = v22;
    modem = e.v22bis_rx_restart c.modem;
    rx_guard = guard_samples;
    phase = handshake;
  }

  unfoldable pub bm_retrain : Call X G → Call X G
  bm_retrain c =
      if is_data c.phase
      then record c { deframer = deframer_init; phase = handshake; bm_nocarrier = 0 }
      else c

  -- The beginning of data mode, or a new rate.
  unfoldable pub bm_data : X → Call X G → Call X G
  bm_data b c =
      if is_data c.phase then record c { negotiated_rate = e.bm_rate_rx b } else record c {
        bm = some (e.bm_flush_rx b);
        deframer = deframer_init;
        phase = data_mode;
        negotiated_rate = e.bm_rate_rx b;
      }

  -- The carrier of the far end.
  unfoldable pub bm_watch : X → ℕ → Call X G → Call X G
  bm_watch b n c =
      let silent = c.bm_nocarrier + n in
      if e.bm_carrier b then record c { bm_nocarrier = 0 } else record c {
        bm_nocarrier = silent;
        phase = if leb (sample_rate / 2) silent then hangup else c.phase;
      }

  -- `bm_poll`, by the status of the engine.
  unfoldable pub bm_poll : BmStatus → X → ℕ → Call X G → Call X G
  unfolding enter_v22 bm_retrain bm_data bm_watch
  bm_poll failed b n c = record c { phase = hangup }
  bm_poll agreed_v22 b n c = record (enter_v22 c) { bm = none }
  bm_poll agreed_other b n c = record (enter_v22 c) { bm = none }
  bm_poll retraining b n c = bm_retrain c
  bm_poll connected b n c =
      bm_watch (if is_data c.phase then b else e.bm_flush_rx b) n (bm_data b c)
  bm_poll running b n c = c

  -- The loop of `bm_step`.
  unfoldable pub bm_steps : ℕ → List ℕ → X → Call X G → Call X G
  unfolding play
  bm_steps i [] b c = record c { bm = some b }
  bm_steps i (x ∷ xs) b c =
      let ((y, b'), c') = play (e.bm_step b x) c in
      bm_steps (i + 1) xs b' (record c' { txbuf = update c'.txbuf i y })

  -- A chunk, for an engine that is still there after `bm_poll`, and otherwise for the loop.
  unfoldable pub bm_chunk : List ℕ → Option X → Call X G → Call X G
  unfolding bm_steps play audio_loop
  bm_chunk xs none c = audio_loop e 0 xs c
  bm_chunk xs (some b) c = let (b', c') = play (e.bm_service b) c in bm_steps 0 xs b' c'

  unfoldable pub run_chunk : List ℕ → Option X → Call X G → Call X G
  unfolding bm_poll bm_chunk audio_loop
  run_chunk xs none c = audio_loop e 0 xs c
  run_chunk xs (some b) c = let c' = bm_poll (e.bm_status b) b (length xs) c in bm_chunk xs c'.bm c'

  abbrev pub new_v34 : Call X G → Option X
  new_v34 c = e.v34_init (or_2400 c.cfg.v34_baud) (or_2400 c.cfg.v34_rate)

  unfoldable pub enter_v34 : X → Call X G → Call X G
  enter_v34 v c = record c {
    v34 = some v;
    mode = v34;
    v34_baud_rate = or_2400 c.cfg.v34_baud;
    phase = handshake;
  }

  -- V.34 without the consent of V.8.
  unfoldable pub force_v34 : Option X → Call X G → Call X G
  unfolding enter_v34
  force_v34 (some v) c = enter_v34 v c
  force_v34 none c = record c { v34 = none }

  -- `!started_v34`
  unfoldable pub without_v34 : Call X G → Call X G
  unfolding force_v34 enter_v22
  without_v34 c = if c.cfg.use_v34 && (c.v8_ok == 0) then force_v34 (new_v34 c) c else enter_v22 c

  -- V.34 as V.8 has chosen it.
  unfoldable pub chosen_v34 : Option X → Call X G → Call X G
  unfolding enter_v34 without_v34
  chosen_v34 (some v) c = enter_v34 v c
  chosen_v34 none c = without_v34 (record c { v34 = none; v8_ok = 1 })

  -- From V.8 to a modem.
  unfoldable pub leave_v8 : Call X G → Call X G
  unfolding chosen_v34 without_v34
  leave_v8 c =
      if is_v8 c.phase && c.v8_done
      then (if c.v8_ok == 2 then chosen_v34 (new_v34 c) c else without_v34 c)
      else c

  -- Both directions of V.22bis are in normal operation.
  abbrev pub sees_data : Call X G → Bool
  sees_data c =
      not (is_v34 c.mode)
      && is_handshake c.phase
      && not (is_some c.bm)
      && e.tx_is_normal c.modem
      && e.rx_is_normal c.modem

  -- Data mode.
  unfoldable pub detect_data : Call X G → Call X G
  detect_data c =
      if sees_data c
      then record c {
        phase = data_mode;
        negotiated_rate = e.negotiated_bit_rate c.modem;
        deframer = deframer_init;
      }
      else c

  abbrev pub tick : ℕ → Option (Session G) → Option (Session G)
  tick n none = none
  tick n (some s) = some (bbs_session_tick (n * 1000 / sample_rate) s)

  -- `process_audio`
  unfoldable pub process_audio : List ℕ → Call X G → Call X G
  unfolding capture run_chunk leave_v8 detect_data
  process_audio xs c =
      let c₁ = capture xs c in
      let c₂ = detect_data (leave_v8 (run_chunk xs c₁.bm c₁)) in
      record c₂ {
        samples_in = c₂.samples_in + length xs;
        samples_out = c₂.samples_out + length xs;
        bbs = tick (length xs) c₂.bbs;
      }
