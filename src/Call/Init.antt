-- ===== src/Call/Init.antt =====
-- The beginning of a call (`sm_call_init` of `src/call/sm_call.c`).
use v34_working.Base.{◌*◌, ◌/◌, [], false, ◌||◌, Bool, Option, none, some, ltb, if◌then◌else◌}
use v34_working.Serial.Queue.{init as queue_init}
use v34_working.Serial.Deframer.{init as deframer_init}
use v34_working.Call.{Settings, v22, idle, answer_tone, v8, handshake, Call}
use v34_working.Call.Engines.{Engines}
use v34_working.Call.Process.{sample_rate}

module _ {X G : Type 0} where
  -- The answer sequence, or the modem at once.
  unfoldable pub begin_answer : Call X G → Call X G
  begin_answer c =
      if ltb 0 c.cfg.answer_tone_ms || ltb 0 c.cfg.pre_tone_silence_ms
      then record c {
        phase = answer_tone;
        silence_samples_left = c.cfg.pre_tone_silence_ms * sample_rate / 1000;
        tone_samples_left = c.cfg.answer_tone_ms * sample_rate / 1000;
      }
      else record c { phase = handshake }

  unfoldable pub begin_v8 : Option X → Call X G → Call X G
  unfolding begin_answer
  begin_v8 (some v) c = record c { v8 = some v; phase = v8 }
  begin_v8 none c = begin_answer c

module _ {X : Type 0} (e : Engines X) where
  -- `bm_create_v90` or `bm_create`
  abbrev pub new_bm : Settings → Option X
  new_bm cfg = if cfg.use_v90 then e.bm_create_v90 else e.bm_create cfg.use_v34

module _ {X G : Type 0} (e : Engines X) where
  -- Without BinModem.
  unfoldable pub begin_plain : Call X G → Call X G
  unfolding begin_v8 begin_answer
  begin_plain c = if c.cfg.use_v8 then begin_v8 (e.v8_create c.cfg.use_v34) c else begin_answer c

  unfoldable pub begin_bm : Option X → Call X G → Call X G
  unfolding begin_plain
  begin_bm (some b) c = record c { bm = some b; phase = v8 }
  begin_bm none c = begin_plain c

  -- A call before its first phase, with the capture files that could be opened.
  unfoldable pub blank : Settings → Bool → Call X G
  blank cfg captured = record {
    cfg = cfg;
    mode = v22;
    phase = idle;
    modem = e.v22bis_init cfg.rate;
    v34 = none;
    v34_baud_rate = 0;
    bm = none;
    bm_nocarrier = 0;
    bbs = none;
    v8 = none;
    v8_done = false;
    v8_ok = 0;
    rx_guard = 0;
    txbits = queue_init;
    deframer = deframer_init;
    silence_samples_left = 0;
    tone_samples_left = 0;
    tone_phase = 0;
    ppp_fd = none;
    pppd_pid = none;
    ppp_started = false;
    open_ptys = [];
    negotiated_rate = 0;
    samples_in = 0;
    samples_out = 0;
    data_bytes_rx = 0;
    data_bytes_tx = 0;
    ppy_out = [];
    txbuf = λ i. 0;
    cap_in = if captured then some [] else none;
    cap_out = if captured then some [] else none;
    cap_count = 0;
  }

  -- `sm_call_init`
  unfoldable pub sm_call_init : Settings → Bool → Call X G
  unfolding blank begin_bm begin_plain
  sm_call_init cfg captured =
      let c = blank cfg captured in
      if cfg.use_binmodem then begin_bm (new_bm e cfg) c else begin_plain c
