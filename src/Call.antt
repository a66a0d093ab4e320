-- ===== src/Call.antt =====
-- The call of `src/call/sm_call.c` (`sm_call_t`), built with V.8, V.34 and the BinModem engine. The
-- engines are parameters: what one of them does to the call during one of its functions is a script
-- of the callbacks it makes. The log and the SM_PPP_*_DUMP files are left out.
pub mod Bits
pub mod Pppd
pub mod Engines
pub mod Audio
pub mod Process
pub mod Init
pub mod Run
pub mod Valid
pub mod Line
use v34_working.Base.{ℕ, List, Bool, true, false, Option, none, some}
use v34_working.Serial.Queue.{BitQueue}
use v34_working.Serial.Deframer.{Deframer}
use v34_working.Bbs.Session.{Session}

-- `sm_call_mode_t`
pub data Mode : Type 0 where
  v22 v34 : Mode

-- `sm_call_phase_t`
pub data Phase : Type 0 where
  idle answer_tone v8 handshake data_mode hangup : Phase

-- `sm_call_config_t`, as far as the call itself reads it.
pub record Settings : Type 0 where
  pub answer_tone_ms : ℕ
  pub pre_tone_silence_ms : ℕ
  pub enable_ppp : Bool
  pub echo_data : Bool
  pub use_v8 : Bool
  pub use_v34 : Bool
  pub use_binmodem : Bool
  pub use_v90 : Bool
  pub v34_baud : ℕ
  pub v34_rate : ℕ
  pub rate : ℕ

-- `sm_call_t`. `X` is the state of an engine and `G` what the games keep. A pointer that is NULL and
-- a descriptor or process of -1 are `none`; `ppy_out` is the filled part of the C array, so
-- `ppy_out_len` is its length; `tone_phase` counts the steps of the generator; an open capture file
-- is what has been written to it. `open_ptys` is no field in C: it lists the descriptors of ptys that
-- the process has open.
pub record Call (X G : Type 0) : Type 0 where
  pub cfg : Settings
  pub mode : Mode
  pub phase : Phase
  pub modem : X
  pub v34 : Option X
  pub v34_baud_rate : ℕ
  pub bm : Option X
  pub bm_nocarrier : ℕ
  pub bbs : Option (Session G)
  pub v8 : Option X
  pub v8_done : Bool
  pub v8_ok : ℕ
  pub rx_guard : ℕ
  pub txbits : BitQueue
  pub deframer : Deframer
  pub silence_samples_left : ℕ
  pub tone_samples_left : ℕ
  pub tone_phase : ℕ
  pub ppp_fd : Option ℕ
  pub pppd_pid : Option ℕ
  pub ppp_started : Bool
  pub open_ptys : List ℕ
  pub negotiated_rate : ℕ
  pub samples_in : ℕ
  pub samples_out : ℕ
  pub data_bytes_rx : ℕ
  pub data_bytes_tx : ℕ
  pub ppy_out : List ℕ
  pub txbuf : ℕ → ℕ
  pub cap_in : Option (List ℕ)
  pub cap_out : Option (List ℕ)
  pub cap_count : ℕ

abbrev pub is_v8 : Phase → Bool
is_v8 v8 = true
is_v8 _ = false

abbrev pub is_data : Phase → Bool
is_data data_mode = true
is_data _ = false

abbrev pub is_v34 : Mode → Bool
is_v34 v34 = true
is_v34 v22 = false

abbrev pub is_some {ℓ} : {A : Type ℓ} → Option A → Bool
is_some none = false
is_some (some a) = true
