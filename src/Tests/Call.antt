-- ===== src/Tests/Call.antt =====
-- A call with engines that only count. V.22bis reports a bit for each chunk and asks for one.
use v34_working.Base.{
  ℕ, ◌+◌, ◌≡◌, refl, List, [], ◌∷◌, ◌++◌, replicate, true, false, none, some, ◌==◌, arith, length,
}
use v34_working.Serial.Deframer.{init as deframer_init}
use v34_working.Bbs.Session.{World}
use v34_working.Call.{Settings, Phase, handshake, v8, Call}
use v34_working.Call.Bits.{done, get, put}
use v34_working.Call.Engines.{Engines, running}
use v34_working.Call.Audio.{audio_loop}
use v34_working.Call.Audio.Answer.{answered, audio_loop-answered}
use v34_working.Call.Audio.Guard.{audio_loop-rx_guard}
use v34_working.Call.Pppd.{took, interrupted, Host, pump_ppp}
use v34_working.Call.Pppd.Order.{pump_ppp-Conserves}
use v34_working.Call.Process.{process_audio, leave_v8}
use v34_working.Call.Process.Fresh.{process_audio-deframer_init}
use v34_working.Call.Process.Leave.{Leaves, forces, leave_v8_lem}
use v34_working.Call.Init.{sm_call_init}
use v34_working.Call.Run.{gone, silent, message, await_uuid}
use v34_working.Call.Valid.Run.{first_of, EndsValid, await_uuid-sm_call_init}

abbrev engines : Engines ℕ
engines = record {
  v22bis_init = λ rate. 0;
  v22bis_tx = λ m n. get (λ b. done (replicate n b, m + n));
  v22bis_rx = λ m xs. put (some 0) 0 (done (m + length xs));
  v22bis_rx_restart = λ m. 0;
  tx_is_normal = λ m. true;
  rx_is_normal = λ m. true;
  negotiated_bit_rate = λ m. 2400;
  v34_init = λ baud rate. none;
  v34_tx = λ v n. done (replicate n 0, v);
  v34_rx = λ v xs. done v;
  v8_create = λ v34. some 0;
  v8_tx = λ v n. ([], [], v);
  v8_rx = λ v xs. ((2, 0x804) ∷ [], v);
  bm_create = λ v34. none;
  bm_create_v90 = none;
  bm_status = λ b. running;
  bm_rate_rx = λ b. 33600;
  bm_carrier = λ b. true;
  bm_flush_rx = λ b. b;
  bm_service = λ b. done b;
  bm_step = λ b x. done (0, b);
  tone = λ at. 6000;
}

-- A board without users or games.
abbrev board : World ℕ
board = record {
  find_user = λ name hash. none;
  insert_user = λ name hash. none;
  open_door = λ d n. n;
  input_line = λ d line n. (false, n);
}

abbrev settings : Settings
settings = record {
  answer_tone_ms = 2;
  pre_tone_silence_ms = 1;
  enable_ppp = true;
  echo_data = false;
  use_v8 = false;
  use_v34 = true;
  use_binmodem = false;
  use_v90 = false;
  v34_baud = 0;
  v34_rate = 0;
  rate = 2400;
}

abbrev fresh : Call ℕ ℕ
fresh = sm_call_init engines settings true

-- One sample of silence and two of the tone are left.
abbrev answering : Call ℕ ℕ
answering = record fresh { silence_samples_left = 1; tone_samples_left = 2 }

audio_loop-answered_example :
    audio_loop engines 0 (7 ∷ 7 ∷ 7 ∷ 7 ∷ []) answering
    ≡ audio_loop engines 3 (7 ∷ []) (answered engines 0 1 2 answering)
unfolding sm_call_init
audio_loop-answered_example =
    audio_loop-answered engines 1 2 0 (7 ∷ 7 ∷ 7 ∷ []) (7 ∷ []) answering refl refl refl
      (omega arith) refl

-- Behind V.8, with two samples of the guard to go.
abbrev guarded : Call ℕ ℕ
guarded = record fresh { phase = handshake; rx_guard = 2 }

audio_loop-rx_guard_example :
    audio_loop engines 0 (7 ∷ 7 ∷ 9 ∷ []) guarded ≡ audio_loop engines 0 (0 ∷ 0 ∷ 9 ∷ []) guarded
audio_loop-rx_guard_example =
    audio_loop-rx_guard engines 0 (7 ∷ 7 ∷ []) (0 ∷ 0 ∷ []) (9 ∷ []) guarded refl refl (omega arith)

-- A pppd can be started, and takes a byte and then nothing.
abbrev host : Host
host = record { spawned = some (100, 5); answers = interrupted ∷ took 1 ∷ []; found = none }

-- Two bytes have come in.
abbrev talking : Call ℕ ℕ
talking = record fresh {
  phase = Phase.data_mode;
  deframer = record deframer_init { out = 0x7E ∷ 0xFF ∷ [] };
}

pump_ppp-Conserves_example :
    ((pump_ppp board host talking).0 ++ (pump_ppp board host talking).1.ppy_out)
      ++ (pump_ppp board host talking).1.deframer.out
    ≡ 0x7E ∷ 0xFF ∷ []
unfolding sm_call_init deframer_init
pump_ppp-Conserves_example = pump_ppp-Conserves board host talking refl refl (omega arith)

process_audio-deframer_init_example :
    (process_audio engines (7 ∷ 7 ∷ []) (record fresh { phase = handshake })).deframer
    ≡ deframer_init
unfolding sm_call_init process_audio
process_audio-deframer_init_example =
    process_audio-deframer_init engines (7 ∷ 7 ∷ []) (record fresh { phase = handshake }) refl refl
      refl refl

-- V.8 has found no common modulation.
abbrev settled : Call ℕ ℕ
settled = record fresh { phase = v8; v8_done = true }

leave_v8_lem_example :
    Leaves engines
      (settled.v8_ok == 2)
      (forces engines settled)
      false
      settled
      (leave_v8 engines settled)
unfolding sm_call_init
leave_v8_lem_example = leave_v8_lem engines settled refl refl

abbrev five_hosts : List Host
five_hosts = host ∷ host ∷ host ∷ host ∷ host ∷ []

-- pppd is started, and closes its pty before the timeouts.
abbrev closing : Host
closing = record { spawned = some (100, 5); answers = []; found = some [] }

await_uuid-sm_call_init_example :
    let evs = message 0x10 (7 ∷ 0 ∷ []) 2 host true false ∷ silent host ∷ gone ∷ [] in
    EndsValid engines board
      (first_of evs)
      (await_uuid engines evs (sm_call_init engines settings true))
await_uuid-sm_call_init_example =
    await_uuid-sm_call_init engines board settings true
      (message 0x10 (7 ∷ 0 ∷ []) 2 host true false ∷ silent host ∷ gone ∷ [])
