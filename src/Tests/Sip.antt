-- ===== src/Tests/Sip.antt =====
-- The media path on one frame.
use v34_working.Base.{
  inr, refl, true, false, none, some, ℕ, ◌≡◌, List, [], ◌∷◌, ◌++◌, map, length, take, All, ◌≤◌,
  arith,
}
use v34_working.Sip.Ulaw.{decode, encode}
use v34_working.Sip.Ulaw.Codec.{canonical, encode-decode}
use v34_working.Sip.Rtp.{max_payload, audio, packet, process_rtp}
use v34_working.Sip.Rtp.Inside.{Within, process_rtp-Within}
use v34_working.Sip.Rtp.RoundTrip.{process_rtp-packet}
use v34_working.Sip.Media.{Pump, begin, enqueue_rx}
use v34_working.Sip.Media.Fifo.{contents, IsValid, make_room, enqueue_rx_lem}
use v34_working.Sip.Media.Play.{Act, arrives, clock, run, plan, run-begin}
use v34_working.Sip.Call.{Agent, Host}
use v34_working.Sip.Call.Descriptors.{IsTidy}
use v34_working.Sip.Clock.{Timespec}
use v34_working.Sip.Loop.{
  Bridge, Tick, Poll, samples, hang_up, other, daemon_gone, nothing, sip, pump_loop, sm_sip_run,
}
use v34_working.Sip.Loop.Tidy.{sm_sip_run-IsTidy}
use v34_working.Sip.Loop.Numbered.{Sends, pump_loop-Sends}

encode-decode_example : encode (decode 0x7F) ≡ canonical 0x7F
encode-decode_example = encode-decode 0x7F (omega arith)

-- A packet with an extension that claims more words than there are.
abbrev short : List ℕ
short = 0x90 ∷ 0 ∷ 0 ∷ 1 ∷ 0 ∷ 0 ∷ 0 ∷ 0 ∷ 0 ∷ 0 ∷ 0 ∷ 0 ∷ 1 ∷ 2 ∷ 0 ∷ 9 ∷ []

process_rtp-Within_example : Within (length short) (process_rtp short)
process_rtp-Within_example = process_rtp-Within short

abbrev idle_agent : Agent
idle_agent = record {
  call_active = false;
  media_active = false;
  call_id = [];
  cseq = 0;
  rtp_peer_known = false;
  rtp_fd = none;
  daemon_fd = none;
  last_ok = none;
  pump = record { rxq = λ _. []; head = 0; tail = 0; tick_ns = 0; underruns = 0; drops = 0 };
  calls_done = 0;
  call_seq = 0;
  sent = [];
}

-- An agent with a call, whose next tick is due.
abbrev talking : Bridge
talking = record {
  agent = record idle_agent {
    call_active = true;
    rtp_peer_known = true;
    rtp_fd = some 5;
    daemon_fd = some 6;
  };
  rtp_seq = 65535;
  rtp_ts = 160;
  local_ssrc = 9;
  next_tick = record { tv_sec = 3; tv_nsec = 0 };
  packets = [];
  byes = 0;
}

abbrev at_three : Timespec
at_three = record { tv_sec = 3; tv_nsec = 0 }

abbrev at_four : Timespec
at_four = record { tv_sec = 4; tv_nsec = 0 }

-- A frame of three samples, then a hangup.
abbrev ticks : List Tick
ticks =
    record { wrote = true; replies = other ∷ samples (0 ∷ 100 ∷ 65000 ∷ []) ∷ []; now = at_four }
    ∷ record { wrote = true; replies = hang_up ∷ []; now = at_four }
    ∷ []

pump_loop-Sends_example :
    (frames : List (List ℕ)) × Sends talking frames (pump_loop at_four ticks talking)
pump_loop-Sends_example = pump_loop-Sends at_four ticks talking

abbrev host : Host
host = record { socket = some 5; bound = true; daemon = some 6; ok = some (1 ∷ []) }

-- Noise on the SIP socket, a tick, and the end of the daemon.
abbrev polls : List Poll
polls =
    sip host (66 ∷ 89 ∷ 69 ∷ []) (record { ssrc = 1; seq = 2; ts = 3 }) at_three []
    ∷ nothing at_four ticks
    ∷ daemon_gone
    ∷ []

sm_sip_run-IsTidy_example : IsTidy (sm_sip_run (some 2) polls talking).agent
sm_sip_run-IsTidy_example = sm_sip_run-IsTidy (some 2) polls talking (inr (refl, tt, tt))

abbrev frame : List ℕ
frame = 0 ∷ 100 ∷ 65000 ∷ []

process_rtp-packet_example :
    process_rtp (packet 7 160 99 frame)
    ≡ audio (map (λ x. decode (encode x)) (take max_payload frame))
process_rtp-packet_example = process_rtp-packet 7 160 99 frame (omega arith)

-- Two frames wait, across the end of the ring.
abbrev waiting : Pump
waiting = record {
  rxq = λ _. 5 ∷ 6 ∷ [];
  head = 1;
  tail = 31;
  tick_ns = 2;
  underruns = 0;
  drops = 0;
}

waiting-IsValid : IsValid waiting
waiting-IsValid = record {
  head_slot = omega arith;
  tail_slot = omega arith;
  frames = λ i. omega arith;
  silence = omega arith;
}

enqueue_rx_lem_example :
    (contents (enqueue_rx waiting frame)
      ≡ make_room (contents waiting) ++ take max_payload frame ∷ [])
    × IsValid (enqueue_rx waiting frame)
enqueue_rx_lem_example = enqueue_rx_lem waiting frame waiting-IsValid (omega arith)

-- Two packets, and three ticks.
abbrev acts : List Act
acts = arrives frame ∷ clock ∷ arrives (8 ∷ []) ∷ clock ∷ clock ∷ []

run-begin_example :
    (run acts (begin waiting) ≡ plan acts ([], 160))
    × All (λ f. length f ≤ max_payload) (run acts (begin waiting))
run-begin_example = run-begin acts waiting waiting-IsValid
