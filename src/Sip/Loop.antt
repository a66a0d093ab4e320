-- ===== src/Sip/Loop.antt =====
-- The bridge of `src/sip/sm_sip.c` at work: `feed_daemon`, `audio_tick`, and the loop of
-- `sm_sip_run` over what its polls report. The timeout of a poll and the captures are left out.
pub mod Numbered
pub mod Tidy
use v34_working.Base.{
  ℕ, zero, suc, ◌+◌, ◌-◌, ◌*◌, ◌/◌, ◌%◌, ◌^◌, List, [], ◌∷◌, ◌++◌, Bool, true, false, not, ◌&&◌,
  Option, none, some, ltb, leb, ◌==◌, min, length, take, u32, if◌then◌else◌,
}
use v34_working.Sip.Rtp.{
  Parsed, rejected, ignored, overread, audio, max_payload, packet, process_rtp,
}
use v34_working.Sip.Media.{Pump, enqueue_rx, next_frame}
use v34_working.Sip.Clock.{Timespec, ts_add_ms}
use v34_working.Sip.Call.{Agent, Host, Event, end_call, handle}
use v34_working.Sip.Parse.{receive}

-- The agent with the stream that it sends: the RTP packets so far, and the BYE requests.
pub record Bridge : Type 0 where
  pub agent : Agent
  pub rtp_seq : ℕ
  pub rtp_ts : ℕ
  pub local_ssrc : ℕ
  pub next_tick : Timespec
  pub packets : List (List ℕ)
  pub byes : ℕ

-- What `sm_ast_read` gives to `feed_daemon`: the samples of an audio message, of which none is one of
-- less than two bytes; a hangup, another kind, a timeout, or the end of the connection.
pub data Reply : Type 0 where
  samples : List ℕ → Reply
  hang_up other timeout closed : Reply

-- One round of the pump: whether the daemon takes the frame, its replies, and the clock behind it.
pub record Tick : Type 0 where
  pub wrote : Bool
  pub replies : List Reply
  pub now : Timespec

-- `send_bye`
unfoldable pub send_bye : Bridge → Bridge
send_bye b =
    if b.agent.call_active && b.agent.rtp_peer_known
    then record b { byes = b.byes + 1; agent = record b.agent { cseq = b.agent.cseq + 1 } }
    else b

-- The BYE and the end of the call.
unfoldable pub hang_up_call : Bridge → Bridge
unfolding send_bye end_call
hang_up_call b =
    let b' = if b.agent.rtp_peer_known then send_bye b else b in
    record b' { agent = end_call b'.agent }

-- The packet of one frame of the daemon. `rtp_seq` has 16 bits and `rtp_ts` 32.
unfoldable pub send_rtp : List ℕ → Bridge → Bridge
unfolding packet
send_rtp frame b = record b {
  packets = b.packets ++ packet b.rtp_seq b.rtp_ts b.local_ssrc frame ∷ [];
  rtp_seq = (b.rtp_seq + 1) % 2 ^ 16;
  rtp_ts = u32 (b.rtp_ts + min (length frame) max_payload);
}

-- The loop over the daemon's replies: the first frame is forwarded.
unfoldable pub reply_loop : List Reply → Bridge → Bridge
unfolding send_rtp hang_up_call
reply_loop [] b = b
reply_loop (samples [] ∷ rs) b = reply_loop rs b
reply_loop (samples (x ∷ xs) ∷ rs) b = send_rtp (x ∷ xs) b
reply_loop (hang_up ∷ rs) b = hang_up_call b
reply_loop (other ∷ rs) b = reply_loop rs b
reply_loop (timeout ∷ rs) b = b
reply_loop (closed ∷ rs) b = hang_up_call b

-- `feed_daemon`
unfoldable pub feed_daemon : Bool → List Reply → Bridge → Bridge
unfolding reply_loop hang_up_call
feed_daemon wrote rs b = if wrote then reply_loop rs b else hang_up_call b

-- `audio_tick`. The frame that the daemon is given is `next_frame`'s.
unfoldable pub audio_tick : Tick → Bridge → Bridge
unfolding next_frame feed_daemon
audio_tick t b =
    feed_daemon t.wrote t.replies
      (record b { agent = record b.agent { pump = (next_frame b.agent.pump).1 } })

-- `ts_ms_until` is at most `late` milliseconds before now. The quotient of the nanoseconds is cut
-- towards 0, on either side.
abbrev pub is_due : ℕ → Timespec → Timespec → Bool
is_due late t now =
    leb (t.tv_sec * 1000 + (t.tv_nsec - now.tv_nsec) / 1000000 + late)
      (now.tv_sec * 1000 + (now.tv_nsec - t.tv_nsec) / 1000000)

-- The next tick after one: 20 ms later, or 20 ms from now when that is 100 ms ago.
unfoldable pub reschedule : Timespec → Bridge → Bridge
unfolding ts_add_ms
reschedule now b =
    let next = ts_add_ms b.next_tick 20 in
    record b { next_tick = if is_due 100 next now then ts_add_ms now 20 else next }

abbrev pub flowing : Agent → Bool
flowing a = a.call_active && a.rtp_peer_known

-- The loop of the paced pump, over the ticks for which it has the time.
unfoldable pub pump_loop : Timespec → List Tick → Bridge → Bridge
unfolding audio_tick reschedule
pump_loop now [] b = b
pump_loop now (t ∷ ts) b =
    let b' = pump_loop t.now ts (reschedule t.now (audio_tick t b)) in
    if flowing b.agent && is_due 0 b.next_tick now then b' else b

-- The samples of a packet are queued.
unfoldable pub queue_audio : Parsed → Bridge → Bridge
unfolding enqueue_rx
queue_audio (audio xs) b = record b { agent = record b.agent { pump = enqueue_rx b.agent.pump xs } }
queue_audio _ b = b

-- The first packet of a call makes its sender the peer, and starts the clock.
unfoldable pub meet_peer : Timespec → Bridge → Bridge
unfolding ts_add_ms
meet_peer now b =
    if b.agent.rtp_peer_known
    then b
    else record b { agent = record b.agent { rtp_peer_known = true }; next_tick = ts_add_ms now 40 }

-- A packet on the RTP socket.
unfoldable pub take_rtp : List ℕ → Timespec → Bridge → Bridge
unfolding meet_peer queue_audio process_rtp
take_rtp pkt now b =
    if ltb 0 (length pkt) && b.agent.call_active
    then queue_audio (process_rtp pkt) (meet_peer now b)
    else b

-- What `rand` gives to the stream of a new call.
pub record Start : Type 0 where
  pub ssrc : ℕ
  pub seq : ℕ
  pub ts : ℕ

-- A request that has set up a call, which `call_seq` counts, begins a new stream.
unfoldable pub begin_stream : Start → ℕ → Bridge → Bridge
begin_stream new calls b =
    if b.agent.call_seq == calls
    then b
    else record b { local_ssrc = new.ssrc; rtp_seq = new.seq; rtp_ts = new.ts }

-- A datagram on the SIP socket. After a response the pump is left out for this round.
unfoldable pub take_event : Option Event → Start → Timespec → List Tick → Bridge → Bridge
unfolding handle begin_stream pump_loop
take_event none new now ts b = b
take_event (some ev) new now ts b =
    pump_loop now ts (begin_stream new b.agent.call_seq (record b { agent = handle ev b.agent }))

-- What a poll reports: EINTR; that the daemon is gone; or what can be read, the RTP socket first. A
-- datagram comes with what the system gives to an INVITE.
pub data Poll : Type 0 where
  interrupted daemon_gone : Poll
  rtp : List ℕ → Timespec → Timespec → List Tick → Poll
  sip : Host → List ℕ → Start → Timespec → List Tick → Poll
  nothing : Timespec → List Tick → Poll

abbrev pub is_open : Option ℕ → Bool
is_open none = false
is_open (some fd) = true

-- One round of the loop of `sm_sip_run`. Only a socket that is open is polled.
unfoldable pub serve : Poll → Bridge → Bridge
unfolding hang_up_call take_rtp take_event receive pump_loop
serve interrupted b = b
serve daemon_gone b = if is_open b.agent.daemon_fd then hang_up_call b else b
serve (rtp pkt met now ts) b =
    pump_loop now ts (if is_open b.agent.rtp_fd then take_rtp pkt met b else b)
serve (sip h text new now ts) b =
    if ltb 0 (length text) then take_event (receive h text) new now ts b else pump_loop now ts b
serve (nothing now ts) b = pump_loop now ts b

-- The loop of `sm_sip_run`, until `max_calls` calls are done; `none` is -1, without an end. The list
-- of polls ends where one fails.
unfoldable pub sm_sip_run : Option ℕ → List Poll → Bridge → Bridge
unfolding serve
sm_sip_run limit [] b = b
sm_sip_run none (p ∷ ps) b = sm_sip_run none ps (serve p b)
sm_sip_run (some n) (p ∷ ps) b =
    let b' = sm_sip_run (some n) ps (serve p b) in if ltb b.agent.calls_done n then b' else b
