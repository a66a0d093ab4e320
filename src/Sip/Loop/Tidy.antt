-- ===== src/Sip/Loop/Tidy.antt =====
-- The bridge's loop and the descriptors of its call.
use v34_working.Base.{
  ℕ, List, [], ◌∷◌, Bool, ◌&&◌, Option, none, some, ltb, length, if◌then◌else◌, if-Has, ◌==◌,
}
use v34_working.Sip.Rtp.{Parsed, rejected, ignored, overread, audio, process_rtp}
use v34_working.Sip.Clock.{Timespec}
use v34_working.Sip.Call.{Event, handle}
use v34_working.Sip.Call.Descriptors.{IsTidy, end_call-IsTidy, handle-IsTidy}
use v34_working.Sip.Parse.{receive}
use v34_working.Sip.Loop.{
  Bridge, Reply, samples, hang_up, other, timeout, closed, Tick, send_bye, hang_up_call, send_rtp,
  reply_loop, feed_daemon, audio_tick, is_due, reschedule, flowing, pump_loop, queue_audio,
  meet_peer, take_rtp, Start, begin_stream, take_event, Poll, interrupted, daemon_gone, rtp, sip,
  nothing, is_open, serve, sm_sip_run,
}

abbrev Tidy : Bridge → Type 0
Tidy b = IsTidy b.agent

hang_up_call-Tidy : (b : Bridge) → Tidy (hang_up_call b)
unfolding hang_up_call
hang_up_call-Tidy b = end_call-IsTidy (if b.agent.rtp_peer_known then send_bye b else b).agent

reply_loop-Tidy : (rs : List Reply) (b : Bridge) → Tidy b → Tidy (reply_loop rs b)
unfolding reply_loop send_rtp
reply_loop-Tidy [] b t = t
reply_loop-Tidy (samples [] ∷ rs) b t = reply_loop-Tidy rs b t
reply_loop-Tidy (samples (x ∷ xs) ∷ rs) b t = t
reply_loop-Tidy (hang_up ∷ rs) b t = hang_up_call-Tidy b
reply_loop-Tidy (other ∷ rs) b t = reply_loop-Tidy rs b t
reply_loop-Tidy (timeout ∷ rs) b t = t
reply_loop-Tidy (closed ∷ rs) b t = hang_up_call-Tidy b

feed_daemon-Tidy :
    (wrote : Bool) (rs : List Reply) (b : Bridge) → Tidy b → Tidy (feed_daemon wrote rs b)
unfolding feed_daemon
feed_daemon-Tidy wrote rs b t =
    if-Has Tidy wrote (reply_loop rs b) (hang_up_call b) (λ _. reply_loop-Tidy rs b t)
      (λ _. hang_up_call-Tidy b)

audio_tick-Tidy : (t : Tick) (b : Bridge) → Tidy b → Tidy (audio_tick t b)
unfolding audio_tick
audio_tick-Tidy t b k = feed_daemon-Tidy t.wrote t.replies _ k

pump_loop-Tidy : (now : Timespec) (ts : List Tick) (b : Bridge) → Tidy b → Tidy (pump_loop now ts b)
unfolding pump_loop reschedule
pump_loop-Tidy now [] b k = k
pump_loop-Tidy now (t ∷ ts) b k =
    let b' = reschedule t.now (audio_tick t b) in
    if-Has Tidy (flowing b.agent && is_due 0 b.next_tick now) (pump_loop t.now ts b') b
      (λ _. pump_loop-Tidy t.now ts b' (audio_tick-Tidy t b k)) (λ _. k)

queue_audio-Tidy : (p : Parsed) (b : Bridge) → Tidy b → Tidy (queue_audio p b)
unfolding queue_audio
queue_audio-Tidy (audio xs) b k = k
queue_audio-Tidy rejected b k = k
queue_audio-Tidy ignored b k = k
queue_audio-Tidy overread b k = k

meet_peer-Tidy : (now : Timespec) (b : Bridge) → Tidy b → Tidy (meet_peer now b)
unfolding meet_peer
meet_peer-Tidy now b k = if-Has Tidy b.agent.rtp_peer_known b _ (λ _. k) (λ _. k)

take_rtp-Tidy : (pkt : List ℕ) (now : Timespec) (b : Bridge) → Tidy b → Tidy (take_rtp pkt now b)
unfolding take_rtp
take_rtp-Tidy pkt now b k =
    if-Has Tidy (ltb 0 (length pkt) && b.agent.call_active)
      (queue_audio (process_rtp pkt) (meet_peer now b)) b
      (λ _. queue_audio-Tidy (process_rtp pkt) (meet_peer now b) (meet_peer-Tidy now b k)) (λ _. k)

begin_stream-Tidy : (new : Start) (n : ℕ) (b : Bridge) → Tidy b → Tidy (begin_stream new n b)
unfolding begin_stream
begin_stream-Tidy new n b k =
    if-Has Tidy (b.agent.call_seq == n) b
      (record b { local_ssrc = new.ssrc; rtp_seq = new.seq; rtp_ts = new.ts }) (λ _. k) (λ _. k)

take_event-Tidy :
    (o : Option Event) (new : Start) (now : Timespec) (ts : List Tick) (b : Bridge)
    → Tidy b
    → Tidy (take_event o new now ts b)
unfolding take_event
take_event-Tidy none new now ts b k = k
take_event-Tidy (some ev) new now ts b k =
    pump_loop-Tidy now ts
      (begin_stream new b.agent.call_seq (record b { agent = handle ev b.agent }))
      (begin_stream-Tidy new b.agent.call_seq (record b { agent = handle ev b.agent })
        (handle-IsTidy ev b.agent k))

serve-Tidy : (p : Poll) (b : Bridge) → Tidy b → Tidy (serve p b)
unfolding serve
serve-Tidy interrupted b k = k
serve-Tidy daemon_gone b k =
    if-Has Tidy (is_open b.agent.daemon_fd) (hang_up_call b) b (λ _. hang_up_call-Tidy b) (λ _. k)
serve-Tidy (rtp pkt met now ts) b k =
    pump_loop-Tidy now ts (if is_open b.agent.rtp_fd then take_rtp pkt met b else b) (
      if-Has Tidy (is_open b.agent.rtp_fd) (take_rtp pkt met b) b (λ _. take_rtp-Tidy pkt met b k)
        (λ _. k))
serve-Tidy (sip h text new now ts) b k =
    if-Has Tidy (ltb 0 (length text)) (take_event (receive h text) new now ts b)
      (pump_loop now ts b) (λ _. take_event-Tidy (receive h text) new now ts b k)
      (λ _. pump_loop-Tidy now ts b k)
serve-Tidy (nothing now ts) b k = pump_loop-Tidy now ts b k

-- Whatever comes in on the sockets, whatever of an INVITE fails and however the daemon behaves, the
-- agent has no call, no media and no descriptor, or a call and both its descriptors: so it is at
-- the end of the loop when it is so at its beginning.
pub sm_sip_run-IsTidy :
    (limit : Option ℕ) (ps : List Poll) (b : Bridge)
    → IsTidy b.agent
    → IsTidy (sm_sip_run limit ps b).agent
unfolding sm_sip_run
sm_sip_run-IsTidy limit [] b k = k
sm_sip_run-IsTidy none (p ∷ ps) b k = sm_sip_run-IsTidy none ps (serve p b) (serve-Tidy p b k)
sm_sip_run-IsTidy (some n) (p ∷ ps) b k =
    if-Has Tidy (ltb b.agent.calls_done n) (sm_sip_run (some n) ps (serve p b)) b
      (λ _. sm_sip_run-IsTidy (some n) ps (serve p b) (serve-Tidy p b k)) (λ _. k)
