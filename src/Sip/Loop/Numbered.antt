-- ===== src/Sip/Loop/Numbered.antt =====
-- The numbers of the RTP packets that `feed_daemon` sends.
use v34_working.Base.{
  ℕ, ◌+◌, ◌%◌, ◌^◌, ◌≡◌, refl, sym, ap, ap₂, ◌∙◌, List, [], ◌∷◌, ◌++◌, append-nil, append_assoc,
  ◌&&◌, length, min, u32, if◌then◌else◌, if-Has,
}
use v34_working.Sip.Rtp.{max_payload, packet}
use v34_working.Sip.Media.{next_frame}
use v34_working.Sip.Clock.{Timespec}
use v34_working.Sip.Call.{Agent, end_call}
use v34_working.Sip.Loop.{
  Bridge, Reply, samples, hang_up, other, timeout, closed, Tick, send_bye, hang_up_call, send_rtp,
  reply_loop, feed_daemon, audio_tick, is_due, reschedule, flowing, pump_loop,
}

-- The number after one, and the time after a frame.
abbrev pub next_seq : ℕ → ℕ
next_seq seq = (seq + 1) % 2 ^ 16

abbrev pub next_ts : ℕ → List ℕ → ℕ
next_ts ts frame = u32 (ts + min (length frame) max_payload)

-- The packets of a stream: numbered one after the other, with the time in samples.
abbrev pub stream : ℕ → ℕ → ℕ → List (List ℕ) → List (List ℕ)
stream seq ts ssrc [] = []
stream seq ts ssrc (f ∷ fs) = packet seq ts ssrc f ∷ stream (next_seq seq) (next_ts ts f) ssrc fs

-- The number and the time behind a stream.
abbrev pub seq_after : ℕ → List (List ℕ) → ℕ
seq_after seq [] = seq
seq_after seq (f ∷ fs) = seq_after (next_seq seq) fs

abbrev pub ts_after : ℕ → List (List ℕ) → ℕ
ts_after ts [] = ts
ts_after ts (f ∷ fs) = ts_after (next_ts ts f) fs

-- The bridge has sent these frames.
pub record Sends (b : Bridge) (frames : List (List ℕ)) (b' : Bridge) : Type 0 where
  pub sent : b'.packets ≡ b.packets ++ stream b.rtp_seq b.rtp_ts b.local_ssrc frames
  pub seq : b'.rtp_seq ≡ seq_after b.rtp_seq frames
  pub ts : b'.rtp_ts ≡ ts_after b.rtp_ts frames
  pub ssrc : b'.local_ssrc ≡ b.local_ssrc

-- What is said of a bridge and one after it.
abbrev Goes : Bridge → Bridge → Type 0
Goes b b' = (frames : List (List ℕ)) × Sends b frames b'

stream-append :
    (seq ts ssrc : ℕ) (fs gs : List (List ℕ))
    → stream seq ts ssrc (fs ++ gs)
      ≡ stream seq ts ssrc fs ++ stream (seq_after seq fs) (ts_after ts fs) ssrc gs
stream-append seq ts ssrc [] gs = refl
stream-append seq ts ssrc (f ∷ fs) gs =
    ap (λ l. packet seq ts ssrc f ∷ l) (stream-append (next_seq seq) (next_ts ts f) ssrc fs gs)

seq_after-append :
    (seq : ℕ) (fs gs : List (List ℕ)) → seq_after seq (fs ++ gs) ≡ seq_after (seq_after seq fs) gs
seq_after-append seq [] gs = refl
seq_after-append seq (f ∷ fs) gs = seq_after-append (next_seq seq) fs gs

ts_after-append :
    (ts : ℕ) (fs gs : List (List ℕ)) → ts_after ts (fs ++ gs) ≡ ts_after (ts_after ts fs) gs
ts_after-append ts [] gs = refl
ts_after-append ts (f ∷ fs) gs = ts_after-append (next_ts ts f) fs gs

stream-cong :
    {seq seq' ts ts' ssrc ssrc' : ℕ} (fs : List (List ℕ))
    → seq ≡ seq'
    → ts ≡ ts'
    → ssrc ≡ ssrc'
    → stream seq ts ssrc fs ≡ stream seq' ts' ssrc' fs
stream-cong fs p q r i = stream (p i) (q i) (r i) fs

-- The call, the clock and the BYE requests are no part of the stream.
aside-Goes :
    (agent : Agent) (next : Timespec) (n : ℕ) (b : Bridge)
    → Goes b (record b { agent = agent; next_tick = next; byes = n })
aside-Goes agent next n b =
    ([], record { sent = sym (append-nil b.packets); seq = refl; ts = refl; ssrc = refl })

Goes-same : (b : Bridge) → Goes b b
Goes-same b = aside-Goes b.agent b.next_tick b.byes b

-- A stream behind another, whose numbers are where that one has come to.
Sends-trans :
    (a b c : Bridge) (fs gs : List (List ℕ)) → Sends a fs b → Sends b gs c → Sends a (fs ++ gs) c
Sends-trans a b c fs gs p q = record {
  sent =
      q.sent
      ∙ ap₂ (λ l m. l ++ m) p.sent (stream-cong gs p.seq p.ts p.ssrc)
      ∙ append_assoc a.packets (stream a.rtp_seq a.rtp_ts a.local_ssrc fs)
          (stream (seq_after a.rtp_seq fs) (ts_after a.rtp_ts fs) a.local_ssrc gs)
      ∙ ap (λ l. a.packets ++ l) (sym (stream-append a.rtp_seq a.rtp_ts a.local_ssrc fs gs));
  seq = q.seq ∙ ap (λ n. seq_after n gs) p.seq ∙ sym (seq_after-append a.rtp_seq fs gs);
  ts = q.ts ∙ ap (λ n. ts_after n gs) p.ts ∙ sym (ts_after-append a.rtp_ts fs gs);
  ssrc = q.ssrc ∙ p.ssrc;
}

Goes-trans : (a b c : Bridge) → Goes a b → Goes b c → Goes a c
Goes-trans a b c (fs, p) (gs, q) = (fs ++ gs, Sends-trans a b c fs gs p q)

send_bye-Goes : (b : Bridge) → Goes b (send_bye b)
unfolding send_bye
send_bye-Goes b =
    if-Has (Goes b) (b.agent.call_active && b.agent.rtp_peer_known)
      (record b { byes = b.byes + 1; agent = record b.agent { cseq = b.agent.cseq + 1 } }) b
      (λ _. aside-Goes (record b.agent { cseq = b.agent.cseq + 1 }) b.next_tick (b.byes + 1) b)
      (λ _. Goes-same b)

-- The end of the call leaves the stream as it is.
ended-Goes : (a b : Bridge) → Goes a b → Goes a (record b { agent = end_call b.agent })
ended-Goes a b (fs, p) = (fs, record { sent = p.sent; seq = p.seq; ts = p.ts; ssrc = p.ssrc })

hang_up_call-Goes : (b : Bridge) → Goes b (hang_up_call b)
unfolding hang_up_call
hang_up_call-Goes b = ended-Goes b (if b.agent.rtp_peer_known then send_bye b else b) (
    if-Has (Goes b) b.agent.rtp_peer_known (send_bye b) b (λ _. send_bye-Goes b) (λ _. Goes-same b))

send_rtp-Goes : (frame : List ℕ) (b : Bridge) → Goes b (send_rtp frame b)
unfolding send_rtp
send_rtp-Goes frame b = (frame ∷ [], record { sent = refl; seq = refl; ts = refl; ssrc = refl })

reply_loop-Goes : (rs : List Reply) (b : Bridge) → Goes b (reply_loop rs b)
unfolding reply_loop
reply_loop-Goes [] b = Goes-same b
reply_loop-Goes (samples [] ∷ rs) b = reply_loop-Goes rs b
reply_loop-Goes (samples (x ∷ xs) ∷ rs) b = send_rtp-Goes (x ∷ xs) b
reply_loop-Goes (hang_up ∷ rs) b = hang_up_call-Goes b
reply_loop-Goes (other ∷ rs) b = reply_loop-Goes rs b
reply_loop-Goes (timeout ∷ rs) b = Goes-same b
reply_loop-Goes (closed ∷ rs) b = hang_up_call-Goes b

audio_tick-Goes : (t : Tick) (b : Bridge) → Goes b (audio_tick t b)
unfolding audio_tick feed_daemon
audio_tick-Goes t b =
    let b' = record b { agent = record b.agent { pump = (next_frame b.agent.pump).1 } } in
    let same = aside-Goes b'.agent b.next_tick b.byes b in
    if-Has (Goes b) t.wrote (reply_loop t.replies b') (hang_up_call b')
      (λ _. Goes-trans b b' (reply_loop t.replies b') same (reply_loop-Goes t.replies b'))
      (λ _. Goes-trans b b' (hang_up_call b') same (hang_up_call-Goes b'))

reschedule-Goes : (now : Timespec) (b : Bridge) → Goes b (reschedule now b)
unfolding reschedule
reschedule-Goes now b = aside-Goes b.agent (reschedule now b).next_tick b.byes b

-- Whatever the daemon answers, the pump's packets are a stream: the numbers follow one another modulo
-- 2^16 from the one that stood in the agent, each time is the one before with the samples of its
-- packet, modulo 2^32, and what stands in the agent behind them goes on from there.
pub pump_loop-Sends :
    (now : Timespec) (ts : List Tick) (b : Bridge)
    → (frames : List (List ℕ)) × Sends b frames (pump_loop now ts b)
unfolding pump_loop
pump_loop-Sends now [] b = Goes-same b
pump_loop-Sends now (t ∷ ts) b =
    let b' = reschedule t.now (audio_tick t b) in
    if-Has (Goes b) (flowing b.agent && is_due 0 b.next_tick now) (pump_loop t.now ts b') b
      (λ _.
        Goes-trans b b' (pump_loop t.now ts b')
          (Goes-trans b (audio_tick t b) b' (audio_tick-Goes t b)
            (reschedule-Goes t.now (audio_tick t b)))
          (pump_loop-Sends t.now ts b'))
      (λ _. Goes-same b)
