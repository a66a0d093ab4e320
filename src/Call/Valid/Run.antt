-- ===== src/Call/Valid/Run.antt =====
-- A call is valid from `sm_call_init` to the end of the loop of `sm_call_run`.
use v34_working.Base.{
  ℕ, ◌+◌, ◌/◌, ◌<◌, ◌≡◌, refl, Bool-cases, inl, inr, arith, List, [], ◌∷◌, Bool, ◌&&◌, Option, none,
  some, ltb, leb, if-Has, if◌then◌else◌,
}
use v34_working.Bbs.Session.{World}
use v34_working.AudioSocket.Reader.{max_payload}
use v34_working.Call.{Settings, is_some, Call}
use v34_working.Call.Engines.{Engines}
use v34_working.Call.Pppd.{Host, pump_ppp}
use v34_working.Call.Process.{process_audio}
use v34_working.Call.Init.{sm_call_init}
use v34_working.Call.Valid.Init.{sm_call_init-IsValid}
use v34_working.Call.Run.{
  Kind, uuid, audio, hang_up, error, other, kind_of, Event, gone, silent, message, to_samples, End,
  no_audio, chunk_of, after_pump, receive, round, call_loop, is_hangup, go_on, by_phase, Started,
  given_up, listening, overrun, started, start_early, await_uuid,
}
use v34_working.Call.Valid.{IsValid}
use v34_working.Call.Valid.Pump.{pump_ppp-IsValid}
use v34_working.Call.Valid.Process.{process_audio-IsValid}

-- What decides the wait for the UUID: a read that fails, a UUID, audio of so many bytes, or nothing
-- so far. Other messages are passed over, as is a UUID of fewer than 16 bytes.
pub data First : Type 0 where
  refused unread identified : First
  sound : ℕ → First

abbrev pub first_is : Kind → ℕ → First → First
first_is uuid plen later = if leb 16 plen then identified else later
first_is audio plen later = sound plen
first_is hang_up plen later = later
first_is error plen later = later
first_is other plen later = later

abbrev pub first_of : List Event → First
first_of [] = unread
first_of (gone ∷ evs) = refused
first_of (silent h ∷ evs) = refused
first_of (message k payload plen h wrote died ∷ evs) = first_is (kind_of k) plen (first_of evs)

module _ {X G : Type 0} where
  -- A round that ends or goes on with a valid call.
  abbrev IsGood : Option End × List ℕ × Call X G → Type 0
  IsGood r = IsValid r.2

  after_pump-IsGood :
      (died : Bool) (r : List ℕ × Call X G) → IsValid r.1 → IsGood (after_pump died r)
  unfolding after_pump
  after_pump-IsGood died (given, c) v =
      if-Has IsGood (c.ppp_started && is_some c.pppd_pid && died) _ (none, given, c) (λ _. v)
        (λ _. v)

  go_on-IsValid :
      (stop : Option End) (given : List ℕ) (c : Call X G) (rest : End × List ℕ × Call X G)
      → IsValid c
      → IsValid rest.2
      → IsValid (go_on stop given c rest).2
  unfolding go_on
  go_on-IsValid none given c (end, later, c') v v' = v'
  go_on-IsValid (some end) given c rest v v' = v

module _ {X G : Type 0} (e : Engines X) (w : World G) where
  receive-IsGood :
      (k : Kind) (payload : List ℕ) (h : Host) (wrote died : Bool) (c : Call X G)
      → IsValid c
      → IsGood (receive e w k payload h wrote died c)
  unfolding receive
  receive-IsGood audio payload h wrote died c v =
      let c' = process_audio e (chunk_of payload) c in
      let v' = process_audio-IsValid e (chunk_of payload) c v in
      if-Has IsGood wrote (after_pump died (pump_ppp w h c')) _
        (λ _. after_pump-IsGood died (pump_ppp w h c') (pump_ppp-IsValid w h c' v')) (λ _. v')
  receive-IsGood hang_up payload h wrote died c v = v
  receive-IsGood error payload h wrote died c v = v
  receive-IsGood uuid payload h wrote died c v =
      after_pump-IsGood died (pump_ppp w h c) (pump_ppp-IsValid w h c v)
  receive-IsGood other payload h wrote died c v =
      after_pump-IsGood died (pump_ppp w h c) (pump_ppp-IsValid w h c v)

  round-IsGood : (ev : Event) (t : ℕ) (c : Call X G) → IsValid c → IsValid (round e w ev t c).3
  unfolding round
  round-IsGood gone t c v = v
  round-IsGood (silent h) t c v =
      let (given, c') = pump_ppp w h c in
      if-Has {A = Option End × ℕ × List ℕ × Call X G} (λ r. IsValid r.3) (leb 5 (t + 1))
        (some no_audio, t + 1, [], c) (none, t + 1, given, c') (λ _. v)
        (λ _. pump_ppp-IsValid w h c v)
  round-IsGood (message k payload plen h wrote died) t c v =
      receive-IsGood (kind_of k) payload h wrote died c v

  pub call_loop-IsValid :
      (evs : List Event) (t : ℕ) (c : Call X G) → IsValid c → IsValid (call_loop e w evs t c).2
  unfolding call_loop
  call_loop-IsValid [] t c v = v
  call_loop-IsValid (ev ∷ evs) t c v =
      let (stop, t', given, c') = round e w ev t c in
      let v' = round-IsGood ev t c v in
      let rest = call_loop e w evs t' c' in
      if-Has {A = End × List ℕ × Call X G} (λ r. IsValid r.2) (is_hangup c.phase) (by_phase, [], c)
        (go_on stop given c' rest) (λ _. v)
        (λ _. go_on-IsValid stop given c' rest v' (call_loop-IsValid evs t' c' v'))

  -- How the wait for the UUID ends, and the call at the end of the loop behind it.
  abbrev pub EndsValid : First → Started X G → Type 0
  EndsValid first given_up = first ≡ refused
  EndsValid first listening = first ≡ unread
  EndsValid first overrun = (n : ℕ) × (first ≡ sound n) × (max_payload / 2 < n / 2)
  EndsValid first (started evs c) = IsValid (call_loop e w evs 0 c).2

  identified-EndsValid :
      (plen : ℕ) (later : First) (r r' : Started X G)
      → EndsValid identified r
      → EndsValid later r'
      → EndsValid (if leb 16 plen then identified else later) (if leb 16 plen then r else r')
  identified-EndsValid plen later r r' h h' = elim (Bool-cases (leb 16 plen)) [
    | inl long ↦ rw long h
    | inr short ↦ rw short h'
  ]

  start_early-EndsValid :
      (evs : List Event) (payload : List ℕ) (plen : ℕ) (c : Call X G)
      → IsValid c
      → EndsValid (sound plen) (start_early e evs payload plen c)
  unfolding start_early
  start_early-EndsValid evs payload plen c v =
      let c' = process_audio e (to_samples payload) c in
      if-Has (EndsValid (sound plen)) (ltb (max_payload / 2) (plen / 2)) overrun (started evs c')
        (λ long. (plen, refl, ground arith))
        (λ _. call_loop-IsValid evs 0 c' (process_audio-IsValid e (to_samples payload) c v))

  await_uuid-EndsValid :
      (evs : List Event) (c : Call X G) → IsValid c → EndsValid (first_of evs) (await_uuid e evs c)
  unfolding await_uuid
  await_uuid-EndsValid [] c v = refl
  await_uuid-EndsValid (gone ∷ evs) c v = refl
  await_uuid-EndsValid (silent h ∷ evs) c v = refl
  await_uuid-EndsValid (message k payload plen h wrote died ∷ evs) c v =
      let later = await_uuid-EndsValid evs c v in
      elim (kind_of k)
        as (λ x. EndsValid (first_is x plen (first_of evs)) (elim x [
          | uuid ↦ (if leb 16 plen then started evs c else await_uuid e evs c)
          | audio ↦ start_early e evs payload plen c
          | hang_up ↦ await_uuid e evs c
          | error ↦ await_uuid e evs c
          | other ↦ await_uuid e evs c
        ])) [
          | uuid ↦
              identified-EndsValid plen (first_of evs) (started evs c) (await_uuid e evs c)
                (call_loop-IsValid evs 0 c v) later
          | audio ↦ start_early-EndsValid evs payload plen c v
          | hang_up ↦ later
          | error ↦ later
          | other ↦ later
        ]

  -- From `sm_call_init` on, whatever the engines, the socket and the system do, one of these holds:
  -- the wait for the UUID ends with -1, at a timeout or a closed socket before any UUID or audio; it
  -- is still at a read; the first message of the two kinds is audio with more samples than the 2048
  -- that `payload` and `txbuf` have room for, which are then overrun; or the loop comes to a valid
  -- call: V.34 has its engine, nothing is beyond the end of `ppy_out`, of the bit queue or of the
  -- deframer, an open descriptor comes from a pppd that was started, at most one pty is open, and
  -- there never is a session of the bulletin board.
  pub await_uuid-sm_call_init :
      (cfg : Settings) (captured : Bool) (evs : List Event)
      → EndsValid (first_of evs) (await_uuid e evs (sm_call_init e cfg captured))
  await_uuid-sm_call_init cfg captured evs =
      await_uuid-EndsValid evs (sm_call_init e cfg captured) (sm_call_init-IsValid e cfg captured)
