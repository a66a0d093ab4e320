-- ===== src/Call/Run.antt =====
-- The life of a call: `sm_call_run`.
pub mod Ends
pub mod Closes
use v34_working.Base.{
  ℕ, zero, suc, ◌+◌, ◌-◌, ◌*◌, ◌/◌, ◌%◌, List, [], ◌∷◌, ◌++◌, Bool, true, false, not, ◌&&◌, ◌||◌,
  Option, none, some, ltb, leb, ◌==◌, min, length, take, if◌then◌else◌,
}
use v34_working.Serial.Queue.{init as queue_init}
use v34_working.Serial.Deframer.{init as deframer_init}
use v34_working.AudioSocket.Reader.{max_payload}
use v34_working.Bbs.Session.{World}
use v34_working.Call.{
  Settings, Mode, v22, v34, Phase, idle, answer_tone, v8, handshake, data_mode, hangup, is_some,
  Call,
}
use v34_working.Call.Engines.{Engines}
use v34_working.Call.Pppd.{Host, pump_ppp, stop_pppd}
use v34_working.Call.Process.{sample_rate, process_audio}

abbrev pub is_hangup : Phase → Bool
is_hangup hangup = true
is_hangup _ = false

-- `SM_AS_KIND_UUID`, `SM_AS_KIND_AUDIO`, `SM_AS_KIND_HANGUP` and `SM_AS_KIND_ERROR`; a DTMF digit is
-- only logged, as any other kind is.
pub data Kind : Type 0 where
  uuid audio hang_up error other : Kind

unfoldable pub kind_of : ℕ → Kind
kind_of k =
    if k == 0x01
    then uuid
    else if k == 0x10
    then audio
    else if k == 0x00
    then hang_up
    else if k == 0xFF
    then error
    else other

-- What `sm_ast_read` gives, and what the system gives to the rest of the round: to `pump_ppp`,
-- whether the audio can be written, and whether `waitpid` finds that pppd is gone. A message has its
-- kind, the bytes that were copied, and `plen`, which may be more than those.
pub data Event : Type 0 where
  gone : Event
  silent : Host → Event
  message : ℕ → List ℕ → ℕ → Host → Bool → Bool → Event

-- The samples in the bytes of a payload, an odd byte at the end left out.
abbrev pub to_samples : List ℕ → List ℕ
to_samples [] = []
to_samples (a ∷ []) = []
to_samples (a ∷ b ∷ bs) = (a + 256 * b) ∷ to_samples bs

-- How the loop ends; `waiting` is a run whose last read has not returned.
pub data End : Type 0 where
  by_phase closed no_audio write_failed asked failed pppd_gone waiting : End

-- The wait for the UUID: given up with -1, at a read that has not returned, at an access beyond the
-- end of `payload` and `txbuf`, or over with the reads that are left.
pub data Started (X G : Type 0) : Type 0 where
  given_up listening overrun : Started X G
  started : List Event → Call X G → Started X G

-- What `sm_call_run` comes to: the early return of -1, a read before the loop that has not returned,
-- an access out of bounds, or the end of the loop, with what pppd was given and the call after the
-- clean-up.
pub data Outcome (X G : Type 0) : Type 0 where
  not_run pending crashed : Outcome X G
  ended : End → List ℕ → Call X G → Outcome X G

-- The audio of a message: at most `txbuf`, and an even number of bytes.
unfoldable pub chunk_of : List ℕ → List ℕ
chunk_of payload = to_samples (take max_payload payload)

module _ {X G : Type 0} where
  -- What is at the end of a round: the loop goes on, unless pppd has died.
  unfoldable pub after_pump : Bool → List ℕ × Call X G → Option End × List ℕ × Call X G
  after_pump died (given, c) =
      if c.ppp_started && is_some c.pppd_pid && died
      then (some pppd_gone, given, record c { pppd_pid = none })
      else (none, given, c)

  -- A round that ends the loop, or the rest of the loop behind it.
  unfoldable pub go_on :
      Option End → List ℕ → Call X G → End × List ℕ × Call X G → End × List ℕ × Call X G
  go_on (some end) given c rest = (end, given, c)
  go_on none given c (end, later, c') = (end, given ++ later, c')

  -- What follows `out:`.
  unfoldable pub release : Call X G → Call X G
  unfolding stop_pppd
  release c =
      stop_pppd
        (record c { cap_in = none; cap_out = none; v8 = none; bm = none; v34 = none; bbs = none })

module _ {X G : Type 0} (e : Engines X) where
  -- The audio that comes in place of the UUID. Its length is not cut to `payload` and `txbuf`.
  unfoldable pub start_early : List Event → List ℕ → ℕ → Call X G → Started X G
  unfolding process_audio
  start_early evs payload plen c =
      if ltb (max_payload / 2) (plen / 2)
      then overrun
      else started evs (process_audio e (to_samples payload) c)

  -- The wait for the UUID.
  unfoldable pub await_uuid : List Event → Call X G → Started X G
  unfolding start_early kind_of
  await_uuid [] c = listening
  await_uuid (gone ∷ evs) c = given_up
  await_uuid (silent h ∷ evs) c = given_up
  await_uuid (message k payload plen h wrote died ∷ evs) c =
      let later = await_uuid evs c in
      elim (kind_of k) [
        | uuid ↦ (if leb 16 plen then started evs c else later)
        | audio ↦ start_early evs payload plen c
        | hang_up ↦ later
        | error ↦ later
        | other ↦ later
      ]

module _ {X G : Type 0} (e : Engines X) (w : World G) where
  -- The `switch` on the kind of a message, and the round behind it.
  unfoldable pub receive :
      Kind → List ℕ → Host → Bool → Bool → Call X G → Option End × List ℕ × Call X G
  unfolding chunk_of after_pump pump_ppp process_audio
  receive audio payload h wrote died c =
      let c' = process_audio e (chunk_of payload) c in
      if wrote then after_pump died (pump_ppp w h c') else (some write_failed, [], c')
  receive hang_up payload h wrote died c = (some asked, [], c)
  receive error payload h wrote died c = (some failed, [], c)
  receive uuid payload h wrote died c = after_pump died (pump_ppp w h c)
  receive other payload h wrote died c = after_pump died (pump_ppp w h c)

  -- One round of the loop, with the timeouts that came before it: how it ends the loop, if it does,
  -- the timeouts now, what pppd is given, and the call.
  unfoldable pub round : Event → ℕ → Call X G → Option End × ℕ × List ℕ × Call X G
  unfolding receive pump_ppp kind_of
  round gone t c = (some closed, t, [], c)
  round (silent h) t c =
      let (given, c') = pump_ppp w h c in
      if leb 5 (t + 1) then (some no_audio, t + 1, [], c) else (none, t + 1, given, c')
  round (message k payload plen h wrote died) t c =
      let (stop, given, c') = receive (kind_of k) payload h wrote died c in (stop, 0, given, c')

  -- The loop over the reads: how it ends, what pppd was given, and the call.
  unfoldable pub call_loop : List Event → ℕ → Call X G → End × List ℕ × Call X G
  unfolding round go_on
  call_loop [] t c = (if is_hangup c.phase then by_phase else waiting, [], c)
  call_loop (ev ∷ evs) t c =
      let (stop, t', given, c') = round ev t c in
      let rest = call_loop evs t' c' in
      if is_hangup c.phase then (by_phase, [], c) else go_on stop given c' rest

  unfoldable pub run_from : Started X G → Outcome X G
  unfolding call_loop release
  run_from given_up = not_run
  run_from listening = pending
  run_from overrun = crashed
  run_from (started evs c) =
      let (end, given, c') = call_loop evs 0 c in ended end given (release c')

  -- `sm_call_run`
  unfoldable pub sm_call_run : List Event → Call X G → Outcome X G
  unfolding await_uuid run_from
  sm_call_run evs c = run_from (await_uuid e evs c)
