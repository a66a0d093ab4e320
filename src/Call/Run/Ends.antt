-- ===== src/Call/Run/Ends.antt =====
-- How the loop of `sm_call_run` ends.
use v34_working.Base.{
  ℕ, ◌+◌, ◌≤◌, ◌<◌, ◌≡◌, ◌≢◌, refl, List, [], ◌∷◌, ◌++◌, map, Bool, true, false, ◌&&◌, Option, none,
  some, length, leb, arith, if-Has, tests,
}
use v34_working.Bbs.Session.{World}
use v34_working.Call.{Call, is_some}
use v34_working.Call.Engines.{Engines}
use v34_working.Call.Pppd.{Host, pump_ppp}
use v34_working.Call.Process.{process_audio}
use v34_working.Call.Run.{
  Kind, uuid, audio, hang_up, error, other, kind_of, Event, gone, silent, message, chunk_of, End,
  by_phase, no_audio, write_failed, waiting, is_hangup, after_pump, receive, round, go_on,
  call_loop,
}

-- The loop still waits for its next read.
abbrev is_waiting : End → Bool
is_waiting waiting = true
is_waiting _ = false

-- A round does not say so of itself.
abbrev waits : Option End → Bool
waits none = false
waits (some end) = is_waiting end

module _ {X G : Type 0} where
  go_on-ends :
      (stop : Option End) (given : List ℕ) (c : Call X G) (rest : End × List ℕ × Call X G)
      → waits stop ≡ false
      → is_waiting rest.0 ≡ false
      → is_waiting (go_on stop given c rest).0 ≡ false
  unfolding go_on
  go_on-ends none given c rest h k = k
  go_on-ends (some end) given c rest h k = h

  abbrev IsRound : Option End × List ℕ × Call X G → Type 0
  IsRound r = waits r.0 ≡ false

  after_pump-IsRound : (died : Bool) (r : List ℕ × Call X G) → IsRound (after_pump died r)
  unfolding after_pump
  after_pump-IsRound died (given, c) =
      if-Has IsRound (c.ppp_started && is_some c.pppd_pid && died) _ (none, given, c) (λ _. refl)
        (λ _. refl)

module _ {X G : Type 0} (e : Engines X) (w : World G) where
  receive-IsRound :
      (k : Kind) (payload : List ℕ) (h : Host) (wrote died : Bool) (c : Call X G)
      → IsRound (receive e w k payload h wrote died c)
  unfolding receive
  receive-IsRound audio payload h wrote died c =
      let c' = process_audio e (chunk_of payload) c in
      if-Has IsRound wrote (after_pump died (pump_ppp w h c')) (some write_failed, [], c')
        (λ _. after_pump-IsRound died (pump_ppp w h c')) (λ _. refl)
  receive-IsRound hang_up payload h wrote died c = refl
  receive-IsRound error payload h wrote died c = refl
  receive-IsRound uuid payload h wrote died c = after_pump-IsRound died (pump_ppp w h c)
  receive-IsRound other payload h wrote died c = after_pump-IsRound died (pump_ppp w h c)

  round-waits : (ev : Event) (t : ℕ) (c : Call X G) → waits (round e w ev t c).0 ≡ false
  unfolding round
  round-waits gone t c = refl
  round-waits (silent h) t c =
      let (given, c') = pump_ppp w h c in
      if-Has {A = Option End × ℕ × List ℕ × Call X G} (λ r. waits r.0 ≡ false) (leb 5 (t + 1))
        (some no_audio, t + 1, [], c) (none, t + 1, given, c') (λ _. refl) (λ _. refl)
  round-waits (message k payload plen h wrote died) t c =
      receive-IsRound (kind_of k) payload h wrote died c

  -- The loop behind a round, unless the call has hung up before it.
  abbrev Onward : List Event → Option End × ℕ × List ℕ × Call X G → Type 0
  Onward evs r = is_waiting (go_on r.0 r.2 r.3 (call_loop e w evs r.1 r.3)).0 ≡ false

  loop-Onward :
      (ev : Event) (evs : List Event) (t : ℕ) (c : Call X G)
      → Onward evs (round e w ev t c)
      → is_waiting (call_loop e w (ev ∷ evs) t c).0 ≡ false
  unfolding call_loop
  loop-Onward ev evs t c on =
      let (stop, t', given, c') = round e w ev t c in
      if-Has {A = End × List ℕ × Call X G} (λ r. is_waiting r.0 ≡ false) (is_hangup c.phase)
        (by_phase, [], c) (go_on stop given c' (call_loop e w evs t' c')) (λ _. refl) (λ _. on)

  silence-ends :
      (hs : List Host) (evs : List Event) (t : ℕ) (c : Call X G)
      → 5 ≤ t + length hs
      → 0 < length hs
      → is_waiting (call_loop e w (map silent hs ++ evs) t c).0 ≡ false
  unfolding round go_on
  silence-ends [] evs t c enough some_host = absurd (omega arith)
  silence-ends (h ∷ hs) evs t c enough some_host =
      let (given, c') = pump_ppp w h c in
      let later = map silent hs ++ evs in
      loop-Onward (silent h) later t c (
        if-Has {A = Option End × ℕ × List ℕ × Call X G} (Onward later) (leb 5 (t + 1))
          (some no_audio, t + 1, [], c) (none, t + 1, given, c') (λ _. refl)
          (λ short. silence-ends hs evs (t + 1) c' (omega arith) (grind (tests, short))))

  five_timeouts :
      (before : List Event) (hs : List Host) (evs : List Event) (t : ℕ) (c : Call X G)
      → length hs ≡ 5
      → is_waiting (call_loop e w (before ++ map silent hs ++ evs) t c).0 ≡ false
  five_timeouts [] hs evs t c five = silence-ends hs evs t c (omega arith) (omega arith)
  five_timeouts (ev ∷ before) hs evs t c five =
      loop-Onward ev (before ++ map silent hs ++ evs) t c (
        let (stop, t', given, c') = round e w ev t c in
        go_on-ends stop given c' _ (round-waits ev t c) (five_timeouts before hs evs t' c' five))

  -- Five timeouts in a row end the loop, whatever came before them and would come after.
  pub call_loop_ends :
      (before : List Event) (hs : List Host) (evs : List Event) (t : ℕ) (c : Call X G)
      → length hs ≡ 5
      → (call_loop e w (before ++ map silent hs ++ evs) t c).0 ≢ waiting
  call_loop_ends before hs evs t c five q =
      absurd (ground (arith, five_timeouts before hs evs t c five))
