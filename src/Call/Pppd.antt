-- ===== src/Call/Pppd.antt =====
-- The byte path of a call: `start_pppd`, `stop_pppd`, `ppp_flush` and `pump_ppp`.
pub mod Order
use v34_working.Base.{
  ℕ, zero, suc, ◌+◌, ◌-◌, List, [], ◌∷◌, ◌++◌, Bool, true, false, not, ◌&&◌, ◌||◌, Option, none,
  some, ltb, leb, ◌==◌, min, length, take, drop, if◌then◌else◌,
}
use v34_working.Serial.Queue.{BitQueue, push_byte}
use v34_working.Serial.Link.{bbs_write}
use v34_working.Serial.Deframer.{deframer_take}
use v34_working.Bbs.Session.{Session, World, Route, undecided, bbs, ppp, hangup}
use v34_working.Bbs.Feed.{bbs_session_feed, bbs_session_take_ppp, bbs_session_create}
use v34_working.Call.{Phase, data_mode, is_data, is_some, Call}

-- sizeof(c->ppy_out)
abbrev pub ppy_size : ℕ
ppy_size = 4096

-- What `write` says to a flush: some bytes were taken, EINTR, or another error, among them EAGAIN.
pub data Answer : Type 0 where
  took : ℕ → Answer
  interrupted refused : Answer

-- What the system gives to one round of `pump_ppp`: the process and the descriptor of a new pppd,
-- its answers to the writes, and what `read` finds: nothing, or bytes, none of them at the end.
pub record Host : Type 0 where
  pub spawned : Option (ℕ × ℕ)
  pub answers : List Answer
  pub found : Option (List ℕ)

-- The loop of `ppp_flush` over the answers, for a descriptor that is open: what pppd is given, and
-- what is left. The answer after the last one is a refusal.
unfoldable pub flush_loop : List Answer → List ℕ → List ℕ × List ℕ
flush_loop ws [] = ([], [])
flush_loop [] (b ∷ bs) = ([], b ∷ bs)
flush_loop (interrupted ∷ ws) (b ∷ bs) = flush_loop ws (b ∷ bs)
flush_loop (refused ∷ ws) (b ∷ bs) = ([], b ∷ bs)
flush_loop (took w ∷ ws) (b ∷ bs) =
    let (given, left) = flush_loop ws (drop w (b ∷ bs)) in (take w (b ∷ bs) ++ given, left)

-- The loop that appends the bytes of the line to `ppy_out`: what does not fit is dropped.
unfoldable pub stage : List ℕ → List ℕ → List ℕ
stage out bytes = out ++ take (min (length bytes) (ppy_size - length out)) bytes

-- The loop of the echo, which does not look at what `sm_bitq_push_byte` says.
unfoldable pub echo_bytes : List ℕ → BitQueue → BitQueue
echo_bytes [] q = q
echo_bytes (b ∷ bs) q = echo_bytes bs (push_byte q b).1

-- `close` of a descriptor that is open.
abbrev pub without : ℕ → List ℕ → List ℕ
without fd [] = []
without fd (x ∷ xs) = let rest = without fd xs in if x == fd then rest else x ∷ rest

abbrev pub close_pty : Option ℕ → List ℕ → List ℕ
close_pty none fds = fds
close_pty (some fd) fds = without fd fds

module _ {X G : Type 0} where
  -- `start_pppd`: whether there is a pppd now.
  unfoldable pub start_pppd : Option (ℕ × ℕ) → Call X G → Bool × Call X G
  start_pppd none c = (false, record c { pppd_pid = none })
  start_pppd (some p) c = (
    true,
    record c {
      pppd_pid = some p.0;
      ppp_fd = some p.1;
      ppp_started = true;
      open_ptys = p.1 ∷ c.open_ptys;
    },
  )

  -- `stop_pppd`
  unfoldable pub stop_pppd : Call X G → Call X G
  stop_pppd c = record c {
    ppp_fd = none;
    pppd_pid = none;
    open_ptys = close_pty c.ppp_fd c.open_ptys;
  }

  -- `ppp_flush`: what pppd is given.
  unfoldable pub ppp_flush : List Answer → Call X G → List ℕ × Call X G
  unfolding flush_loop
  ppp_flush ws c =
      let (given, left) = flush_loop ws c.ppy_out in
      if is_some c.ppp_fd then (given, record c { ppy_out = left }) else ([], c)

  -- `read` of the descriptor, for the modem: bytes, the end of the stream, or nothing. At
  -- the end the descriptor is given up, but not closed.
  unfoldable pub read_bytes : Option (List ℕ) → Call X G → Call X G
  unfolding bbs_write
  read_bytes none c = c
  read_bytes (some []) c = record c { ppp_fd = none }
  read_bytes (some (b ∷ bs)) c =
      let (i, q) = bbs_write c.txbits (b ∷ bs) in
      record c { txbits = q; data_bytes_tx = c.data_bytes_tx + i }

  -- pppd to the modem.
  unfoldable pub read_pppd : Host → Call X G → Call X G
  unfolding read_bytes
  read_pppd h c = if is_some c.ppp_fd then read_bytes h.found c else c

  -- The line to pppd, and then pppd to the modem.
  unfoldable pub relay : Host → List ℕ → Call X G → List ℕ × Call X G
  unfolding stage ppp_flush read_pppd
  relay h bytes c =
      let (given, c') = ppp_flush h.answers (record c {
        ppy_out = stage c.ppy_out bytes;
        data_bytes_rx = c.data_bytes_rx + length bytes;
      }) in
      (given, read_pppd h c')

  -- `n > 0 && c->cfg.echo_data`
  unfoldable pub echo : List ℕ → Call X G → Call X G
  unfolding echo_bytes
  echo bytes c = record c {
    txbits = echo_bytes bytes c.txbits;
    data_bytes_tx = c.data_bytes_tx + length bytes;
    data_bytes_rx = c.data_bytes_rx + length bytes;
  }

  -- The bytes that the session has kept for PPP, over what is in `ppy_out`.
  unfoldable pub take_early : World G → Session G → Call X G → Call X G
  unfolding bbs_session_take_ppp
  take_early w s c =
      if is_some c.ppp_fd then record c { ppy_out = (bbs_session_take_ppp w 1024 s).0 } else c

  -- The end of the session, when there is a pppd or none is wanted.
  unfoldable pub leave_session : World G → Host → Session G → Bool × Call X G → List ℕ × Call X G
  unfolding take_early ppp_flush
  leave_session w h s (true, c) = ppp_flush h.answers (record (take_early w s c) { bbs = none })
  leave_session w h s (false, c) = ([], record c { phase = Phase.hangup })

  -- A pppd for the caller who has chosen PPP.
  unfoldable pub want_pppd : Host → Call X G → Bool × Call X G
  unfolding start_pppd
  want_pppd h c =
      if c.cfg.enable_ppp && not (is_some c.ppp_fd) then start_pppd h.spawned c else (true, c)

  -- The caller's choice.
  unfoldable pub follow_route : World G → Route → Host → Session G → Call X G → List ℕ × Call X G
  unfolding want_pppd leave_session
  follow_route w hangup h s c = ([], record c { phase = Phase.hangup })
  follow_route w ppp h s c = leave_session w h s (want_pppd h c)
  follow_route w undecided h s c = ([], c)
  follow_route w bbs h s c = ([], c)

  -- The bytes of the line, with a session or without one.
  unfoldable pub hand_over :
      World G → Host → Option (Session G) → List ℕ → Call X G → List ℕ × Call X G
  unfolding follow_route relay bbs_session_feed
  hand_over w h none bytes c = relay h bytes c
  hand_over w h (some s) bytes c =
      let s' = if ltb 0 (length bytes) then bbs_session_feed w bytes s else s in
      follow_route w s'.route h s'
        (record c { bbs = some s'; data_bytes_rx = c.data_bytes_rx + length bytes })

  -- The part of `pump_ppp` behind the start of pppd.
  unfoldable pub pump_data : World G → Host → Call X G → List ℕ × Call X G
  unfolding hand_over echo read_pppd
  pump_data w h c =
      let (bytes, d) = deframer_take c.deframer 256 in
      let c' = record c { deframer = d } in
      if not (is_data c.phase)
      then ([], read_pppd h c)
      else if ltb 0 (length bytes) && c.cfg.echo_data
      then ([], echo bytes c')
      else hand_over w h c.bbs bytes c'

  unfoldable pub pump_started : World G → Host → Bool × Call X G → List ℕ × Call X G
  unfolding pump_data
  pump_started w h (true, c) = pump_data w h c
  pump_started w h (false, c) = ([], record c { phase = Phase.hangup })

  -- There is nothing to move yet.
  abbrev pub resting : Call X G → Bool
  resting c = not (is_data c.phase) && not (is_some c.ppp_fd) && not c.cfg.echo_data

  -- Straight to PPP: pppd starts the moment data mode is up.
  abbrev pub wants_pppd : Call X G → Bool
  wants_pppd c = is_data c.phase && not c.cfg.echo_data && c.cfg.enable_ppp && not c.ppp_started

  unfoldable pub launch : Host → Call X G → Bool × Call X G
  unfolding start_pppd
  launch h c = if wants_pppd c then start_pppd h.spawned c else (true, c)

  -- `pump_ppp`: what pppd is given.
  unfoldable pub pump_ppp : World G → Host → Call X G → List ℕ × Call X G
  unfolding pump_started launch
  pump_ppp w h c = if resting c then ([], c) else pump_started w h (launch h c)

  -- `start_bbs_selector`, which nothing calls: the session of `bbs_session_create`.
  unfoldable pub start_bbs_selector : World G → G → Call X G → Call X G
  unfolding bbs_session_create
  start_bbs_selector w games c =
      if is_some c.bbs || c.cfg.echo_data
      then c
      else record c { bbs = some (bbs_session_create w games) }
