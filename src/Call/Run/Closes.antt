-- ===== src/Call/Run/Closes.antt =====
-- What a call leaves behind (`sm_call_run` of `src/call/sm_call.c`).
use v34_working.Base.{ℕ, ◌≤◌, ◌≡◌, ◌≢◌, Bool, true, false, List, [], Option, none, some, length}
use v34_working.Bbs.Session.{World}
use v34_working.Call.{Call}
use v34_working.Call.Engines.{Engines}
use v34_working.Call.Run.{End, waiting, Outcome, ended, release}

-- The ptys that a call leaves open, by its descriptor at the end of the loop and by whether pppd was
-- started: none, unless the descriptor was given up before.
abbrev pub Leaks : Option ℕ → Bool → List ℕ → Type 0
Leaks (some fd) begun fds = fds ≡ []
Leaks none false fds = fds ≡ []
Leaks none true fds = length fds ≤ 1

-- No engine, no session, no file and no process is left, and no pty but one that was given up.
pub record IsClosed {X G : Type 0} (before c : Call X G) : Type 0 where
  pub ptys : Leaks before.ppp_fd before.ppp_started c.open_ptys
  pub no_v34 : c.v34 ≡ none
  pub no_bm : c.bm ≡ none
  pub no_v8 : c.v8 ≡ none
  pub no_session : c.bbs ≡ none
  pub no_pty : c.ppp_fd ≡ none
  pub no_pppd : c.pppd_pid ≡ none
  pub no_capture : (c.cap_in ≡ none) × (c.cap_out ≡ none)

module _ {X G : Type 0} (e : Engines X) (w : World G) where
  -- The run has come to its end, behind a loop that ended with this call.
  abbrev pub Finishes : Outcome X G → Type 0
  Finishes r =
      (end : End) × (given : List ℕ) × (c : Call X G) × (r ≡ ended end given (release c))
      × (end ≢ waiting)
      × IsClosed c (release c)
