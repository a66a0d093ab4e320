-- ===== src/Bbs/Feed.antt =====
-- The line editor of the session (`bbs_session_feed`), and the bytes that it keeps for PPP.
pub mod Editor
pub mod Login
use v34_working.Base.{
  ℕ, zero, suc, ◌+◌, ◌-◌, ◌*◌, List, [], ◌∷◌, ◌++◌, Bool, true, false, not, ◌&&◌, ◌||◌, Option,
  none, some, ltb, leb, ◌==◌, min, length, take, drop, if◌then◌else◌,
}
use v34_working.Bbs.Session.{
  Stage, select, password, new_password, term_query, Route, undecided, ppp, hangup, Session, World,
  handle_line,
}

module _ {G : Type 0} (w : World G) where
  -- A stage that does not echo.
  abbrev pub secret : Stage → Bool
  secret password = true
  secret new_password = true
  secret _ = false

  abbrev pub querying : Stage → Bool
  querying term_query = true
  querying _ = false

  abbrev pub selecting : Stage → Bool
  selecting select = true
  selecting _ = false

  -- The end of a line.
  unfoldable pub end_line : Session G → Session G
  unfolding handle_line
  end_line s = if length s.line == 0 then s else record (handle_line w s.line s) { line = [] }

  -- One character of the loop of `bbs_session_feed`.
  unfoldable pub feed_char : ℕ → Session G → Session G
  unfolding end_line
  feed_char ch s =
      if querying s.stage
      then record s { query = if ltb (length s.query) 95 then s.query ++ ch ∷ [] else s.query }
      else if (ch == 13) || (ch == 10)
      then end_line s
      else if ((ch == 8) || (ch == 127)) && ltb 0 (length s.line)
      then record s { line = take (length s.line - 1) s.line; echo = s.echo ++ 8 ∷ 32 ∷ 8 ∷ [] }
      else if (leb 32 ch && ltb ch 127) && ltb (length s.line) 159
      then record s {
        line = s.line ++ ch ∷ [];
        echo = if secret s.stage then s.echo else s.echo ++ ch ∷ [];
      }
      else s

  unfoldable pub feed_chars : List ℕ → Session G → Session G
  unfolding feed_char
  feed_chars [] s = s
  feed_chars (c ∷ cs) s = feed_chars cs (feed_char c s)

  -- The bytes `prefix` begins with are those.
  abbrev starts : List ℕ → List ℕ → Bool
  starts [] bytes = true
  starts (p ∷ ps) [] = false
  starts (p ∷ ps) (b ∷ bs) = (p == b) && starts ps bs

  -- `ppp_prefix`
  unfoldable pub ppp_prefix : List ℕ → Bool
  ppp_prefix bytes =
      starts (0x7e ∷ 0xff ∷ 0x03 ∷ 0xc0 ∷ 0x21 ∷ []) bytes
      || starts (0x7e ∷ 0xff ∷ 0x7d ∷ 0x23 ∷ 0xc0 ∷ 0x21 ∷ []) bytes

  -- What is kept of the first bytes, in case they are PPP.
  unfoldable pub keep_early : List ℕ → Session G → Session G
  keep_early d s = record s {
    ppp_bytes = s.ppp_bytes ++ take (min (length d) (1024 - length s.ppp_bytes)) d;
  }

  abbrev pub closed : Route → Bool
  closed ppp = true
  closed hangup = true
  closed _ = false

  -- PPP from the start, or characters.
  unfoldable pub detect : List ℕ → Session G → Session G
  unfolding ppp_prefix feed_chars
  detect d s = if ppp_prefix s.ppp_bytes then record s { route = ppp } else feed_chars d s

  -- `bbs_session_feed`
  unfoldable pub bbs_session_feed : List ℕ → Session G → Session G
  unfolding feed_chars keep_early detect
  bbs_session_feed d s =
      if closed s.route
      then s
      else if selecting s.stage && ltb 0 (length d)
      then detect d (keep_early d s)
      else feed_chars d s

  -- Whole calls, in order.
  unfoldable pub feed_all : List (List ℕ) → Session G → Session G
  unfolding bbs_session_feed
  feed_all [] s = s
  feed_all (d ∷ ds) s = feed_all ds (bbs_session_feed d s)

  -- `bbs_session_take_ppp`
  unfoldable pub bbs_session_take_ppp : ℕ → Session G → List ℕ × Session G
  bbs_session_take_ppp cap s =
      let n = min (length s.ppp_bytes) cap in
      (take n s.ppp_bytes, record s { ppp_bytes = drop n s.ppp_bytes })

  -- `bbs_session_create`
  unfoldable pub bbs_session_create : G → Session G
  bbs_session_create games = record {
    route = undecided;
    stage = select;
    line = [];
    query = [];
    query_ms = 0;
    ppp_bytes = [];
    user_id = 0;
    security = 0;
    handle = [];
    pending_name = [];
    ansi = false;
    color = false;
    columns = 0;
    rows = 0;
    cp437 = false;
    playing = none;
    games = games;
    echo = [];
  }
