-- ===== src/Bbs/Feed/Login.antt =====
-- The login and the stages behind it, in `bbs_session_feed`.
use v34_working.Base.{ℕ, inl, List, [], ◌∷◌, ◌&&◌, ◌||◌, ltb, leb, ◌==◌, length}
use v34_working.Bbs.Session.{Session, World}
use v34_working.Bbs.Session.Guarded.{Numbers, IsGuarded, if-IsGuarded, handle_line-IsGuarded}
use v34_working.Bbs.Feed.{
  selecting, querying, closed, end_line, feed_char, feed_chars, keep_early, ppp_prefix, detect,
  bbs_session_feed, feed_all, bbs_session_create,
}

module _ {G : Type 0} (w : World G) (numbers : Numbers w) where
  end_line-IsGuarded : (s : Session G) → IsGuarded s → IsGuarded (end_line w s)
  unfolding end_line
  end_line-IsGuarded s g =
      if-IsGuarded w numbers (length s.line == 0) s _ g (handle_line-IsGuarded w numbers s.line s g)

  feed_char-IsGuarded : (ch : ℕ) (s : Session G) → IsGuarded s → IsGuarded (feed_char w ch s)
  unfolding feed_char
  feed_char-IsGuarded ch s g = if-IsGuarded w numbers (querying w s.stage) _ _ g (
      if-IsGuarded w numbers ((ch == 13) || (ch == 10)) _ _ (end_line-IsGuarded s g) (
        if-IsGuarded w numbers (((ch == 8) || (ch == 127)) && ltb 0 (length s.line)) _ _ g
          (if-IsGuarded w numbers ((leb 32 ch && ltb ch 127) && ltb (length s.line) 159) _ s g g)))

  feed_chars-IsGuarded : (cs : List ℕ) (s : Session G) → IsGuarded s → IsGuarded (feed_chars w cs s)
  unfolding feed_chars
  feed_chars-IsGuarded [] s g = g
  feed_chars-IsGuarded (c ∷ cs) s g =
      feed_chars-IsGuarded cs (feed_char w c s) (feed_char-IsGuarded c s g)

  detect-IsGuarded : (d : List ℕ) (s : Session G) → IsGuarded s → IsGuarded (detect w d s)
  unfolding detect
  detect-IsGuarded d s g =
      if-IsGuarded w numbers (ppp_prefix w s.ppp_bytes) _ _ g (feed_chars-IsGuarded d s g)

  bbs_session_feed-IsGuarded :
      (d : List ℕ) (s : Session G) → IsGuarded s → IsGuarded (bbs_session_feed w d s)
  unfolding bbs_session_feed keep_early
  bbs_session_feed-IsGuarded d s g = if-IsGuarded w numbers (closed w s.route) s _ g (
      if-IsGuarded w numbers (selecting w s.stage && ltb 0 (length d)) _ _
        (detect-IsGuarded d (keep_early w d s) g) (feed_chars-IsGuarded d s g))

  feed_all-IsGuarded :
      (ds : List (List ℕ)) (s : Session G) → IsGuarded s → IsGuarded (feed_all w ds s)
  unfolding feed_all
  feed_all-IsGuarded [] s g = g
  feed_all-IsGuarded (d ∷ ds) s g =
      feed_all-IsGuarded ds (bbs_session_feed w d s) (bbs_session_feed-IsGuarded d s g)

  -- Whatever a caller sends, in whatever pieces, a new session is either at one of the stages before
  -- the login or belongs to a user of the data base: no line leads past the login without a
  -- successful one. The data base is taken to number its users from 1.
  pub feed_all-bbs_session_create :
      (ds : List (List ℕ)) (games : G) → IsGuarded (feed_all w ds (bbs_session_create w games))
  unfolding bbs_session_create
  feed_all-bbs_session_create ds games = feed_all-IsGuarded ds (bbs_session_create w games) (inl tt)
