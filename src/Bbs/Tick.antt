-- ===== src/Bbs/Tick.antt =====
-- The wait for the terminal's answers (`bbs_session_tick`). What `terminal_save` and
-- `record_connection` write to the data base is left out.
use v34_working.Base.{
  strip, find, ℕ, ◌+◌, List, [], ◌∷◌, Bool, true, false, ◌&&◌, Option, none, some, ltb, leb, ◌==◌,
  if◌then◌else◌,
}
use v34_working.Bbs.Session.{Stage, term_query, term_ask, main, Session, scan}

infixl 5 ◌>>=◌
abbrev ◌>>=◌ {ℓ κ} : {A : Type ℓ} {B : Type κ} → Option A → (A → Option B) → Option B
none >>= f = none
some a >>= f = f a

abbrev semicolon : List ℕ → Option (List ℕ)
semicolon cs = strip (59 ∷ []) cs

-- `%d;%d`
unfoldable pub scan_pair : List ℕ → Option (ℕ × ℕ)
unfolding scan strip
scan_pair cs = do a ← scan cs; rest ← semicolon a.1; b ← scan rest; some (a.0, b.0)

-- A report of the cursor.
unfoldable pub cursor_report : List ℕ → Option (ℕ × ℕ)
unfolding find scan_pair
cursor_report query = do rest ← find (27 ∷ 91 ∷ []) query; scan_pair rest

-- A report of the size.
unfoldable pub size_report : List ℕ → Option (ℕ × ℕ)
unfolding find scan_pair
size_report query = do rest ← find (27 ∷ 91 ∷ 56 ∷ 59 ∷ []) query; scan_pair rest

abbrev or_default : ℕ → ℕ → ℕ
or_default d n = if n == 0 then d else n

abbrev is_query : Stage → Bool
is_query term_query = true
is_query _ = false

module _ {G : Type 0} where
  unfoldable pub see_cursor : Option (ℕ × ℕ) → Session G → Session G
  see_cursor none s = s
  see_cursor (some p) s =
      if ltb 0 p.0 && ltb 0 p.1 then record s { ansi = true; color = true } else s

  unfoldable pub see_size : Option (ℕ × ℕ) → Session G → Session G
  see_size none s = s
  see_size (some p) s = record s { rows = p.0; columns = p.1; ansi = true; color = true }

  -- After a second and a half, the answers that have come count.
  unfoldable pub decide : Session G → Session G
  decide s =
      if leb 1500 s.query_ms
      then record s {
        columns = or_default 80 s.columns;
        rows = or_default 24 s.rows;
        stage = if s.ansi then main else term_ask;
      }
      else s

  -- `bbs_session_tick`
  unfoldable pub bbs_session_tick : ℕ → Session G → Session G
  unfolding see_cursor see_size decide cursor_report size_report
  bbs_session_tick ms s =
      let s' = see_size (size_report s.query) (see_cursor (cursor_report s.query) s) in
      if is_query s.stage then decide (record s' { query_ms = s.query_ms + ms }) else s
