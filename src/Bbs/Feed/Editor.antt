-- ===== src/Bbs/Feed/Editor.antt =====
-- What the line editor makes of the characters that come in.
use v34_working.Base.{
  ℕ, ◌+◌, ◌-◌, ◌≤◌, ◌<◌, ◌≡◌, refl, sym, ap, ◌∙◌, subst, List, [], ◌∷◌, ◌++◌, append_assoc,
  append-nil, Bool, true, false, ◌&&◌, ◌||◌, All, ltb, leb, ◌==◌, ==_iff, lt→ltb, length,
  length-append, take, min, take-all, arith, if◌then◌else◌, if_true, if_false,
}
use v34_working.Bbs.Session.{Session, World, ppp, handle_line}
use v34_working.Bbs.Feed.{
  secret, querying, end_line, feed_char, feed_chars, keep_early, ppp_prefix, detect,
  bbs_session_feed, bbs_session_take_ppp, bbs_session_create,
}

-- The end of a line, in either form.
abbrev pub IsEnd : ℕ → Type 0
IsEnd c = ((c == 13) || (c == 10)) ≡ true

abbrev pub IsPrintable : ℕ → Type 0
IsPrintable c = (32 ≤ c) × (c < 127)

-- The echo of one character and then of more.
echo_more :
    (hidden : Bool) (e : List ℕ) (c : ℕ) (cs : List ℕ)
    → (if hidden
        then (if hidden then e else e ++ c ∷ [])
        else (if hidden then e else e ++ c ∷ []) ++ cs)
      ≡ (if hidden then e else e ++ c ∷ cs)
echo_more true e c cs = refl
echo_more false e c cs = append_assoc e (c ∷ []) cs

echo_none : (hidden : Bool) (e : List ℕ) → (if hidden then e else e ++ []) ≡ e
echo_none true e = refl
echo_none false e = append-nil e

module _ {G : Type 0} (w : World G) where
  feed_char-end :
      (c : ℕ) (s : Session G)
      → IsEnd c
      → querying w s.stage ≡ false
      → feed_char w c s ≡ end_line w s
  unfolding feed_char
  feed_char-end c s e q =
      if_false (querying w s.stage) _ _ q ∙ if_true ((c == 13) || (c == 10)) _ _ e

  -- An empty line changes nothing: ENTER alone reaches no menu and no game.
  pub feed_chars-ends :
      (ends : List ℕ) (s : Session G)
      → All IsEnd ends
      → s.line ≡ []
      → querying w s.stage ≡ false
      → feed_chars w ends s ≡ s
  unfolding feed_chars end_line
  feed_chars-ends [] s h empty q = refl
  feed_chars-ends (c ∷ cs) s h empty q =
      let none_there : (length s.line == 0) ≡ true =
        (==_iff (length s.line) 0).1 (ap length empty) in
      let same : feed_char w c s ≡ s =
        feed_char-end c s h.0 q ∙ if_true (length s.line == 0) s _ none_there in
      ap (feed_chars w cs) same ∙ feed_chars-ends cs s h.1 empty q

  -- The session after a character that is taken into the line.
  abbrev typed : ℕ → Session G → Session G
  typed c s = record s {
    line = s.line ++ c ∷ [];
    echo = if secret w s.stage then s.echo else s.echo ++ c ∷ [];
  }

  feed_char-printable :
      (c : ℕ) (s : Session G)
      → IsPrintable c
      → length s.line < 159
      → querying w s.stage ≡ false
      → feed_char w c s ≡ typed c s
  unfolding feed_char
  feed_char-printable c s h room q =
      let not_end : ((c == 13) || (c == 10)) ≡ false = ground (arith, h) in
      let not_rub : (((c == 8) || (c == 127)) && ltb 0 (length s.line)) ≡ false =
        ground (arith, h) in
      let taken : ((leb 32 c && ltb c 127) && ltb (length s.line) 159) ≡ true = ground (arith, h) in
      if_false (querying w s.stage) _ _ q
      ∙ if_false ((c == 13) || (c == 10)) _ _ not_end
      ∙ if_false (((c == 8) || (c == 127)) && ltb 0 (length s.line)) _ _ not_rub
      ∙ if_true ((leb 32 c && ltb c 127) && ltb (length s.line) 159) _ s taken

  -- The session after a text that is taken into the line.
  abbrev pub with_text : List ℕ → Session G → Session G
  with_text cs s = record s {
    line = s.line ++ cs;
    echo = if secret w s.stage then s.echo else s.echo ++ cs;
  }

  feed_chars-printable :
      (cs : List ℕ) (s : Session G)
      → All IsPrintable cs
      → length s.line + length cs ≤ 159
      → querying w s.stage ≡ false
      → feed_chars w cs s ≡ with_text cs s
  unfolding feed_chars
  feed_chars-printable [] s h room q = λ i. record s {
    line = sym (append-nil s.line) i;
    echo = sym (echo_none (secret w s.stage) s.echo) i;
  }
  feed_chars-printable (c ∷ cs) s h room q =
      let now = feed_char-printable c s h.0 (omega (arith, room)) q in
      let longer = length-append s.line (c ∷ []) in
      let later = feed_chars-printable cs (typed c s) h.1 (omega (arith, room, longer)) q in
      let joined : with_text cs (typed c s) ≡ with_text (c ∷ cs) s = λ i. record s {
        line = append_assoc s.line (c ∷ []) cs i;
        echo = echo_more (secret w s.stage) s.echo c cs i;
      } in
      ap (feed_chars w cs) now ∙ later ∙ joined

  feed_chars-append :
      (cs ds : List ℕ) (s : Session G)
      → feed_chars w (cs ++ ds) s ≡ feed_chars w ds (feed_chars w cs s)
  unfolding feed_chars
  feed_chars-append [] ds s = refl
  feed_chars-append (c ∷ cs) ds s = feed_chars-append cs ds (feed_char w c s)

  -- A line of 1 to 159 printable characters and its end, typed into an empty line outside the
  -- terminal query, is handled whole and once, leaves the line empty, and is echoed unless the stage
  -- asks for a password.
  pub feed_chars-line :
      (cs : List ℕ) (end : ℕ) (s : Session G)
      → All IsPrintable cs
      → IsEnd end
      → 0 < length cs
      → length cs ≤ 159
      → s.line ≡ []
      → querying w s.stage ≡ false
      → feed_chars w (cs ++ end ∷ []) s
        ≡ record (handle_line w cs (with_text cs (record s { line = [] }))) { line = [] }
  unfolding feed_chars end_line
  feed_chars-line cs end s h e pos room empty q =
      let s' : Session G = record s { line = [] } in
      let start : s ≡ s' = λ i. record s { line = empty i } in
      let t = with_text cs s' in
      let some_there : (length cs == 0) ≡ false = ground arith in
      ap (feed_chars w (cs ++ end ∷ [])) start
      ∙ feed_chars-append cs (end ∷ []) s'
      ∙ ap (λ x. feed_char w end x) (feed_chars-printable cs s' h (omega arith) q)
      ∙ feed_char-end end t e q
      ∙ if_false (length cs == 0) t _ some_there

  -- A first chunk of at most 1024 bytes that begins as a PPP frame does routes the call to PPP, and
  -- the bytes kept for PPP are all those of the chunk.
  pub bbs_session_feed-ppp_prefix :
      (d : List ℕ) (games : G)
      → ppp_prefix w d ≡ true
      → 0 < length d
      → length d ≤ 1024
      → let s = bbs_session_feed w d (bbs_session_create w games) in
        (s.route ≡ ppp) × ((bbs_session_take_ppp w 1024 s).0 ≡ d)
  unfolding bbs_session_feed bbs_session_create keep_early detect bbs_session_take_ppp
  bbs_session_feed-ppp_prefix d games pre pos fits =
      let fresh = bbs_session_create w games in
      let held = take (min (length d) (1024 - 0)) d in
      let all : held ≡ d = take-all (min (length d) (1024 - 0)) d (omega arith) in
      let seen : ppp_prefix w held ≡ true = ap (ppp_prefix w) all ∙ pre in
      let routed : Session G = record fresh { ppp_bytes = held; route = ppp } in
      let fed : bbs_session_feed w d fresh ≡ routed =
        if_true (ltb 0 (length d)) _ (feed_chars w d fresh) (lt→ltb 0 (length d) pos)
        ∙ if_true (ppp_prefix w held) _ _ seen in
      let given : take (min (length held) 1024) held ≡ d =
        take-all (min (length held) 1024) held (omega (arith, ap length all)) ∙ all in
      subst (λ (s : Session G). (s.route ≡ ppp) × ((bbs_session_take_ppp w 1024 s).0 ≡ d)) (sym fed)
        (refl, given)
