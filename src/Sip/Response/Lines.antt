-- ===== src/Sip/Response/Lines.antt =====
-- Text in lines, as `parse_sip` goes through it.
use v34_working.Base.{
  ℕ, ◌≡◌, ◌≢◌, refl, sym, ap, ◌∙◌, List, [], ◌∷◌, ◌++◌, append_assoc, true, false, none, ◌==◌,
  if_false, arith, strip,
}
use v34_working.Sip.Text.{Message, until, line_of, split_body, try_headers, all_headers}
use v34_working.Sip.Call.{same_id}
use v34_working.Sip.Parse.{header_line, header_scan, after_line}

-- The text has no line feed.
abbrev pub IsPlain : List ℕ → Type 0
IsPlain [] = Unit {0}
IsPlain (c ∷ cs) = (c ≢ 10) × IsPlain cs

-- The first character is not the end of a line.
abbrev pub Begins : List ℕ → Type 0
Begins [] = ⊥
Begins (c ∷ cs) = (c ≢ 10) × (c ≢ 13)

abbrev pub crlf : List ℕ → List ℕ
crlf rest = 13 ∷ 10 ∷ rest

ne→==_false : (a b : ℕ) → a ≢ b → (a == b) ≡ false
ne→==_false a b h = ground arith

-- A line ends at the first line feed.
pub line_of-plain : (line rest : List ℕ) → IsPlain line → line_of (line ++ 10 ∷ rest) ≡ line
unfolding until
line_of-plain [] rest p = refl
line_of-plain (c ∷ cs) rest (h, p) =
    if_false (c == 10) _ _ (ne→==_false c 10 h) ∙ ap (λ l. c ∷ l) (line_of-plain cs rest p)

pub after_line-plain : (line rest : List ℕ) → IsPlain line → after_line (line ++ 10 ∷ rest) ≡ rest
unfolding after_line
after_line-plain [] rest p = refl
after_line-plain (c ∷ cs) rest (h, p) =
    if_false (c == 10) _ _ (ne→==_false c 10 h) ∙ after_line-plain cs rest p

pub IsPlain-append : (xs ys : List ℕ) → IsPlain xs → IsPlain ys → IsPlain (xs ++ ys)
IsPlain-append [] ys p q = q
IsPlain-append (x ∷ xs) ys (h, p) q = (h, IsPlain-append xs ys p q)

-- Inside a line the scan goes on.
scan-inside :
    (line rest body : List ℕ) (m : Message)
    → IsPlain line
    → header_scan false (line ++ 10 ∷ rest) body m ≡ header_scan true rest body m
unfolding header_scan
scan-inside [] rest body m p = refl
scan-inside (c ∷ cs) rest body m (h, p) =
    ap (λ b. header_scan b (cs ++ 10 ∷ rest) body m) (ne→==_false c 10 h)
    ∙ scan-inside cs rest body m p

-- A line is stored at its start.
pub scan-line :
    (c : ℕ) (line rest body : List ℕ) (m : Message)
    → IsPlain (c ∷ line)
    → header_scan true ((c ∷ line) ++ 10 ∷ rest) body m
      ≡ header_scan true rest body (header_line ((c ∷ line) ++ 10 ∷ rest) body m)
unfolding header_scan
scan-line c line rest body m (h, p) =
    ap (λ b. header_scan b (line ++ 10 ∷ rest) body (header_line (c ∷ line ++ 10 ∷ rest) body m))
      (ne→==_false c 10 h)
    ∙ scan-inside line rest body _ p

-- Where no blank line begins, the header goes on.
split-cons :
    (c : ℕ) (cs : List ℕ)
    → strip (13 ∷ 10 ∷ 13 ∷ 10 ∷ []) (c ∷ cs) ≡ none
    → strip (10 ∷ 10 ∷ []) (c ∷ cs) ≡ none
    → split_body (c ∷ cs) ≡ (c ∷ (split_body cs).0, (split_body cs).1)
unfolding split_body
split-cons c cs p q = ground (arith, p, q)

-- The two ends of a header.
abbrev blank_crlf : List ℕ
blank_crlf = 13 ∷ 10 ∷ 13 ∷ 10 ∷ []

abbrev blank_lf : List ℕ
blank_lf = 10 ∷ 10 ∷ []

no_crlf : (x y : ℕ) (rest : List ℕ) → y ≢ 10 → strip blank_crlf (x ∷ y ∷ rest) ≡ none
unfolding strip
no_crlf x y rest h = ground arith

no_lf : (x : ℕ) (rest : List ℕ) → x ≢ 10 → strip blank_lf (x ∷ rest) ≡ none
unfolding strip
no_lf x rest h = ground arith

no_second : (c : ℕ) (rest : List ℕ) → c ≢ 13 → strip blank_crlf (13 ∷ 10 ∷ c ∷ rest) ≡ none
unfolding strip
no_second c rest h = ground arith

no_lf_second : (c : ℕ) (rest : List ℕ) → c ≢ 10 → strip blank_lf (10 ∷ c ∷ rest) ≡ none
unfolding strip
no_lf_second c rest h = ground arith

-- The text is header as far as this line.
abbrev Passes : List ℕ → List ℕ → Type 0
Passes line rest = split_body (line ++ rest) ≡ (line ++ (split_body rest).0, (split_body rest).1)

Passes-cons :
    (c : ℕ) (line rest : List ℕ)
    → strip blank_crlf (c ∷ line ++ rest) ≡ none
    → strip blank_lf (c ∷ line ++ rest) ≡ none
    → Passes line rest
    → Passes (c ∷ line) rest
Passes-cons c line rest p q h = split-cons c (line ++ rest) p q ∙ ap (λ s. (c ∷ s.0, s.1)) h

eol-Passes : (c : ℕ) (rest : List ℕ) → c ≢ 10 → c ≢ 13 → Passes (13 ∷ 10 ∷ []) (c ∷ rest)
eol-Passes c rest h k =
    Passes-cons 13 (10 ∷ []) (c ∷ rest) (no_second c rest k) (no_lf 13 _ (omega arith))
      (Passes-cons 10 [] (c ∷ rest) (no_crlf 10 c rest h) (no_lf_second c rest h) refl)

-- A line before something that a line feed does not begin.
line-Passes :
    (line : List ℕ) (y : ℕ) (rest : List ℕ) → IsPlain line → y ≢ 10 → Passes line (y ∷ rest)
line-Passes [] y rest p h = refl
line-Passes (x ∷ []) y rest (k, p) h =
    Passes-cons x [] (y ∷ rest) (no_crlf x y rest h) (no_lf x (y ∷ rest) k) refl
line-Passes (x ∷ z ∷ line) y rest (k, (j, p)) h =
    Passes-cons x (z ∷ line) (y ∷ rest) (no_crlf x z (line ++ y ∷ rest) j) (no_lf x _ k)
      (line-Passes (z ∷ line) y rest (j, p) h)

-- A line with its end, before another line.
pub split-line :
    (line : List ℕ) (c : ℕ) (rest : List ℕ)
    → IsPlain line
    → c ≢ 10
    → c ≢ 13
    → split_body (line ++ crlf (c ∷ rest))
      ≡ (line ++ crlf (split_body (c ∷ rest)).0, (split_body (c ∷ rest)).1)
split-line line c rest p h k =
    line-Passes line 13 (10 ∷ c ∷ rest) p (omega arith)
    ∙ ap (λ s. (line ++ s.0, s.1)) (eol-Passes c rest h k)

-- The last line, before the blank one and the body.
pub split-last :
    (line body : List ℕ)
    → IsPlain line
    → split_body (line ++ crlf (crlf body)) ≡ (line ++ crlf (crlf []), body)
unfolding split_body strip
split-last line body p = line-Passes line 13 (10 ∷ crlf body) p (omega arith)

-- A header line, and what `parse_sip` makes of it.
pub record IsRead (line : List ℕ) (effect : Message → Message) : Type 0 where
  pub plain : IsPlain line
  pub begins : Begins line
  pub stores :
      (rest body : List ℕ) (m : Message) → header_line (line ++ crlf rest) body m ≡ effect m

-- Lines, each with what is made of it.
abbrev pub Effects : Type 0
Effects = List (List ℕ × (Message → Message))

abbrev pub AreRead : Effects → Type 0
AreRead [] = Unit {0}
AreRead ((l, f) ∷ ls) = IsRead l f × AreRead ls

abbrev pub unlines : Effects → List ℕ → List ℕ
unlines [] rest = rest
unlines ((l, f) ∷ ls) rest = l ++ crlf (unlines ls rest)

abbrev pub run : Effects → Message → Message
run [] m = m
run ((l, f) ∷ ls) m = run ls (f m)

-- A header is split off from what follows its blank line.
pub split-unlines :
    (line : List ℕ) (ls : Effects) (body : List ℕ)
    → IsPlain line
    → AreRead ls
    → split_body (line ++ crlf (unlines ls (crlf body)))
      ≡ (line ++ crlf (unlines ls (crlf [])), body)
split-unlines line [] body p r = split-last line body p
split-unlines line (([], f) ∷ ls) body p (r, rs) = absurd r.begins
split-unlines line ((c ∷ cs, f) ∷ ls) body p (r, rs) =
    split-line line c (cs ++ crlf (unlines ls (crlf body))) p r.begins.0 r.begins.1
    ∙ ap (λ s. (line ++ crlf s.0, s.1)) (split-unlines (c ∷ cs) ls body r.plain rs)

scan-crlf :
    (c : ℕ) (cs rest body : List ℕ) (m : Message)
    → IsPlain (c ∷ cs)
    → header_scan true ((c ∷ cs) ++ crlf rest) body m
      ≡ header_scan true rest body (header_line ((c ∷ cs) ++ crlf rest) body m)
scan-crlf c cs rest body m p =
    let e : (c ∷ cs ++ 13 ∷ []) ++ 10 ∷ rest ≡ (c ∷ cs) ++ crlf rest =
      append_assoc (c ∷ cs) (13 ∷ []) (10 ∷ rest) in
    ap (λ t. header_scan true t body m) (sym e)
    ∙ scan-line c (cs ++ 13 ∷ []) rest body m
        (IsPlain-append (c ∷ cs) (13 ∷ []) p ((λ k. absurd (omega (arith, k))), tt))
    ∙ ap (λ t. header_scan true rest body (header_line t body m)) e

-- The scan of a header stores its lines in order.
pub scan-unlines :
    (ls : Effects) (body : List ℕ) (m : Message)
    → AreRead ls
    → header_scan true (unlines ls (crlf [])) body m ≡ run ls m
unfolding header_scan header_line until same_id
scan-unlines [] body m r = refl
scan-unlines (([], f) ∷ ls) body m (r, rs) = absurd r.begins
scan-unlines ((c ∷ cs, f) ∷ ls) body m (r, rs) =
    scan-crlf c cs (unlines ls (crlf [])) body m r.plain
    ∙ ap (header_scan true (unlines ls (crlf [])) body) (r.stores (unlines ls (crlf [])) body m)
    ∙ scan-unlines ls body (f m) rs

-- A line that is not empty is looked up among the headers.
pub header_line-begins :
    (c : ℕ) (cs body : List ℕ) (m : Message)
    → c ≢ 10
    → c ≢ 13
    → header_line (c ∷ cs) body m ≡ try_headers all_headers (c ∷ cs ++ body) m
unfolding header_line until same_id
header_line-begins c cs body m h k = ground arith
