-- ===== src/Sip/Text/Names.antt =====
-- The names of the headers that `parse_sip` reads.
use v34_working.Base.{
  ℕ, ◌≡◌, refl, ap, ap₂, ◌∙◌, List, [], ◌∷◌, ◌++◌, map, Bool, true, false, Option, none, some, ◌==◌,
  if◌then◌else◌, ◌&&◌, lower, strip, or_else, ◌⊎◌, inl, inr, arith, if_true, ==_iff,
}
use v34_working.Sip.Text.{
  Message, Header, via, from, to, call_id, cseq, contact, content_type, user_agent, content_length,
  strip_name, name_of, short_of, named, store_header, take_header, try_headers, all_headers,
}

-- Both find the name, or neither.
abbrev Agrees : Option (List ℕ) → Option (List ℕ) → Type 0
Agrees none none = Unit
Agrees (some a) (some b) = map lower a ≡ b
Agrees _ _ = ⊥

if-Agrees :
    (b : Bool) (x y : Option (List ℕ))
    → Agrees x y
    → Agrees (if b then x else none) (if b then y else none)
if-Agrees true x y a = a
if-Agrees false x y a = tt

-- A name is found in a text just when it stands in the text in lower case.
strip_name-Agrees : (p cs : List ℕ) → Agrees (strip_name p cs) (strip p (map lower cs))
unfolding strip_name strip
strip_name-Agrees [] cs = refl
strip_name-Agrees (p ∷ ps) [] = tt
strip_name-Agrees (p ∷ ps) (c ∷ cs) =
    if-Agrees (p == lower c) (strip_name ps cs) (strip ps (map lower cs)) (strip_name-Agrees ps cs)

-- A name that is found leaves what stands behind it.
strip_name-append : (p raw cs : List ℕ) → map lower raw ≡ p → strip_name p (raw ++ cs) ≡ some cs
unfolding strip_name
strip_name-append [] [] cs e = refl
strip_name-append [] (c ∷ raw) cs e = absurd (ground arith)
strip_name-append (p ∷ ps) [] cs e = absurd (ground arith)
strip_name-append (p ∷ ps) (c ∷ raw) cs e =
    let head : p ≡ lower c = cc in
    let tail : map lower raw ≡ ps = cc in
    if_true (p == lower c) _ _ ((==_iff p (lower c)).1 head) ∙ strip_name-append ps raw cs tail

Agrees-none : (x y : Option (List ℕ)) → Agrees x y → y ≡ none → x ≡ none
Agrees-none none y a e = refl
Agrees-none (some x) none a e = absurd a
Agrees-none (some x) (some y) a e = absurd (ground arith)

-- A name that does not stand in the text in lower case is not found.
missing :
    (p text low : List ℕ) → map lower text ≡ low → strip p low ≡ none → strip_name p text ≡ none
missing p text low e none_there =
    Agrees-none (strip_name p text) (strip p (map lower text)) (strip_name-Agrees p text)
      (ap (strip p) e ∙ none_there)

abbrev is_none : Option (List ℕ) → Bool
is_none none = true
is_none (some cs) = false

is_none-none : (o : Option (List ℕ)) → is_none o ≡ true → o ≡ none
is_none-none none e = refl
is_none-none (some cs) e = absurd (ground arith)

all_three : (a b c : Bool) → a && b && c ≡ true → (a ≡ true) × (b ≡ true) × (c ≡ true)
all_three a b c e = ground arith

-- No header of the list has its name in the text, which is `low` in lower case.
abbrev misses : List Header → List ℕ → Bool
misses [] low = true
misses (h ∷ hs) low =
    is_none (strip (name_of h) low) && is_none (strip (short_of h) low) && misses hs low

abbrev Missed : List Header → List ℕ → Type 0
Missed hs low = misses hs low ≡ true

named-none :
    (h : Header) (text low : List ℕ)
    → map lower text ≡ low
    → strip (name_of h) low ≡ none
    → strip (short_of h) low ≡ none
    → named (name_of h) (short_of h) text ≡ none
named-none h text low e full short =
    ap₂ or_else (missing (name_of h) text low e full) (missing (short_of h) text low e short)

try_headers-Missed :
    (hs later : List Header) (text low : List ℕ) (m : Message)
    → map lower text ≡ low
    → Missed hs low
    → try_headers (hs ++ later) text m ≡ try_headers later text m
unfolding try_headers take_header
try_headers-Missed [] later text low m e missed = refl
try_headers-Missed (h ∷ hs) later text low m e missed =
    let (a, b, c) = all_three _ _ _ missed in
    let full = is_none-none (strip (name_of h) low) a in
    let short = is_none-none (strip (short_of h) low) b in
    ap (λ o. take_header o h m (try_headers (hs ++ later) text m))
      (named-none h text low e full short)
    ∙ try_headers-Missed hs later text low m e c

try_headers-found :
    (h : Header) (later : List Header) (text rest : List ℕ) (m : Message)
    → named (name_of h) (short_of h) text ≡ some rest
    → try_headers (h ∷ later) text m ≡ store_header h rest m
unfolding try_headers take_header
try_headers-found h later text rest m e = ap (λ o. take_header o h m (try_headers later text m)) e

map-lower-append :
    (raw cs n : List ℕ) → map lower raw ≡ n → map lower (raw ++ cs) ≡ n ++ map lower cs
map-lower-append [] cs n e = ap (λ l. l ++ map lower cs) e
map-lower-append (c ∷ raw) cs [] e = absurd (ground arith)
map-lower-append (c ∷ raw) cs (x ∷ n) e =
    let head : lower c ≡ x = cc in
    let tail : map lower raw ≡ n = cc in ap₂ (λ y l. y ∷ l) head (map-lower-append raw cs n tail)

-- The full name, after others that are not there.
by_name :
    (before later : List Header) (h : Header) (raw cs : List ℕ) (m : Message)
    → map lower raw ≡ name_of h
    → Missed before (name_of h ++ map lower cs)
    → try_headers (before ++ h ∷ later) (raw ++ cs) m ≡ store_header h cs m
by_name before later h raw cs m e missed =
    try_headers-Missed before (h ∷ later) (raw ++ cs) _ m (map-lower-append raw cs _ e) missed
    ∙ try_headers-found h later (raw ++ cs) cs m (
        ap (λ o. or_else o (strip_name (short_of h) (raw ++ cs)))
          (strip_name-append (name_of h) raw cs e))

-- The short name, after others that are not there.
by_short :
    (before later : List Header) (h : Header) (raw cs : List ℕ) (m : Message)
    → map lower raw ≡ short_of h
    → Missed before (short_of h ++ map lower cs)
    → strip (name_of h) (short_of h ++ map lower cs) ≡ none
    → try_headers (before ++ h ∷ later) (raw ++ cs) m ≡ store_header h cs m
by_short before later h raw cs m e missed full =
    let low = map-lower-append raw cs _ e in
    try_headers-Missed before (h ∷ later) (raw ++ cs) _ m low missed
    ∙ try_headers-found h later (raw ++ cs) cs m (
        ap₂ or_else (missing (name_of h) (raw ++ cs) _ low full)
          (strip_name-append (short_of h) raw cs e))

full_name :
    (h : Header) (raw cs : List ℕ) (m : Message)
    → map lower raw ≡ name_of h
    → try_headers all_headers (raw ++ cs) m ≡ store_header h cs m
unfolding strip
full_name via raw cs m e = by_name [] _ via raw cs m e refl
full_name from raw cs m e = by_name (via ∷ []) _ from raw cs m e refl
full_name to raw cs m e = by_name (via ∷ from ∷ []) _ to raw cs m e refl
full_name call_id raw cs m e = by_name (via ∷ from ∷ to ∷ []) _ call_id raw cs m e refl
full_name cseq raw cs m e = by_name (via ∷ from ∷ to ∷ call_id ∷ []) _ cseq raw cs m e refl
full_name contact raw cs m e =
    by_name (via ∷ from ∷ to ∷ call_id ∷ cseq ∷ []) _ contact raw cs m e refl
full_name content_type raw cs m e =
    by_name (via ∷ from ∷ to ∷ call_id ∷ cseq ∷ contact ∷ []) _ content_type raw cs m e refl
full_name user_agent raw cs m e =
    by_name (via ∷ from ∷ to ∷ call_id ∷ cseq ∷ contact ∷ content_type ∷ []) _ user_agent raw cs m e
      refl
full_name content_length raw cs m e =
    by_name (via ∷ from ∷ to ∷ call_id ∷ cseq ∷ contact ∷ content_type ∷ user_agent ∷ []) _
      content_length raw cs m e refl

short_name :
    (h : Header) (raw cs : List ℕ) (m : Message)
    → map lower raw ≡ short_of h
    → try_headers all_headers (raw ++ cs) m ≡ store_header h cs m
unfolding strip
short_name via raw cs m e = by_short [] _ via raw cs m e refl refl
short_name from raw cs m e = by_short (via ∷ []) _ from raw cs m e refl refl
short_name to raw cs m e = by_short (via ∷ from ∷ []) _ to raw cs m e refl refl
short_name call_id raw cs m e = by_short (via ∷ from ∷ to ∷ []) _ call_id raw cs m e refl refl
short_name cseq raw cs m e = full_name cseq raw cs m e
short_name contact raw cs m e =
    by_short (via ∷ from ∷ to ∷ call_id ∷ cseq ∷ []) _ contact raw cs m e refl refl
short_name content_type raw cs m e = full_name content_type raw cs m e
short_name user_agent raw cs m e = full_name user_agent raw cs m e
short_name content_length raw cs m e = full_name content_length raw cs m e

-- A header line that begins with the full or the short name of a header, in capital or small
-- letters, is stored as that header, whatever follows the colon: none of the names that are tried
-- before it takes it.
pub try_headers_lem :
    (h : Header) (raw cs : List ℕ) (m : Message)
    → (map lower raw ≡ name_of h) ⊎ (map lower raw ≡ short_of h)
    → try_headers all_headers (raw ++ cs) m ≡ store_header h cs m
try_headers_lem h raw cs m (inl e) = full_name h raw cs m e
try_headers_lem h raw cs m (inr e) = short_name h raw cs m e
