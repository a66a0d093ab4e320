-- ===== src/Sip/Text.antt =====
-- The text of a SIP message in `src/sip/sm_sip.c`: lines, their values, and `parse_sip`. A C string in
-- an array is the list of its characters without the 0. What stands behind the end of the datagram
-- in the buffer is not modelled: the text ends there.
pub mod Names
pub mod Fits
use v34_working.Base.{
  ℕ, zero, suc, ◌+◌, ◌-◌, List, [], ◌∷◌, ◌++◌, Bool, true, false, ◌&&◌, ◌||◌, Option, none, some,
  ltb, leb, ◌==◌, min, length, take, drop, if◌then◌else◌, lower, strip, find, or_else, atoi,
}

-- SM_SIP_MAX_VIAS and SM_SIP_MAX_MSG
abbrev pub max_vias : ℕ
max_vias = 4

abbrev pub max_body : ℕ
max_body = 4096

-- `sip_msg_t`. A status of `none` is read from characters that were never written.
pub record Message : Type 0 where
  pub is_response : Bool
  pub status : Option ℕ
  pub method : List ℕ
  pub uri : List ℕ
  pub via : List (List ℕ)
  pub from : List ℕ
  pub to : List ℕ
  pub call_id : List ℕ
  pub cseq : List ℕ
  pub cseq_num : ℕ
  pub cseq_method : List ℕ
  pub contact : List ℕ
  pub content_type : List ℕ
  pub user_agent : List ℕ
  pub content_length : ℕ
  pub body : List ℕ
  pub from_tag : List ℕ
  pub to_tag : List ℕ

-- The characters before the first one that ends the text.
unfoldable pub until : (ℕ → Bool) → List ℕ → List ℕ
until ends [] = []
until ends (c ∷ cs) = let rest = until ends cs in if ends c then [] else c ∷ rest

-- A line without the end that `find_eol` finds.
abbrev pub line_of : List ℕ → List ℕ
line_of = until (λ c. c == 10)

-- An array read as a C string.
abbrev pub c_string : List ℕ → List ℕ
c_string = until (λ c. c == 0)

abbrev pub is_blank : ℕ → Bool
is_blank c = (c == 32) || (c == 9)

-- The first loop of `copy_line_value`, from the end.
unfoldable pub trim_end : List ℕ → List ℕ
trim_end [] = []
trim_end (c ∷ cs) =
    let rest = trim_end cs in
    if (length rest == 0) && ((c == 13) || is_blank c) then [] else c ∷ rest

-- The second loop.
unfoldable pub trim_start : List ℕ → List ℕ
trim_start [] = []
trim_start (c ∷ cs) = let rest = trim_start cs in if is_blank c then rest else c ∷ cs

-- `copy_line_value`, of which the text is read as a C string.
unfoldable pub copy_line_value : List ℕ → ℕ → List ℕ
unfolding trim_end trim_start until
copy_line_value value outlen = c_string (take (outlen - 1) (trim_start (trim_end value)))

-- The end of a tag.
abbrev ends_tag : ℕ → Bool
ends_tag c = (c == 59) || (c == 32) || (c == 13) || (c == 10)

-- The tag that follows "tag=".
abbrev pub tag_of : ℕ → Option (List ℕ) → List ℕ
tag_of outlen none = []
tag_of outlen (some cs) = take (outlen - 1) (until ends_tag cs)

-- `extract_tag`
unfoldable pub extract_tag : List ℕ → ℕ → List ℕ
unfolding find until
extract_tag hdr outlen = tag_of outlen (find (116 ∷ 97 ∷ 103 ∷ 61 ∷ []) hdr)

-- The header, with the empty line that ends it, and the body. Without an empty line, all is header.
unfoldable pub split_body : List ℕ → List ℕ × List ℕ
unfolding strip
split_body [] = ([], [])
split_body (c ∷ cs) =
    let (h, b) = split_body cs in
    elim (strip (13 ∷ 10 ∷ 13 ∷ 10 ∷ []) (c ∷ cs)) [
      | some rest ↦ (13 ∷ 10 ∷ 13 ∷ 10 ∷ [], rest)
      | none ↦ elim (strip (10 ∷ 10 ∷ []) (c ∷ cs)) [
        | some rest ↦ (10 ∷ 10 ∷ [], rest)
        | none ↦ (c ∷ h, b)
      ]
    ]

-- `strncasecmp` against a name in lower case: what follows it.
unfoldable pub strip_name : List ℕ → List ℕ → Option (List ℕ)
strip_name [] cs = some cs
strip_name (p ∷ ps) [] = none
strip_name (p ∷ ps) (c ∷ cs) = let rest = strip_name ps cs in if p == lower c then rest else none

-- A header by its name, or by its short name.
abbrev pub named : List ℕ → List ℕ → List ℕ → Option (List ℕ)
named name short cs = or_else (strip_name name cs) (strip_name short cs)

-- What follows the first space.
abbrev pub after_space : List ℕ → Option (List ℕ)
after_space = find (32 ∷ [])

-- The headers that `parse_sip` reads, by the order of its tests.
pub data Header : Type 0 where
  via from to call_id cseq contact content_type user_agent content_length : Header

-- Their names, in lower case, and the short ones; a header without one repeats its name.
abbrev pub name_of : Header → List ℕ
name_of via = 118 ∷ 105 ∷ 97 ∷ 58 ∷ []
name_of from = 102 ∷ 114 ∷ 111 ∷ 109 ∷ 58 ∷ []
name_of to = 116 ∷ 111 ∷ 58 ∷ []
name_of call_id = 99 ∷ 97 ∷ 108 ∷ 108 ∷ 45 ∷ 105 ∷ 100 ∷ 58 ∷ []
name_of cseq = 99 ∷ 115 ∷ 101 ∷ 113 ∷ 58 ∷ []
name_of contact = 99 ∷ 111 ∷ 110 ∷ 116 ∷ 97 ∷ 99 ∷ 116 ∷ 58 ∷ []
name_of content_type = 99 ∷ 111 ∷ 110 ∷ 116 ∷ 101 ∷ 110 ∷ 116 ∷ 45 ∷ 116 ∷ 121 ∷ 112 ∷ 101 ∷ 58 ∷ []
name_of user_agent = 117 ∷ 115 ∷ 101 ∷ 114 ∷ 45 ∷ 97 ∷ 103 ∷ 101 ∷ 110 ∷ 116 ∷ 58 ∷ []
name_of content_length =
    99 ∷ 111 ∷ 110 ∷ 116 ∷ 101 ∷ 110 ∷ 116 ∷ 45 ∷ 108 ∷ 101 ∷ 110 ∷ 103 ∷ 116 ∷ 104 ∷ 58 ∷ []

abbrev pub short_of : Header → List ℕ
short_of via = 118 ∷ 58 ∷ []
short_of from = 102 ∷ 58 ∷ []
short_of to = 116 ∷ 58 ∷ []
short_of call_id = 105 ∷ 58 ∷ []
short_of contact = 109 ∷ 58 ∷ []
short_of h = name_of h

-- The method of a CSeq, or the one before.
abbrev pub method_of : List ℕ → Option (List ℕ) → List ℕ
method_of before none = before
method_of before (some cs) = take 15 cs

-- A header's value goes into its field. `rest` is the text behind the name, of which the line is only
-- the first part.
unfoldable pub store_header : Header → List ℕ → Message → Message
unfolding copy_line_value extract_tag until
store_header via rest m =
    if ltb (length m.via) max_vias
    then record m { via = m.via ++ copy_line_value (line_of rest) 320 ∷ [] }
    else m
store_header from rest m =
    let v = copy_line_value (line_of rest) 320 in record m { from = v; from_tag = extract_tag v 64 }
store_header to rest m =
    let v = copy_line_value (line_of rest) 320 in record m { to = v; to_tag = extract_tag v 64 }
store_header call_id rest m = record m { call_id = copy_line_value (line_of rest) 256 }
store_header cseq rest m =
    let v = copy_line_value (line_of rest) 64 in
    record m { cseq = v; cseq_num = atoi v; cseq_method = method_of m.cseq_method (after_space v) }
store_header contact rest m = record m { contact = copy_line_value (line_of rest) 320 }
store_header content_type rest m = record m { content_type = copy_line_value (line_of rest) 64 }
store_header user_agent rest m = record m { user_agent = copy_line_value (line_of rest) 128 }
store_header content_length rest m = record m { content_length = atoi rest }

-- A header that is there is stored, and otherwise the later ones are tried.
unfoldable pub take_header : Option (List ℕ) → Header → Message → Message → Message
unfolding store_header
take_header none h m later = later
take_header (some rest) h m later = store_header h rest m

-- The first of these headers whose name the text begins with.
unfoldable pub try_headers : List Header → List ℕ → Message → Message
unfolding take_header strip_name
try_headers [] cs m = m
try_headers (h ∷ hs) cs m =
    let later = try_headers hs cs m in take_header (named (name_of h) (short_of h) cs) h m later

abbrev pub all_headers : List Header
all_headers =
    via ∷ from ∷ to ∷ call_id ∷ cseq ∷ contact ∷ content_type ∷ user_agent ∷ content_length ∷ []
