-- ===== src/Sip/Text/Fits.antt =====
-- The arrays of `sip_msg_t` and what is written to them.
use v34_working.Base.{
  ℕ, suc, ◌-◌, ◌≤◌, ◌<◌, List, [], ◌∷◌, ◌++◌, Bool, Option, none, some, ltb, length, length-append,
  length-take, take, All, if-Has, arith, ltb→lt, ◌==◌,
}
use v34_working.Sip.Text.{
  Message, Header, via, from, to, call_id, cseq, contact, content_type, user_agent, content_length,
  until, line_of, copy_line_value, trim_end, trim_start, extract_tag, tag_of, after_space,
  method_of, store_header, take_header, try_headers, named, name_of, short_of, max_vias, max_body,
}

-- A C string, with the 0 that ends it, fits into an array of `size` bytes.
abbrev pub Within : ℕ → List ℕ → Type 0
Within size text = length text < size

-- Every array of the message holds its string.
pub record Fits (m : Message) : Type 0 where
  pub method : Within 16 m.method
  pub uri : Within 256 m.uri
  pub vias : length m.via ≤ max_vias
  pub via : All (Within 320) m.via
  pub from : Within 320 m.from
  pub to : Within 320 m.to
  pub call_id : Within 256 m.call_id
  pub cseq : Within 64 m.cseq
  pub cseq_method : Within 16 m.cseq_method
  pub contact : Within 320 m.contact
  pub content_type : Within 64 m.content_type
  pub user_agent : Within 128 m.user_agent
  pub body : length m.body ≤ max_body
  pub from_tag : Within 64 m.from_tag
  pub to_tag : Within 64 m.to_tag

length-until : (ends : ℕ → Bool) (cs : List ℕ) → length (until ends cs) ≤ length cs
unfolding until
length-until ends [] = omega arith
length-until ends (c ∷ cs) =
    if-Has (λ l. length l ≤ suc (length cs)) (ends c) [] (c ∷ until ends cs) (λ _. omega arith)
      (λ _. omega (arith, length-until ends cs))

copy_line_value-Within :
    (value : List ℕ) (size : ℕ) → 0 < size → Within size (copy_line_value value size)
unfolding copy_line_value
copy_line_value-Within value size pos =
    let text = trim_start (trim_end value) in
    omega (arith, length-until (λ c. c == 0) (take (size - 1) text), length-take (size - 1) text)

pub take-Within : (size : ℕ) (cs : List ℕ) → 0 < size → Within size (take (size - 1) cs)
take-Within size cs pos = omega (arith, length-take (size - 1) cs)

tag_of-Within : (size : ℕ) (o : Option (List ℕ)) → 0 < size → Within size (tag_of size o)
tag_of-Within size none pos = omega arith
tag_of-Within size (some cs) pos = take-Within size _ pos

extract_tag-Within : (hdr : List ℕ) (size : ℕ) → 0 < size → Within size (extract_tag hdr size)
unfolding extract_tag
extract_tag-Within hdr size pos = tag_of-Within size _ pos

method_of-Within :
    (before : List ℕ) (o : Option (List ℕ)) → Within 16 before → Within 16 (method_of before o)
method_of-Within before none w = w
method_of-Within before (some cs) w = take-Within 16 cs (omega arith)

All-append :
    (P : List ℕ → Type 0) (xs : List (List ℕ)) (y : List ℕ) → All P xs → P y → All P (xs ++ y ∷ [])
All-append P [] y all p = (p, tt)
All-append P (x ∷ xs) y (px, all) p = (px, All-append P xs y all p)

store_header-Fits :
    (h : Header) (rest : List ℕ) (m : Message) → Fits m → Fits (store_header h rest m)
unfolding store_header
store_header-Fits via rest m v =
    let value = copy_line_value (line_of rest) 320 in
    let w = copy_line_value-Within (line_of rest) 320 (omega arith) in
    if-Has Fits (ltb (length m.via) max_vias) (record m { via = m.via ++ value ∷ [] }) m
      (λ room.
        let all = All-append (Within 320) m.via value v.via w in
        let few = ltb→lt (length m.via) max_vias room in
        let more = length-append m.via (value ∷ []) in ground (arith, all, few, more))
      (λ _. v)
store_header-Fits from rest m v =
    let value = copy_line_value (line_of rest) 320 in
    let w = copy_line_value-Within (line_of rest) 320 (omega arith) in
    let t = extract_tag-Within value 64 (omega arith) in ground (arith, w, t)
store_header-Fits to rest m v =
    let value = copy_line_value (line_of rest) 320 in
    let w = copy_line_value-Within (line_of rest) 320 (omega arith) in
    let t = extract_tag-Within value 64 (omega arith) in ground (arith, w, t)
store_header-Fits call_id rest m v =
    let w = copy_line_value-Within (line_of rest) 256 (omega arith) in ground (arith, w)
store_header-Fits cseq rest m v =
    let value = copy_line_value (line_of rest) 64 in
    let w = copy_line_value-Within (line_of rest) 64 (omega arith) in
    let k = method_of-Within m.cseq_method (after_space value) v.cseq_method in ground (arith, w, k)
store_header-Fits contact rest m v =
    let w = copy_line_value-Within (line_of rest) 320 (omega arith) in ground (arith, w)
store_header-Fits content_type rest m v =
    let w = copy_line_value-Within (line_of rest) 64 (omega arith) in ground (arith, w)
store_header-Fits user_agent rest m v =
    let w = copy_line_value-Within (line_of rest) 128 (omega arith) in ground (arith, w)
store_header-Fits content_length rest m v = ground arith

take_header-Fits :
    (o : Option (List ℕ)) (h : Header) (m later : Message)
    → Fits m
    → Fits later
    → Fits (take_header o h m later)
unfolding take_header
take_header-Fits none h m later v w = w
take_header-Fits (some rest) h m later v w = store_header-Fits h rest m v

-- A header line leaves every array within its bounds.
pub try_headers-Fits :
    (hs : List Header) (cs : List ℕ) (m : Message) → Fits m → Fits (try_headers hs cs m)
unfolding try_headers
try_headers-Fits [] cs m v = v
try_headers-Fits (h ∷ hs) cs m v =
    take_header-Fits (named (name_of h) (short_of h) cs) h m (try_headers hs cs m) v
      (try_headers-Fits hs cs m v)
