-- ===== src/Sip/Parse.antt =====
-- A SIP datagram in `src/sip/sm_sip.c`: `parse_sip`, `extract_sdp`, and the choice of the handler in
-- `sm_sip_run`.
pub mod Fits
use v34_working.Base.{
  ℕ, zero, suc, ◌+◌, ◌-◌, List, [], ◌∷◌, ◌++◌, Bool, true, false, not, ◌&&◌, ◌||◌, Option, none,
  some, ltb, leb, ◌==◌, min, length, take, drop, if◌then◌else◌, strip, find, atoi,
}
use v34_working.Sip.Text.{
  Message, until, line_of, c_string, copy_line_value, split_body, after_space, try_headers,
  all_headers, max_body,
}
use v34_working.Sip.Call.{
  Host, Request, Event, register, options, ack, bye, cancel, other, invite, same_id,
}

-- `memset`
abbrev pub blank : Message
blank = record {
  is_response = false;
  status = none;
  method = [];
  uri = [];
  via = [];
  from = [];
  to = [];
  call_id = [];
  cseq = [];
  cseq_num = 0;
  cseq_method = [];
  contact = [];
  content_type = [];
  user_agent = [];
  content_length = 0;
  body = [];
  from_tag = [];
  to_tag = [];
}

-- What follows the first line.
unfoldable pub after_line : List ℕ → List ℕ
after_line [] = []
after_line (c ∷ cs) = let rest = after_line cs in if c == 10 then cs else rest

abbrev is_blank : ℕ → Bool
is_blank c = c == 32

-- The method and the target of a request line, with what follows its first space.
unfoldable pub request_line : List ℕ → Option (List ℕ) → Message → Message
unfolding until
request_line line none m = m
request_line line (some rest) m = record m {
  method = take 15 (until is_blank line);
  uri = take 255 (until is_blank rest);
}

-- The first line, as far as it fits into 511 characters; `rest` is what follows "SIP/2.0".
unfoldable pub first_line : List ℕ → Option (List ℕ) → Message → Message
unfolding request_line find
first_line line (some rest) m = record m {
  is_response = true;
  status = if ltb 7 (length line) then some (atoi (drop 8 line)) else none;
}
first_line line none m = request_line (c_string line) (after_space (c_string line)) m

-- The line is empty.
abbrev is_empty : List ℕ → Bool
is_empty cs = (length (line_of cs) == 0) || same_id (line_of cs) (13 ∷ [])

-- One header line, of which `cs` is the text up to the body.
unfoldable pub header_line : List ℕ → List ℕ → Message → Message
unfolding try_headers same_id
header_line cs body m = if is_empty cs then m else try_headers all_headers (cs ++ body) m

-- The loop over the header lines: at the start of a line, the header there is stored.
unfoldable pub header_scan : Bool → List ℕ → List ℕ → Message → Message
unfolding header_line
header_scan start [] body m = m
header_scan start (c ∷ cs) body m =
    header_scan (c == 10) cs body (if start then header_line (c ∷ cs) body m else m)

-- The length of the body that is kept.
abbrev pub kept : List ℕ → ℕ → ℕ
kept b content_length =
    let blen = length b in
    min max_body (if ltb 0 content_length && ltb content_length blen then content_length else blen)

-- `parse_sip`
unfoldable pub parse_sip : List ℕ → Message
unfolding split_body after_line first_line header_scan strip until
parse_sip text =
    let (h, b) = split_body text in
    let line = take 511 (line_of h) in
    let m =
      header_scan true (after_line h) b
        (first_line line (strip (83 ∷ 73 ∷ 80 ∷ 47 ∷ 50 ∷ 46 ∷ 48 ∷ []) line) blank) in
    record m { body = take (kept b m.content_length) b }

-- What `extract_sdp` finds: the address, the port and the payload type.
pub record Media : Type 0 where
  pub ip : List ℕ
  pub port : ℕ
  pub pt : ℕ

-- The payload type, which is looked for in all that follows.
unfoldable pub payload_type : Option (List ℕ) → Media → Media
payload_type none d = d
payload_type (some r) d = record d { pt = atoi r }

-- One line, with all that follows it: `c=IN IP4 ` or `m=audio `.
unfoldable pub sdp_line : List ℕ → Option (List ℕ) → Option (List ℕ) → Media → Media
unfolding payload_type copy_line_value until find
sdp_line cs (some v) audio d = record d { ip = copy_line_value (line_of v) 64 }
sdp_line cs none (some q) d =
    payload_type (find (82 ∷ 84 ∷ 80 ∷ 47 ∷ 65 ∷ 86 ∷ 80 ∷ []) q) (record d { port = atoi q })
sdp_line cs none none d = d

-- The loop over the lines.
unfoldable pub sdp_scan : Bool → List ℕ → Media → Media
unfolding sdp_line strip
sdp_scan start [] d = d
sdp_scan start (c ∷ cs) d =
    let connection = strip (99 ∷ 61 ∷ 73 ∷ 78 ∷ 32 ∷ 73 ∷ 80 ∷ 52 ∷ 32 ∷ []) (c ∷ cs) in
    let audio = strip (109 ∷ 61 ∷ 97 ∷ 117 ∷ 100 ∷ 105 ∷ 111 ∷ 32 ∷ []) (c ∷ cs) in
    sdp_scan (c == 10) cs (if start then sdp_line (c ∷ cs) connection audio d else d)

-- `extract_sdp`
unfoldable pub extract_sdp : List ℕ → Media
unfolding sdp_scan
extract_sdp body = sdp_scan true body (record { ip = []; port = 0; pt = 0 })

-- A message as the handlers read it.
unfoldable pub request_of : Message → Request
unfolding extract_sdp
request_of m = record {
  call_id = m.call_id;
  cseq_num = m.cseq_num;
  sdp_port = (extract_sdp m.body).port;
}

-- The handler that the method chooses.
unfoldable pub event_of : Host → List ℕ → Request → Event
unfolding same_id
event_of h method r =
    if same_id method (82 ∷ 69 ∷ 71 ∷ 73 ∷ 83 ∷ 84 ∷ 69 ∷ 82 ∷ [])
    then register r
    else if same_id method (73 ∷ 78 ∷ 86 ∷ 73 ∷ 84 ∷ 69 ∷ [])
    then invite h r
    else if same_id method (65 ∷ 67 ∷ 75 ∷ [])
    then ack r
    else if same_id method (66 ∷ 89 ∷ 69 ∷ [])
    then bye r
    else if same_id method (67 ∷ 65 ∷ 78 ∷ 67 ∷ 69 ∷ 76 ∷ [])
    then cancel r
    else if same_id method (79 ∷ 80 ∷ 84 ∷ 73 ∷ 79 ∷ 78 ∷ 83 ∷ [])
    then options r
    else other r

-- A datagram from the SIP socket. A response is ignored.
unfoldable pub receive : Host → List ℕ → Option Event
unfolding parse_sip request_of event_of
receive h text =
    let m = parse_sip text in
    if m.is_response then none else some (event_of h m.method (request_of m))
