-- ===== src/Sip/Parse/Fits.antt =====
-- What `parse_sip` writes to the arrays of `sip_msg_t`.
use v34_working.Base.{
  ℕ, ◌≤◌, List, [], ◌∷◌, ◌++◌, Bool, true, Option, none, some, ◌==◌, length, length-take, take,
  if◌then◌else◌, if-Has, arith, strip,
}
use v34_working.Sip.Text.{
  Message, line_of, c_string, until, after_space, split_body, try_headers, all_headers, max_body,
}
use v34_working.Sip.Text.Fits.{Fits, take-Within, try_headers-Fits}
use v34_working.Sip.Parse.{
  blank, after_line, is_empty, request_line, first_line, header_line, header_scan, kept, parse_sip,
}

blank-Fits : Fits blank
blank-Fits = ground arith

request_line-Fits :
    (line : List ℕ) (o : Option (List ℕ)) (m : Message) → Fits m → Fits (request_line line o m)
unfolding request_line
request_line-Fits line none m v = v
request_line-Fits line (some rest) m v =
    let w = take-Within 16 (until (λ c. c == 32) line) (omega arith) in
    let u = take-Within 256 (until (λ c. c == 32) rest) (omega arith) in ground (arith, w, u)

first_line-Fits :
    (line : List ℕ) (o : Option (List ℕ)) (m : Message) → Fits m → Fits (first_line line o m)
unfolding first_line
first_line-Fits line (some rest) m v = ground arith
first_line-Fits line none m v = request_line-Fits (c_string line) (after_space (c_string line)) m v

header_line-Fits : (cs body : List ℕ) (m : Message) → Fits m → Fits (header_line cs body m)
unfolding header_line
header_line-Fits cs body m v =
    if-Has Fits (is_empty cs) m (try_headers all_headers (cs ++ body) m) (λ _. v)
      (λ _. try_headers-Fits all_headers (cs ++ body) m v)

header_scan-Fits :
    (start : Bool) (cs body : List ℕ) (m : Message) → Fits m → Fits (header_scan start cs body m)
unfolding header_scan
header_scan-Fits start [] body m v = v
header_scan-Fits start (c ∷ cs) body m v =
    header_scan-Fits (c == 10) cs body (if start then header_line (c ∷ cs) body m else m) (
      if-Has Fits start (header_line (c ∷ cs) body m) m (λ _. header_line-Fits (c ∷ cs) body m v)
        (λ _. v))

with_body : (b : List ℕ) (m : Message) → Fits m → length b ≤ max_body → Fits (record m { body = b })
with_body b m v small = ground arith

-- Whatever a datagram holds, `parse_sip` writes within the arrays of the message: every string with
-- the 0 that ends it, at most four Via headers, and at most 4096 bytes of body.
pub parse_sip-Fits : (text : List ℕ) → Fits (parse_sip text)
unfolding parse_sip
parse_sip-Fits text =
    let (h, b) = split_body text in
    let line = take 511 (line_of h) in
    let found = strip (83 ∷ 73 ∷ 80 ∷ 47 ∷ 50 ∷ 46 ∷ 48 ∷ []) line in
    let m = header_scan true (after_line h) b (first_line line found blank) in
    let v : Fits m =
      header_scan-Fits true (after_line h) b (first_line line found blank)
        (first_line-Fits line found blank blank-Fits) in
    let k = length-take (kept b m.content_length) b in
    with_body (take (kept b m.content_length) b) m v (omega arith)
