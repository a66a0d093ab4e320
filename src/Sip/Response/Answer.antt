-- ===== src/Sip/Response/Answer.antt =====
-- A response in lines, as `parse_sip` reads it.
use v34_working.Base.{
  ℕ, ◌≤◌, ◌≡◌, sym, ap, ap₂, ◌∙◌, List, [], ◌∷◌, ◌++◌, append_assoc, true, some, ltb, length,
  length-append, take, take-all, if_true, lt→ltb, arith, codes, atoi, strip,
}
use v34_working.Sip.Text.{Message, line_of}
use v34_working.Sip.Parse.{parse_sip, header_scan, first_line, after_line, blank, kept}
use v34_working.Sip.Response.Lines.{
  IsPlain, IsPlain-append, AreRead, Effects, unlines, run, crlf, split-unlines, scan-unlines,
  line_of-plain, after_line-plain,
}

-- `parse_sip` behind the split of header and body, and behind the header.
abbrev pub with_body : List ℕ → Message → Message
with_body body m = record m { body = take (kept body m.content_length) body }

abbrev pub sip : List ℕ
sip = 83 ∷ 73 ∷ 80 ∷ 47 ∷ 50 ∷ 46 ∷ 48 ∷ []

abbrev pub parse_lines : List ℕ → List ℕ → List ℕ → Message
parse_lines line header body =
    with_body body (header_scan true header body (first_line line (strip sip line) blank))

abbrev pub parse_parts : List ℕ × List ℕ → Message
parse_parts p = parse_lines (take 511 (line_of p.0)) (after_line p.0) p.1

-- The first line of a response.
abbrev pub status_message : List ℕ → Message
status_message t = record blank { is_response = true; status = some (atoi t) }

first_line-status :
    (t : List ℕ)
    → length t ≤ 500
    → let line = take 511 (codes "SIP/2.0 " ++ t) in
      first_line line (strip sip line) blank ≡ status_message t
unfolding first_line strip
first_line-status t h =
    ap (λ o. record blank { is_response = true; status = o })
      (if_true (ltb 7 (length (take 511 (codes "SIP/2.0 " ++ t)))) _ _ (lt→ltb 7 _ (omega arith))
        ∙ ap (λ l. some (atoi l)) (take-all 503 t (omega arith)))

-- What is made of a response with this status and these lines.
abbrev pub answer : List ℕ → Effects → List ℕ → Message
answer t ls body = with_body body (run ls (status_message (t ++ 13 ∷ [])))

parse_parts-lines :
    (t : List ℕ) (ls : Effects) (body : List ℕ)
    → IsPlain t
    → length t ≤ 400
    → AreRead ls
    → parse_parts ((codes "SIP/2.0 " ++ t) ++ crlf (unlines ls (crlf [])), body) ≡ answer t ls body
parse_parts-lines t ls body p h r =
    let header = unlines ls (crlf []) in
    let first = codes "SIP/2.0 " ++ t ++ 13 ∷ [] in
    let plain : IsPlain first =
      IsPlain-append (codes "SIP/2.0 ") (t ++ 13 ∷ []) (omega arith)
        (IsPlain-append t (13 ∷ []) p (omega arith)) in
    let e : (codes "SIP/2.0 " ++ t) ++ crlf header ≡ first ++ 10 ∷ header =
      ap (λ l. codes "SIP/2.0 " ++ l) (sym (append_assoc t (13 ∷ []) (10 ∷ header))) in
    ap (λ x. parse_parts (x, body)) e
    ∙ ap₂ (λ l a. parse_lines (take 511 l) a body) (line_of-plain first header plain)
        (after_line-plain first header plain)
    ∙ ap (λ m. with_body body (header_scan true header body m))
        (first_line-status (t ++ 13 ∷ []) (omega (arith, length-append t (13 ∷ []))))
    ∙ ap (with_body body) (scan-unlines ls body (status_message (t ++ 13 ∷ [])) r)

pub parse_sip-lines :
    (t : List ℕ) (ls : Effects) (body : List ℕ)
    → IsPlain t
    → length t ≤ 400
    → AreRead ls
    → parse_sip ((codes "SIP/2.0 " ++ t) ++ crlf (unlines ls (crlf body))) ≡ answer t ls body
unfolding parse_sip
parse_sip-lines t ls body p h r =
    ap parse_parts (
      split-unlines (codes "SIP/2.0 " ++ t) ls body
        (IsPlain-append (codes "SIP/2.0 ") t (omega arith) p) r)
    ∙ parse_parts-lines t ls body p h r
