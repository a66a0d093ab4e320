-- ===== src/Sip/Response/Weight.antt =====
-- How long the texts of a response are.
use v34_working.Base.{
  ℕ, zero, suc, ◌+◌, ◌*◌, ◌/◌, ◌%◌, ◌≤◌, ◌≡◌, refl, List, [], ◌∷◌, ◌++◌, Bool, true, false, not,
  ltb, length, length-append, All, if-Has, arith, codes, dec, dec_from,
}
use v34_working.Sip.Text.{Message}
use v34_working.Sip.Text.Fits.{Within, Fits}
use v34_working.Sip.Response.{
  Reply, field, given, is_empty, via_lines, to_value, head_lines, tail_lines, eol,
}

-- The texts one after the other, and their length.
abbrev pub joined : List (List ℕ) → List ℕ
joined [] = []
joined (t ∷ ts) = t ++ joined ts

unfoldable pub weight : List (List ℕ) → ℕ
weight [] = 0
weight (t ∷ ts) = length t + weight ts

pub length-joined : (ts : List (List ℕ)) → length (joined ts) ≡ weight ts
unfolding weight
length-joined [] = refl
length-joined (t ∷ ts) = omega (arith, length-append t (joined ts), length-joined ts)

pub weight-append : (ts us : List (List ℕ)) → weight (ts ++ us) ≡ weight ts + weight us
unfolding weight
weight-append [] us = omega arith
weight-append (t ∷ ts) us = omega (arith, weight-append ts us)

length-dec_from : (more n : ℕ) → length (dec_from more n) ≤ more + 1
unfolding dec_from
length-dec_from zero n = omega arith
length-dec_from (suc more) n =
    let front = dec_from more (n / 10) in
    if-Has (λ l. length l ≤ suc more + 1) (ltb n 10) ((48 + n) ∷ []) (front ++ (48 + n % 10) ∷ [])
      (λ _. omega arith)
      (λ _. omega (arith, length-append front ((48 + n % 10) ∷ []), length-dec_from more (n / 10)))

pub length-dec : (n : ℕ) → length (dec n) ≤ 10
unfolding dec
length-dec n = length-dec_from 9 n

length-field : (name value : List ℕ) → length (field name value) ≡ length name + length value + 3
length-field name value =
    omega (arith, length-append name (32 ∷ (value ++ eol)), length-append value eol)

weight-via_lines :
    (vs : List (List ℕ)) → All (Within 320) vs → weight (via_lines vs) ≤ length vs * 326
unfolding weight via_lines
weight-via_lines [] all = omega arith
weight-via_lines (v ∷ vs) (w, all) =
    omega (arith, length-field (codes "Via:") v, weight-via_lines vs all)

-- What a handler replies with: a short reason, and at most an array of 512 of each of the others.
pub record IsShort (r : Reply) : Type 0 where
  pub reason : length r.reason ≤ 32
  pub extra : Within 512 r.extra
  pub body : Within 512 r.body

length-to_value :
    (m : Message) (tag : List ℕ) → Fits m → length tag ≡ 16 → length (to_value m tag) ≤ 340
length-to_value m tag v e =
    if-Has (λ l. length l ≤ 340) (is_empty m.to_tag) (m.to ++ (codes ";tag=" ++ tag)) m.to
      (λ _. omega (arith, v.to, length-append m.to (codes ";tag=" ++ tag)))
      (λ _. omega (arith, v.to))

length-status_line :
    (status : ℕ) (reason : List ℕ)
    → length (codes "SIP/2.0 " ++ (dec status ++ 32 ∷ (reason ++ eol))) ≤ length reason + 21
length-status_line status reason = omega (
  arith,
  length-append (dec status) (32 ∷ (reason ++ eol)),
  length-append reason eol,
  length-dec status,
)

pub weight-head_lines :
    (m : Message) (tag : List ℕ) (r : Reply)
    → Fits m
    → IsShort r
    → length tag ≡ 16
    → weight (head_lines m tag r) ≤ 2500
unfolding weight
weight-head_lines m tag r v s e =
    let fields =
      field (codes "From:") m.from
      ∷ field (codes "To:") (to_value m tag)
      ∷ field (codes "Call-ID:") m.call_id
      ∷ field (codes "CSeq:") m.cseq
      ∷ [] in
    omega (
      arith,
      length-status_line r.status r.reason,
      s.reason,
      weight-append (via_lines m.via) fields,
      weight-via_lines m.via v.via,
      v.vias,
      length-field (codes "From:") m.from,
      v.from,
      length-field (codes "To:") (to_value m tag),
      length-to_value m tag v e,
      length-field (codes "Call-ID:") m.call_id,
      v.call_id,
      length-field (codes "CSeq:") m.cseq,
      v.cseq,
    )

weight-given : (b : Bool) (text : List ℕ) → weight (given b text) ≤ length text
unfolding weight
weight-given true text = omega arith
weight-given false text = omega arith

pub weight-tail_lines : (r : Reply) → IsShort r → weight (tail_lines r) ≤ 620
unfolding weight
weight-tail_lines r s =
    let server = field (codes "Server:") (codes "SoftmodemSIP/1.0") in
    let type =
      given (not (is_empty r.body)) (field (codes "Content-Type:") (codes "application/sdp")) in
    let count = field (codes "Content-Length:") (dec (length r.body)) in
    omega (
      arith,
      weight-append (given (not (is_empty r.extra)) r.extra)
          (server ∷ (type ++ (count ++ eol) ∷ [])),
      weight-append type ((count ++ eol) ∷ []),
      weight-given (not (is_empty r.extra)) r.extra,
      s.extra,
      weight-given (not (is_empty r.body))
          (field (codes "Content-Type:") (codes "application/sdp")),
      length-append count eol,
      length-field (codes "Content-Length:") (dec (length r.body)),
      length-dec (length r.body),
    )
