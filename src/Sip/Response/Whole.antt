-- ===== src/Sip/Response/Whole.antt =====
-- The room for a response.
use v34_working.Base.{
  ℕ, ◌+◌, ◌-◌, ◌≤◌, ◌<◌, ◌≡◌, sym, ap, ap₂, ◌∙◌, List, [], ◌∷◌, ◌++◌, append_assoc, append-nil,
  true, leb, length, length-append, take, take-all, if_true, arith, le→leb, min, if◌then◌else◌,
}
use v34_working.Sip.Text.{Message}
use v34_working.Sip.Text.Fits.{Fits}
use v34_working.Sip.Parse.{parse_sip}
use v34_working.Sip.Parse.Fits.{parse_sip-Fits}
use v34_working.Sip.Response.{
  Buffer, Reply, size, empty, print, print_all, copy_body, is_empty, head_lines, tail_lines,
  build_response, sent_bytes,
}
use v34_working.Sip.Response.Weight.{
  joined, weight, length-joined, weight-append, IsShort, weight-head_lines, weight-tail_lines,
}

-- A buffer that holds just this text.
abbrev pub written : List ℕ → Buffer
written text = record { chars = text; n = length text; safe = true }

-- A text that fits with the 0 behind it is printed whole.
print-written :
    (text more : List ℕ)
    → length text + length more < size
    → print more (written text) ≡ written (text ++ more)
unfolding print
print-written text more room =
    if_true (leb (length text) size) _ _ (le→leb _ _ (omega arith))
    ∙ ap₂ (λ l k. record { chars = text ++ l; n = k; safe = true })
        (take-all (size - length text - 1) more (omega arith)) (sym (length-append text more))

print_all-written :
    (ts : List (List ℕ)) (text : List ℕ)
    → length text + weight ts < size
    → print_all ts (written text) ≡ written (text ++ joined ts)
unfolding print_all weight
print_all-written [] text room = ap written (sym (append-nil text))
print_all-written (t ∷ ts) text room =
    ap (print_all ts) (print-written text t (omega arith))
    ∙ print_all-written ts (text ++ t) (omega (arith, length-append text t))
    ∙ ap written (append_assoc text t (joined ts))

copy_body-written :
    (body text : List ℕ)
    → length text + length body ≤ size
    → copy_body body (written text) ≡ written (text ++ body)
unfolding copy_body
copy_body-written body text room =
    if_true (leb (length text + length body) size) _ _ (le→leb _ _ room)
    ∙ ap (λ k. record { chars = text ++ body; n = k; safe = true }) (sym (length-append text body))

-- The response as one text.
abbrev pub response_text : Message → List ℕ → Reply → List ℕ
response_text m tag r = joined (head_lines m tag r ++ tail_lines r) ++ r.body

lines-written :
    (m : Message) (tag : List ℕ) (r : Reply)
    → Fits m
    → IsShort r
    → length tag ≡ 16
    → (print_all (head_lines m tag r ++ tail_lines r) empty
        ≡ written (joined (head_lines m tag r ++ tail_lines r)))
      × (length (joined (head_lines m tag r ++ tail_lines r)) ≤ 3120)
lines-written m tag r v s e =
    let ts = head_lines m tag r ++ tail_lines r in
    let small : weight ts ≤ 3120 = omega (
      arith,
      weight-append (head_lines m tag r) (tail_lines r),
      weight-head_lines m tag r v s e,
      weight-tail_lines r s,
    ) in
    (print_all-written ts [] (omega (arith, small)), omega (arith, small, length-joined ts))

-- The body follows when there is one.
with_body :
    (body text : List ℕ)
    → length text + length body ≤ size
    → (if is_empty body then written text else copy_body body (written text))
      ≡ written (text ++ body)
with_body [] text room = ap written (sym (append-nil text))
with_body (c ∷ cs) text room = copy_body-written (c ∷ cs) text room

whole :
    (m : Message) (tag : List ℕ) (r : Reply)
    → Fits m
    → IsShort r
    → length tag ≡ 16
    → (build_response m tag r ≡ written (response_text m tag r))
      × (length (response_text m tag r) ≤ size)
unfolding build_response
whole m tag r v s e =
    let (p, small) = lines-written m tag r v s e in
    let lines = joined (head_lines m tag r ++ tail_lines r) in
    (
      ap (λ b. if is_empty r.body then b else copy_body r.body b) p
          ∙ with_body r.body lines (omega (arith, small, s.body)),
      omega (arith, small, s.body, length-append lines r.body),
    )

sent_bytes-written : (text : List ℕ) → length text ≤ size → sent_bytes (written text) ≡ text
unfolding sent_bytes
sent_bytes-written text room =
    let k : min (length text) size ≡ length text = omega arith in
    ap (λ n. take n text) k ∙ take-all (length text) text (omega arith)

-- What is sent is the text.
pub sent_bytes-build_response :
    (m : Message) (tag : List ℕ) (r : Reply)
    → Fits m
    → IsShort r
    → length tag ≡ 16
    → sent_bytes (build_response m tag r) ≡ response_text m tag r
sent_bytes-build_response m tag r v s e =
    let (p, room) = whole m tag r v s e in
    ap sent_bytes p ∙ sent_bytes-written (response_text m tag r) room

-- The response to a message that `parse_sip` has read, whatever the datagram was, never reaches the end
-- of the 4096 bytes of its buffer: no write is cut short or runs over, and what is sent is the
-- status line, the headers and the body, whole and in order. The tag has 16 characters, the
-- reason 32 at most, and the further headers and the body are from arrays of 512.
pub build_response-parse_sip :
    (datagram tag : List ℕ) (r : Reply)
    → length tag ≡ 16
    → IsShort r
    → let m = parse_sip datagram in
      ((build_response m tag r).safe ≡ true)
      × (sent_bytes (build_response m tag r) ≡ response_text m tag r)
build_response-parse_sip datagram tag r e s =
    let m = parse_sip datagram in
    let v = parse_sip-Fits datagram in
    (ap (λ b. b.safe) (whole m tag r v s e).0, sent_bytes-build_response m tag r v s e)
