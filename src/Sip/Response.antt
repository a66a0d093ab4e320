-- ===== src/Sip/Response.antt =====
-- The SIP responses of `src/sip/sm_sip.c`: `build_response`, and what the handlers have it write.
pub mod Weight
pub mod Whole
pub mod Replies
pub mod Lines
pub mod Values
pub mod Fields
pub mod Answer
pub mod Effects
pub mod RoundTrip
use v34_working.Base.{
  ℕ, zero, suc, ◌+◌, ◌-◌, List, [], ◌∷◌, ◌++◌, Bool, true, false, not, ltb, leb, ◌==◌, length, take,
  min, if◌then◌else◌, codes, dec,
}
use v34_working.Sip.Text.{Message, max_body}

-- `buf` of `build_response`: its characters, the count `n`, and whether every write has stayed inside.
pub record Buffer : Type 0 where
  pub chars : List ℕ
  pub n : ℕ
  pub safe : Bool

-- SM_SIP_MAX_MSG
abbrev pub size : ℕ
size = max_body

abbrev pub empty : Buffer
empty = record { chars = []; n = 0; safe = true }

-- `n += snprintf(buf + n, sizeof(buf) - n, …)`: what fits is written, and the whole length is added.
-- Beyond the end the room that is left wraps around.
unfoldable pub print : List ℕ → Buffer → Buffer
print text b =
    if leb b.n size
    then record b { chars = b.chars ++ take (size - b.n - 1) text; n = b.n + length text }
    else record b { n = b.n + length text; safe = false }

unfoldable pub print_all : List (List ℕ) → Buffer → Buffer
unfolding print
print_all [] b = b
print_all (t ∷ ts) b = print_all ts (print t b)

-- `memcpy` of the body
unfoldable pub copy_body : List ℕ → Buffer → Buffer
copy_body body b =
    if leb (b.n + length body) size
    then record b { chars = b.chars ++ body; n = b.n + length body }
    else record b { n = b.n + length body; safe = false }

abbrev pub eol : List ℕ
eol = 13 ∷ 10 ∷ []

-- A header line.
abbrev pub field : List ℕ → List ℕ → List ℕ
field name value = name ++ 32 ∷ (value ++ eol)

abbrev pub given : Bool → List ℕ → List (List ℕ)
given true text = text ∷ []
given false text = []

abbrev pub is_empty : List ℕ → Bool
is_empty [] = true
is_empty (c ∷ cs) = false

-- What the response says beside the request's headers. `extra` ends its lines itself.
pub record Reply : Type 0 where
  pub status : ℕ
  pub reason : List ℕ
  pub extra : List ℕ
  pub body : List ℕ

unfoldable pub via_lines : List (List ℕ) → List (List ℕ)
via_lines [] = []
via_lines (v ∷ vs) = field (codes "Via:") v ∷ via_lines vs

-- The To header, with the tag that `make_tag` gives when the request has none.
abbrev pub to_value : Message → List ℕ → List ℕ
to_value m tag = if is_empty m.to_tag then m.to ++ (codes ";tag=" ++ tag) else m.to

-- The texts that the calls of `snprintf` print, in order: up to the headers of the request, and behind
-- them.
abbrev pub head_lines : Message → List ℕ → Reply → List (List ℕ)
head_lines m tag r =
    (codes "SIP/2.0 " ++ (dec r.status ++ 32 ∷ (r.reason ++ eol))) ∷ via_lines m.via
    ++ field (codes "From:") m.from
      ∷ field (codes "To:") (to_value m tag)
      ∷ field (codes "Call-ID:") m.call_id
      ∷ field (codes "CSeq:") m.cseq
      ∷ []

abbrev pub tail_lines : Reply → List (List ℕ)
tail_lines r =
    given (not (is_empty r.extra)) r.extra
    ++ (field (codes "Server:") (codes "SoftmodemSIP/1.0")
        ∷ (given (not (is_empty r.body)) (field (codes "Content-Type:") (codes "application/sdp"))
            ++ (field (codes "Content-Length:") (dec (length r.body)) ++ eol) ∷ []))

-- `build_response`, with the bytes that are copied to `out`, which is as long as `buf`.
unfoldable pub build_response : Message → List ℕ → Reply → Buffer
unfolding print_all copy_body via_lines
build_response m tag r =
    let b = print_all (head_lines m tag r ++ tail_lines r) empty in
    if is_empty r.body then b else copy_body r.body b

unfoldable pub sent_bytes : Buffer → List ℕ
sent_bytes b = take (min b.n size) b.chars
