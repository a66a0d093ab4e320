-- ===== src/Sip/Response/Fields.antt =====
-- The header lines of a response, and what `parse_sip` stores of each.
use v34_working.Base.{
  ℕ, ◌^◌, ◌<◌, refl, ap, ◌∙◌, List, [], ◌∷◌, ◌++◌, ltb, length, if◌then◌else◌, arith, codes, atoi,
  atoi-dec, atoi_space, dec, atoi,
}
use v34_working.Sip.Text.{
  Message, Header, store_header, max_vias, extract_tag, try_headers, strip_name, after_space,
  method_of, take_header,
}
use v34_working.Sip.Response.Lines.{IsRead, crlf, header_line-begins}
use v34_working.Sip.Response.Values.{IsValue, value_behind, field-IsRead, IsPlain-dec}

-- What each line of a response does to a message.
abbrev pub put_via : List ℕ → Message → Message
put_via v m = if ltb (length m.via) max_vias then record m { via = m.via ++ v ∷ [] } else m

abbrev pub put_from : List ℕ → Message → Message
put_from v m = record m { from = v; from_tag = extract_tag v 64 }

abbrev pub put_to : List ℕ → Message → Message
put_to v m = record m { to = v; to_tag = extract_tag v 64 }

abbrev pub put_call_id : List ℕ → Message → Message
put_call_id v m = record m { call_id = v }

abbrev pub put_cseq : List ℕ → Message → Message
put_cseq v m = record m {
  cseq = v;
  cseq_num = atoi v;
  cseq_method = method_of m.cseq_method (after_space v);
}

abbrev pub put_contact : List ℕ → Message → Message
put_contact v m = record m { contact = v }

abbrev pub put_type : List ℕ → Message → Message
put_type v m = record m { content_type = v }

abbrev pub put_length : ℕ → Message → Message
put_length n m = record m { content_length = n }

abbrev pub same : Message → Message
same m = m

pub via-IsRead : (v : List ℕ) → IsValue 320 v → IsRead (codes "Via:" ++ 32 ∷ v) (put_via v)
unfolding store_header
via-IsRead v k =
    field-IsRead Header.via (codes "Via:") v (put_via v) refl (omega arith) (omega arith) k.plain
      (λ rest m. ap (λ x. put_via x m) (value_behind v rest 320 k))

pub from-IsRead : (v : List ℕ) → IsValue 320 v → IsRead (codes "From:" ++ 32 ∷ v) (put_from v)
unfolding store_header
from-IsRead v k =
    field-IsRead Header.from (codes "From:") v (put_from v) refl (omega arith) (omega arith) k.plain
      (λ rest m. ap (λ x. put_from x m) (value_behind v rest 320 k))

pub to-IsRead : (v : List ℕ) → IsValue 320 v → IsRead (codes "To:" ++ 32 ∷ v) (put_to v)
unfolding store_header
to-IsRead v k =
    field-IsRead Header.to (codes "To:") v (put_to v) refl (omega arith) (omega arith) k.plain
      (λ rest m. ap (λ x. put_to x m) (value_behind v rest 320 k))

pub call_id-IsRead :
    (v : List ℕ) → IsValue 256 v → IsRead (codes "Call-ID:" ++ 32 ∷ v) (put_call_id v)
unfolding store_header
call_id-IsRead v k =
    field-IsRead Header.call_id (codes "Call-ID:") v (put_call_id v) refl (omega arith)
      (omega arith) k.plain (λ rest m. ap (λ x. put_call_id x m) (value_behind v rest 256 k))

pub cseq-IsRead : (v : List ℕ) → IsValue 64 v → IsRead (codes "CSeq:" ++ 32 ∷ v) (put_cseq v)
unfolding store_header
cseq-IsRead v k =
    field-IsRead Header.cseq (codes "CSeq:") v (put_cseq v) refl (omega arith) (omega arith) k.plain
      (λ rest m. ap (λ x. put_cseq x m) (value_behind v rest 64 k))

pub contact-IsRead :
    (v : List ℕ) → IsValue 320 v → IsRead (codes "Contact:" ++ 32 ∷ v) (put_contact v)
unfolding store_header
contact-IsRead v k =
    field-IsRead Header.contact (codes "Contact:") v (put_contact v) refl (omega arith)
      (omega arith) k.plain (λ rest m. ap (λ x. put_contact x m) (value_behind v rest 320 k))

pub type-IsRead :
    (v : List ℕ) → IsValue 64 v → IsRead (codes "Content-Type:" ++ 32 ∷ v) (put_type v)
unfolding store_header
type-IsRead v k =
    field-IsRead Header.content_type (codes "Content-Type:") v (put_type v) refl (omega arith)
      (omega arith) k.plain (λ rest m. ap (λ x. put_type x m) (value_behind v rest 64 k))

pub length-IsRead :
    (n : ℕ) → n < 10 ^ 9 → IsRead (codes "Content-Length:" ++ 32 ∷ dec n) (put_length n)
unfolding store_header
length-IsRead n h =
    field-IsRead Header.content_length (codes "Content-Length:") (dec n) (put_length n) refl
      (omega arith) (omega arith) (IsPlain-dec n)
      (λ rest m.
        ap (λ x. put_length x m)
          (atoi_space (dec n ++ crlf rest) ∙ atoi-dec n 13 (10 ∷ rest) h refl))

-- No header that is read has this name.
pub server-IsRead : IsRead (codes "Server: SoftmodemSIP/1.0") same
unfolding try_headers take_header strip_name
server-IsRead = record {
  plain = omega arith;
  begins = omega arith;
  stores = λ rest body m. header_line-begins 83 _ body m (omega arith) (omega arith);
}
