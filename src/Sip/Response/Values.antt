-- ===== src/Sip/Response/Values.antt =====
-- The values of a response's headers, as `copy_line_value` reads them back.
use v34_working.Base.{
  ℕ, zero, suc, ◌+◌, ◌-◌, ◌/◌, ◌%◌, ◌<◌, ◌≡◌, refl, sym, ap, ◌∙◌, List, [], ◌∷◌, ◌++◌, map,
  append_assoc, length, take, take-all, if-Has, arith, lower, inl, ltb, dec, dec_from,
}
use v34_working.Sip.Text.{
  Message, Header, c_string, line_of, trim_end, trim_start, copy_line_value, store_header,
  try_headers, all_headers, name_of,
}
use v34_working.Sip.Text.Names.{try_headers_lem}
use v34_working.Sip.Response.Lines.{
  IsPlain, Begins, IsRead, crlf, line_of-plain, IsPlain-append, header_line-begins,
}

-- A value as `copy_line_value` leaves one in an array of this size.
pub record IsValue (size : ℕ) (v : List ℕ) : Type 0 where
  pub plain : IsPlain v
  pub ended : trim_end v ≡ v
  pub started : trim_start v ≡ v
  pub string : c_string v ≡ v
  pub fits : length v < size

trim_end-tail : (c : ℕ) (cs : List ℕ) → trim_end (c ∷ cs) ≡ c ∷ cs → trim_end cs ≡ cs
unfolding trim_end
trim_end-tail c cs e = ground (arith, e)

trim_end-cr : (v : List ℕ) → trim_end v ≡ v → trim_end (v ++ 13 ∷ []) ≡ v
unfolding trim_end
trim_end-cr [] e = refl
trim_end-cr (c ∷ cs) e =
    ground (arith, e, trim_end-tail c cs e, trim_end-cr cs (trim_end-tail c cs e))

-- A space before the value is left out as well.
trim_space :
    (v : List ℕ) → trim_end v ≡ v → trim_start v ≡ v → trim_start (trim_end (32 ∷ v ++ 13 ∷ [])) ≡ v
unfolding trim_end trim_start
trim_space [] e f = refl
trim_space (c ∷ cs) e f = ground (arith, f, trim_end-cr (c ∷ cs) e)

copy_line_value-space :
    (v : List ℕ) (size : ℕ) → IsValue size v → copy_line_value (32 ∷ v ++ 13 ∷ []) size ≡ v
unfolding copy_line_value
copy_line_value-space v size k =
    ap (λ t. c_string (take (size - 1) t)) (trim_space v k.ended k.started)
    ∙ ap c_string (take-all (size - 1) v (omega (arith, k.fits)))
    ∙ k.string

-- The value that stands behind the name of a header.
pub value_behind :
    (v rest : List ℕ) (size : ℕ)
    → IsValue size v
    → copy_line_value (line_of (32 ∷ v ++ crlf rest)) size ≡ v
value_behind v rest size k =
    ap (λ t. copy_line_value (line_of t) size) (sym (append_assoc (32 ∷ v) (13 ∷ []) (10 ∷ rest)))
    ∙ ap (λ t. copy_line_value t size)
        (line_of-plain (32 ∷ v ++ 13 ∷ []) rest (
          IsPlain-append (32 ∷ v) (13 ∷ []) ((λ e. absurd (omega (arith, e))), k.plain)
            ((λ e. absurd (omega (arith, e))), tt)))
    ∙ copy_line_value-space v size k

-- A value that begins at once.
pub value_at :
    (v rest : List ℕ) (size : ℕ)
    → IsValue size v
    → copy_line_value (line_of (v ++ crlf rest)) size ≡ v
unfolding copy_line_value
value_at v rest size k =
    ap (λ t. copy_line_value (line_of t) size) (sym (append_assoc v (13 ∷ []) (10 ∷ rest)))
    ∙ ap (λ t. copy_line_value t size)
        (line_of-plain (v ++ 13 ∷ []) rest
          (IsPlain-append v (13 ∷ []) k.plain ((λ e. absurd (omega (arith, e))), tt)))
    ∙ ap (λ t. c_string (take (size - 1) t)) (ap trim_start (trim_end-cr v k.ended) ∙ k.started)
    ∙ ap c_string (take-all (size - 1) v (omega (arith, k.fits)))
    ∙ k.string

regroup :
    (raw v rest body : List ℕ)
    → ((raw ++ 32 ∷ v) ++ crlf rest) ++ body ≡ raw ++ 32 ∷ (v ++ crlf (rest ++ body))
regroup raw v rest body = simp (append_assoc)

-- A header line with a name that `parse_sip` knows.
pub field-IsRead :
    (h : Header) (raw v : List ℕ) (effect : Message → Message)
    → map lower raw ≡ name_of h
    → IsPlain raw
    → Begins raw
    → IsPlain v
    → ((rest : List ℕ) (m : Message) → store_header h (32 ∷ v ++ crlf rest) m ≡ effect m)
    → IsRead (raw ++ 32 ∷ v) effect
field-IsRead h [] v effect e p b q k = absurd b
field-IsRead h (c ∷ cs) v effect e p b q k = record {
  plain = IsPlain-append (c ∷ cs) (32 ∷ v) p ((λ z. absurd (omega (arith, z))), q);
  begins = b;
  stores = λ rest body m.
      header_line-begins c ((cs ++ 32 ∷ v) ++ crlf rest) body m b.0 b.1
      ∙ ap (λ t. try_headers all_headers t m) (regroup (c ∷ cs) v rest body)
      ∙ try_headers_lem h (c ∷ cs) (32 ∷ v ++ crlf (rest ++ body)) m (inl e)
      ∙ k (rest ++ body) m;
}

IsPlain-dec_from : (more n : ℕ) → IsPlain (dec_from more n)
unfolding dec_from
IsPlain-dec_from zero n = ((λ e. absurd (omega (arith, e))), tt)
IsPlain-dec_from (suc more) n =
    let front = dec_from more (n / 10) in
    if-Has IsPlain (ltb n 10) ((48 + n) ∷ []) (front ++ (48 + n % 10) ∷ [])
      (λ _. ((λ e. absurd (omega (arith, e))), tt))
      (λ _.
        IsPlain-append front ((48 + n % 10) ∷ []) (IsPlain-dec_from more (n / 10))
          ((λ e. absurd (omega (arith, e))), tt))

pub IsPlain-dec : (n : ℕ) → IsPlain (dec n)
unfolding dec
IsPlain-dec n = IsPlain-dec_from 9 n
