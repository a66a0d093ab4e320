-- ===== src/Sip/Response/Effects.antt =====
-- The lines of a response, and what `parse_sip` makes of them.
use v34_working.Base.{
  ℕ, ◌+◌, ◌≤◌, ◌≡◌, refl, sym, ap, ◌∙◌, List, [], ◌∷◌, ◌++◌, append_assoc, append-nil, Bool, true,
  false, Option, none, some, ltb, length, length-append, if_true, lt→ltb, arith, All, codes, dec,
}
use v34_working.Sip.Text.{Message, max_vias}
use v34_working.Sip.Response.{Reply, field, is_empty, via_lines, to_value, tail_lines, eol}
use v34_working.Sip.Response.Weight.{joined}
use v34_working.Sip.Response.Whole.{response_text}
use v34_working.Sip.Response.Lines.{AreRead, Effects, unlines, run, crlf}
use v34_working.Sip.Response.Values.{IsValue}
use v34_working.Sip.Response.Fields.{
  put_via, put_from, put_to, put_call_id, put_cseq, put_contact, put_type, put_length, same,
  via-IsRead,
}

-- The lines of a response with what is made of each.
abbrev pub via_effects : List (List ℕ) → Effects
via_effects [] = []
via_effects (v ∷ vs) = (codes "Via:" ++ 32 ∷ v, put_via v) ∷ via_effects vs

abbrev pub own_effects : Message → List ℕ → Effects
own_effects m tag =
    (codes "From:" ++ 32 ∷ m.from, put_from m.from)
    ∷ (codes "To:" ++ 32 ∷ to_value m tag, put_to (to_value m tag))
    ∷ (codes "Call-ID:" ++ 32 ∷ m.call_id, put_call_id m.call_id)
    ∷ (codes "CSeq:" ++ 32 ∷ m.cseq, put_cseq m.cseq)
    ∷ []

-- The further headers: none, or a Contact.
abbrev pub contact_line : Option (List ℕ) → List ℕ
contact_line none = []
contact_line (some v) = field (codes "Contact:") v

abbrev pub contact_effects : Option (List ℕ) → Effects
contact_effects none = []
contact_effects (some v) = (codes "Contact:" ++ 32 ∷ v, put_contact v) ∷ []

abbrev pub type_effects : Bool → Effects
type_effects true = []
type_effects false =
    (codes "Content-Type:" ++ 32 ∷ codes "application/sdp", put_type (codes "application/sdp")) ∷ []

abbrev pub end_effects : List ℕ → Effects
end_effects body =
    (codes "Server: SoftmodemSIP/1.0", same)
    ∷ (type_effects (is_empty body)
        ++ (codes "Content-Length:" ++ 32 ∷ dec (length body), put_length (length body)) ∷ [])

abbrev pub effects : Message → List ℕ → Option (List ℕ) → List ℕ → Effects
effects m tag contact body =
    via_effects m.via ++ (own_effects m tag ++ (contact_effects contact ++ end_effects body))

joined-append :
    (ts us : List (List ℕ)) (rest : List ℕ)
    → joined (ts ++ us) ++ rest ≡ joined ts ++ (joined us ++ rest)
joined-append [] us rest = refl
joined-append (t ∷ ts) us rest =
    append_assoc t (joined (ts ++ us)) rest
    ∙ ap (λ l. t ++ l) (joined-append ts us rest)
    ∙ sym (append_assoc t (joined ts) (joined us ++ rest))

unlines-append :
    (ls ms : Effects) (rest : List ℕ) → unlines (ls ++ ms) rest ≡ unlines ls (unlines ms rest)
unlines-append [] ms rest = refl
unlines-append ((l, f) ∷ ls) ms rest = ap (λ x. l ++ crlf x) (unlines-append ls ms rest)

field-crlf : (name v rest : List ℕ) → field name v ++ rest ≡ (name ++ 32 ∷ v) ++ crlf rest
field-crlf name v rest = simp (append_assoc)

joined-via_lines :
    (vs : List (List ℕ)) (rest : List ℕ)
    → joined (via_lines vs) ++ rest ≡ unlines (via_effects vs) rest
unfolding via_lines
joined-via_lines [] rest = refl
joined-via_lines (v ∷ vs) rest =
    append_assoc (field (codes "Via:") v) (joined (via_lines vs)) rest
    ∙ field-crlf (codes "Via:") v (joined (via_lines vs) ++ rest)
    ∙ ap (λ x. (codes "Via:" ++ 32 ∷ v) ++ crlf x) (joined-via_lines vs rest)

abbrev pub own_lines : Message → List ℕ → List (List ℕ)
own_lines m tag =
    field (codes "From:") m.from
    ∷ field (codes "To:") (to_value m tag)
    ∷ field (codes "Call-ID:") m.call_id
    ∷ field (codes "CSeq:") m.cseq
    ∷ []

joined-own :
    (m : Message) (tag rest : List ℕ)
    → joined (own_lines m tag) ++ rest ≡ unlines (own_effects m tag) rest
joined-own m tag rest = simp (append_assoc, append-nil)

-- A reply with a Contact or none.
abbrev pub reply : ℕ → List ℕ → Option (List ℕ) → List ℕ → Reply
reply status reason contact body = record {
  status = status;
  reason = reason;
  extra = contact_line contact;
  body = body;
}

joined-tail :
    (status : ℕ) (reason : List ℕ) (contact : Option (List ℕ)) (body rest : List ℕ)
    → joined (tail_lines (reply status reason contact body)) ++ rest
      ≡ unlines (contact_effects contact ++ end_effects body) (crlf rest)
joined-tail status reason none [] rest = simp (append_assoc, append-nil)
joined-tail status reason none (c ∷ cs) rest = simp (append_assoc, append-nil)
joined-tail status reason (some v) [] rest = simp (append_assoc, append-nil)
joined-tail status reason (some v) (c ∷ cs) rest = simp (append_assoc, append-nil)

joined-status :
    (status : ℕ) (reason rest : List ℕ)
    → (codes "SIP/2.0 " ++ (dec status ++ 32 ∷ (reason ++ eol))) ++ rest
      ≡ (codes "SIP/2.0 " ++ (dec status ++ 32 ∷ reason)) ++ crlf rest
joined-status status reason rest = simp (append_assoc)

-- The response as its lines.
pub response_text-unlines :
    (m : Message) (tag : List ℕ) (status : ℕ) (reason : List ℕ) (contact : Option (List ℕ))
    (body : List ℕ)
    → response_text m tag (reply status reason contact body)
      ≡ (codes "SIP/2.0 " ++ (dec status ++ 32 ∷ reason))
        ++ crlf (unlines (effects m tag contact body) (crlf body))
response_text-unlines m tag status reason contact body =
    let first = codes "SIP/2.0 " ++ (dec status ++ 32 ∷ (reason ++ eol)) in
    let t = codes "SIP/2.0 " ++ (dec status ++ 32 ∷ reason) in
    let vias = via_lines m.via in
    let tail = tail_lines (reply status reason contact body) in
    let behind = contact_effects contact ++ end_effects body in
    let x = unlines behind (crlf body) in
    let y = unlines (own_effects m tag) x in
    joined-append ((first ∷ vias) ++ own_lines m tag) tail body
    ∙ ap (λ l. joined ((first ∷ vias) ++ own_lines m tag) ++ l)
        (joined-tail status reason contact body body)
    ∙ joined-append (first ∷ vias) (own_lines m tag) x
    ∙ ap (λ l. joined (first ∷ vias) ++ l) (joined-own m tag x)
    ∙ append_assoc first (joined vias) y
    ∙ ap (λ l. first ++ l) (joined-via_lines m.via y)
    ∙ joined-status status reason (unlines (via_effects m.via) y)
    ∙ ap (λ l. t ++ crlf l)
        (sym (
          unlines-append (via_effects m.via) (own_effects m tag ++ behind) (crlf body)
          ∙ ap (unlines (via_effects m.via))
              (unlines-append (own_effects m tag) behind (crlf body))))

pub AreRead-append : (ls ms : Effects) → AreRead ls → AreRead ms → AreRead (ls ++ ms)
AreRead-append [] ms r q = q
AreRead-append ((l, f) ∷ ls) ms (k, r) q = (k, AreRead-append ls ms r q)

pub run-append : (ls ms : Effects) (m : Message) → run (ls ++ ms) m ≡ run ms (run ls m)
run-append [] ms m = refl
run-append ((l, f) ∷ ls) ms m = run-append ls ms (f m)

pub run-via_effects :
    (vs : List (List ℕ)) (m : Message)
    → length m.via + length vs ≤ max_vias
    → run (via_effects vs) m ≡ record m { via = m.via ++ vs }
run-via_effects [] m h = ap (λ l. record m { via = l }) (sym (append-nil m.via))
run-via_effects (v ∷ vs) m h =
    let m' = record m { via = m.via ++ v ∷ [] } in
    ap (run (via_effects vs))
      (if_true (ltb (length m.via) max_vias) m' m (lt→ltb _ _ (omega arith)))
    ∙ run-via_effects vs m' (omega (arith, length-append m.via (v ∷ [])))
    ∙ ap (λ l. record m { via = l }) (append_assoc m.via (v ∷ []) vs)

pub via_effects-AreRead : (vs : List (List ℕ)) → All (IsValue 320) vs → AreRead (via_effects vs)
via_effects-AreRead [] all = tt
via_effects-AreRead (v ∷ vs) (k, all) = (via-IsRead v k, via_effects-AreRead vs all)
