-- ===== src/Sip/Response/RoundTrip.antt =====
-- A response as the other end reads it: `parse_sip` on what `build_response` has written.
use v34_working.Base.{
  ℕ, suc, ◌≤◌, ◌<◌, ◌≡◌, refl, sym, ap, subst, ◌∙◌, List, [], ◌∷◌, ◌++◌, append_assoc, Bool, true,
  false, Option, none, some, length, length-append, take, take-all, arith, All, codes, atoi,
  atoi-dec, dec,
}
use v34_working.Sip.Text.{Message, max_vias}
use v34_working.Sip.Text.Fits.{Fits}
use v34_working.Sip.Parse.{parse_sip, kept}
use v34_working.Sip.Response.{Reply, is_empty, to_value, build_response, sent_bytes}
use v34_working.Sip.Response.Weight.{IsShort, length-dec}
use v34_working.Sip.Response.Whole.{sent_bytes-build_response}
use v34_working.Sip.Response.Lines.{IsPlain, IsPlain-append, AreRead, run}
use v34_working.Sip.Response.Values.{IsValue, IsPlain-dec}
use v34_working.Sip.Response.Fields.{
  from-IsRead, to-IsRead, call_id-IsRead, cseq-IsRead, contact-IsRead, type-IsRead, length-IsRead,
  server-IsRead,
}
use v34_working.Sip.Response.Answer.{answer, with_body, status_message, parse_sip-lines}
use v34_working.Sip.Text.{trim_end, trim_start, until}
use v34_working.Sip.Response.Effects.{
  run-append, run-via_effects, AreRead-append, via_effects-AreRead, via_effects, own_effects,
  contact_effects, type_effects, end_effects, effects, reply, response_text-unlines,
}

abbrev pub ContactIsValue : Option (List ℕ) → Type 0
ContactIsValue none = Unit {0}
ContactIsValue (some v) = IsValue 320 v

-- What a response repeats of its request can be read back: it is as `copy_line_value` leaves it.
pub record IsReadable (m : Message) (tag : List ℕ) : Type 0 where
  pub vias : All (IsValue 320) m.via
  pub from : IsValue 320 m.from
  pub to : IsValue 320 (to_value m tag)
  pub call_id : IsValue 256 m.call_id
  pub cseq : IsValue 64 m.cseq

-- So can what it says itself.
pub record IsSayable (status : ℕ) (reason : List ℕ) (contact : Option (List ℕ)) : Type 0 where
  pub code : status < 1000
  pub phrase : IsPlain reason
  pub further : ContactIsValue contact

contact_effects-AreRead : (o : Option (List ℕ)) → ContactIsValue o → AreRead (contact_effects o)
contact_effects-AreRead none k = tt
contact_effects-AreRead (some v) k = (contact-IsRead v k, tt)

sdp_type : IsValue 64 (codes "application/sdp")
unfolding trim_end trim_start until
sdp_type = record {
  plain = omega arith;
  ended = refl;
  started = refl;
  string = refl;
  fits = omega arith;
}

type_effects-AreRead : (b : Bool) → AreRead (type_effects b)
type_effects-AreRead true = tt
type_effects-AreRead false = (type-IsRead (codes "application/sdp") sdp_type, tt)

effects-AreRead :
    (m : Message) (tag : List ℕ) (contact : Option (List ℕ)) (body : List ℕ)
    → length body < 512
    → IsReadable m tag
    → ContactIsValue contact
    → AreRead (effects m tag contact body)
effects-AreRead m tag contact body h k c =
    AreRead-append (via_effects m.via) _ (via_effects-AreRead m.via k.vias) (
      AreRead-append (own_effects m tag) _
        (
          from-IsRead m.from k.from,
          (
            to-IsRead (to_value m tag) k.to,
            (call_id-IsRead m.call_id k.call_id, (cseq-IsRead m.cseq k.cseq, tt)),
          ),
        )
        (AreRead-append (contact_effects contact) _ (contact_effects-AreRead contact c) (
          server-IsRead,
          AreRead-append (type_effects (is_empty body)) _ (type_effects-AreRead (is_empty body))
              (length-IsRead (length body) (omega arith), tt),
        )))

-- What the lines behind CSeq leave, and the length that they give.
record Kept (n : ℕ) (m m' : Message) : Type 0 where
  is_response : m'.is_response ≡ m.is_response
  status : m'.status ≡ m.status
  via : m'.via ≡ m.via
  from : m'.from ≡ m.from
  to : m'.to ≡ m.to
  call_id : m'.call_id ≡ m.call_id
  cseq : m'.cseq ≡ m.cseq
  content_length : m'.content_length ≡ n

others-Kept :
    (n : ℕ) (contact type : List ℕ) (m : Message)
    → Kept n m (record m { contact = contact; content_type = type; content_length = n })
others-Kept n contact type m = record {
  is_response = refl;
  status = refl;
  via = refl;
  from = refl;
  to = refl;
  call_id = refl;
  cseq = refl;
  content_length = refl;
}

end-Kept :
    (contact : Option (List ℕ)) (body : List ℕ) (m : Message)
    → Kept (length body) m (run (contact_effects contact ++ end_effects body) m)
end-Kept none [] m = others-Kept 0 m.contact m.content_type m
end-Kept none (c ∷ cs) m = others-Kept (suc (length cs)) m.contact (codes "application/sdp") m
end-Kept (some v) [] m = others-Kept 0 v m.content_type m
end-Kept (some v) (c ∷ cs) m = others-Kept (suc (length cs)) v (codes "application/sdp") m

-- A body is kept whole when its length is given.
kept-length : (body : List ℕ) → length body < 512 → take (kept body (length body)) body ≡ body
kept-length body h = take-all (kept body (length body)) body (ground arith)

-- The message that a response is read as.
pub record Matches (m : Message) (to_text : List ℕ) (r : Reply) (m' : Message) : Type 0 where
  pub is_response : m'.is_response ≡ true
  pub status : m'.status ≡ some r.status
  pub via : m'.via ≡ m.via
  pub from : m'.from ≡ m.from
  pub to : m'.to ≡ to_text
  pub call_id : m'.call_id ≡ m.call_id
  pub cseq : m'.cseq ≡ m.cseq
  pub body : m'.body ≡ r.body

module _ (m : Message) (tag : List ℕ) (status : ℕ) (reason : List ℕ) (contact : Option (List ℕ))
    (body : List ℕ) where
  answer-Matches :
      length m.via ≤ max_vias
      → length body < 512
      → status < 1000
      → Matches m
          (to_value m tag)
          (reply status reason contact body)
          (answer (dec status ++ 32 ∷ reason) (effects m tag contact body) body)
  answer-Matches few small code =
      let t = (dec status ++ 32 ∷ reason) ++ 13 ∷ [] in
      let first = record (status_message t) { via = m.via } in
      let own = run (own_effects m tag) first in
      let behind = contact_effects contact ++ end_effects body in
      let k = end-Kept contact body own in
      let e : run (effects m tag contact body) (status_message t) ≡ run behind own =
        run-append (via_effects m.via) (own_effects m tag ++ behind) (status_message t)
        ∙ ap (run (own_effects m tag ++ behind))
            (run-via_effects m.via (status_message t) (omega (arith, few))) in
      subst (λ x. Matches m (to_value m tag) (reply status reason contact body) (with_body body x))
        (sym e)
        (record {
          is_response = k.is_response;
          status =
              k.status
              ∙ ap some (
                  ap atoi (append_assoc (dec status) (32 ∷ reason) (13 ∷ []))
                  ∙ atoi-dec status 32 (reason ++ 13 ∷ []) (omega (arith, code)) refl);
          via = k.via;
          from = k.from;
          to = k.to;
          call_id = k.call_id;
          cseq = k.cseq;
          body = ap (λ n. take (kept body n) body) k.content_length ∙ kept-length body small;
        })

  -- The other end reads in a response to a request, with or without a Contact and a body: that it is a
  -- response, its status, the request's Via headers, From, Call-ID and CSeq, the To with its tag, and the
  -- body. The request's values are within their arrays and as `copy_line_value` leaves them, and
  -- the To with the tag that is added to it is too; the reason has 32 characters at most, and a
  -- Contact line and a body fit into arrays of 512.
  pub parse_sip-build_response :
      Fits m
      → IsShort (reply status reason contact body)
      → length tag ≡ 16
      → IsReadable m tag
      → IsSayable status reason contact
      → Matches m
          (to_value m tag)
          (reply status reason contact body)
          (parse_sip (sent_bytes (build_response m tag (reply status reason contact body))))
  parse_sip-build_response v s e k y =
      let r = reply status reason contact body in
      let t = dec status ++ 32 ∷ reason in
      let p =
        ap parse_sip (
          sent_bytes-build_response m tag r v s e
          ∙ response_text-unlines m tag status reason contact body)
        ∙ parse_sip-lines t (effects m tag contact body) body
            (IsPlain-append (dec status) (32 ∷ reason) (IsPlain-dec status)
              ((λ z. absurd (omega (arith, z))), y.phrase))
            (omega (arith, length-append (dec status) (32 ∷ reason), length-dec status, s.reason))
            (effects-AreRead m tag contact body s.body k y.further) in
      subst (Matches m (to_value m tag) r) (sym p) (answer-Matches v.vias s.body y.code)
