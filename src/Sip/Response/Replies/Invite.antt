-- ===== src/Sip/Response/Replies/Invite.antt =====
-- The 200 of `handle_invite`, as the caller reads it.
use v34_working.Base.{
  ℕ, zero, suc, ◌+◌, ◌/◌, ◌%◌, ◌^◌, ◌≤◌, ◌<◌, ◌≡◌, refl, sym, ap, ap₂, ◌∙◌, subst, List, [], ◌∷◌,
  ◌++◌, false, some, ◌==◌, ltb, if-Has, length, length-append, take-all, append_assoc, arith, codes,
  dec, dec_from,
}
use v34_working.Sip.Text.{Message, c_string, until, trim_end, trim_start}
use v34_working.Sip.Text.Fits.{Fits}
use v34_working.Sip.Parse.{parse_sip, extract_sdp}
use v34_working.Sip.Response.{field, build_response, sent_bytes, to_value}
use v34_working.Sip.Response.Weight.{IsShort, length-dec}
use v34_working.Sip.Response.Lines.{IsPlain-append}
use v34_working.Sip.Response.Values.{IsValue, IsPlain-dec}
use v34_working.Sip.Response.Effects.{reply}
use v34_working.Sip.Response.RoundTrip.{IsReadable, IsSayable, Matches, parse_sip-build_response}
use v34_working.Sip.Response.Replies.{sdp_text, own_contact, invite_reply}
use v34_working.Sip.Response.Replies.Sdp.{extract_sdp-sdp_text}

c_string-tail :
    (c : ℕ) (cs : List ℕ) → c_string (c ∷ cs) ≡ c ∷ cs → ((c == 0) ≡ false) × (c_string cs ≡ cs)
unfolding until
c_string-tail c cs e = ground (arith, e)

c_string-append :
    (xs ys : List ℕ) → c_string xs ≡ xs → c_string ys ≡ ys → c_string (xs ++ ys) ≡ xs ++ ys
unfolding until
c_string-append [] ys e f = f
c_string-append (x ∷ xs) ys e f =
    let (n, t) = c_string-tail x xs e in rw n (ap (λ l. x ∷ l) (c_string-append xs ys t f))

c_string-digit : (d : ℕ) → c_string ((48 + d) ∷ []) ≡ (48 + d) ∷ []
unfolding until
c_string-digit d = ground arith

c_string-dec_from : (more n : ℕ) → c_string (dec_from more n) ≡ dec_from more n
unfolding dec_from
c_string-dec_from zero n = c_string-digit (n % 10)
c_string-dec_from (suc more) n =
    let front = dec_from more (n / 10) in
    if-Has (λ l. c_string l ≡ l) (ltb n 10) ((48 + n) ∷ []) (front ++ (48 + n % 10) ∷ [])
      (λ _. c_string-digit n)
      (λ _. c_string-append front _ (c_string-dec_from more (n / 10)) (c_string-digit (n % 10)))

c_string-dec : (n : ℕ) → c_string (dec n) ≡ dec n
unfolding dec
c_string-dec n = c_string-dec_from 9 n

-- A text that ends in `>` has no blank at its end.
trim_end-closed :
    (xs : List ℕ)
    → (trim_end (xs ++ 62 ∷ []) ≡ xs ++ 62 ∷ []) × ((length (xs ++ 62 ∷ []) == 0) ≡ false)
unfolding trim_end
trim_end-closed [] = (refl, refl)
trim_end-closed (x ∷ xs) = ground (arith, trim_end-closed xs)

-- The Contact of an agent whose address is a value.
module _ (ip : List ℕ) (port : ℕ) (k : IsValue 64 ip) where
  closed : own_contact ip port ≡ (codes "<sip:modem@" ++ (ip ++ 58 ∷ dec port)) ++ 62 ∷ []
  closed = simp (append_assoc)

  length-own_contact : length (own_contact ip port) ≤ 90
  length-own_contact = omega (
    arith,
    k.fits,
    length-append ip (58 ∷ (dec port ++ 62 ∷ [])),
    length-append (dec port) (62 ∷ []),
    length-dec port,
  )

  own_contact-IsValue : IsValue 320 (own_contact ip port)
  unfolding trim_start until
  own_contact-IsValue = record {
    plain = IsPlain-append (codes "<sip:modem@") _ (omega arith) (
        IsPlain-append ip _ k.plain (
          (λ e. absurd (omega (arith, e))),
          IsPlain-append (dec port) (62 ∷ []) (IsPlain-dec port) (omega arith),
        ));
    ended =
        ap trim_end closed
        ∙ (trim_end-closed (codes "<sip:modem@" ++ (ip ++ 58 ∷ dec port))).0
        ∙ sym closed;
    started = refl;
    string = c_string-append (codes "<sip:modem@") _ refl (
        c_string-append ip _ k.string (
          c_string-append (58 ∷ []) _ refl
            (c_string-append (dec port) (62 ∷ []) (c_string-dec port) refl)));
    fits = omega (arith, length-own_contact);
  }

  length-contact_line : length (field (codes "Contact:") (own_contact ip port)) < 512
  length-contact_line =
      omega (arith, length-own_contact, length-append (own_contact ip port) (13 ∷ 10 ∷ []))

  length-sdp_text : (id version rtp_port : ℕ) → length (sdp_text id version ip rtp_port) < 512
  length-sdp_text id version rtp_port = omega (arith, length-append {0}, length-dec, k.fits)

  -- Nothing of the 200 is cut off by its arrays.
  invite_reply-reply :
      (id version rtp_port : ℕ)
      → invite_reply ip port id version rtp_port
        ≡ reply 200 (codes "OK") (some (own_contact ip port)) (sdp_text id version ip rtp_port)
  unfolding invite_reply
  invite_reply-reply id version rtp_port =
      ap₂ (λ e b. record { status = 200; reason = codes "OK"; extra = e; body = b })
        (take-all 511 (field (codes "Contact:") (own_contact ip port))
          (omega (arith, length-contact_line)))
        (take-all 511 (sdp_text id version ip rtp_port)
          (omega (arith, length-sdp_text id version rtp_port)))

  invite_reply-IsShort :
      (id version rtp_port : ℕ)
      → IsShort
          (reply 200 (codes "OK") (some (own_contact ip port)) (sdp_text id version ip rtp_port))
  invite_reply-IsShort id version rtp_port = record {
    reason = omega arith;
    extra = length-contact_line;
    body = length-sdp_text id version rtp_port;
  }

  -- What the caller reads in the 200 to its INVITE, when the request's values are within their arrays
  -- and as `copy_line_value` leaves them: its own Via headers, From, Call-ID and CSeq, the To with
  -- its tag, and in the SDP the agent's address and its RTP port, with the payload type 0.
  pub invite_reply_lem :
      (m : Message) (tag : List ℕ) (id version rtp_port : ℕ)
      → Fits m
      → length tag ≡ 16
      → IsReadable m tag
      → rtp_port < 2 ^ 16
      → let r = invite_reply ip port id version rtp_port in
        let m' = parse_sip (sent_bytes (build_response m tag r)) in
        Matches m (to_value m tag) r m'
        × (extract_sdp m'.body ≡ record { ip = ip; port = rtp_port; pt = 0 })
  invite_reply_lem m tag id version rtp_port v e readable small =
      let text = sdp_text id version ip rtp_port in
      let r = reply 200 (codes "OK") (some (own_contact ip port)) text in
      let says : IsSayable 200 (codes "OK") (some (own_contact ip port)) = record {
        code = omega arith;
        phrase = omega arith;
        further = own_contact-IsValue;
      } in
      let matches =
        parse_sip-build_response m tag 200 (codes "OK") (some (own_contact ip port)) text v
          (invite_reply-IsShort id version rtp_port) e readable says in
      subst
        (λ x.
          Matches m (to_value m tag) x (parse_sip (sent_bytes (build_response m tag x)))
          × (extract_sdp (parse_sip (sent_bytes (build_response m tag x))).body
              ≡ record { ip = ip; port = rtp_port; pt = 0 }))
        (sym (invite_reply-reply id version rtp_port))
        (
          matches,
          ap extract_sdp matches.body
              ∙ extract_sdp-sdp_text ip rtp_port k (omega (arith, small)) id version,
        )
