-- ===== src/Sip/Response/Replies/Sdp.antt =====
-- The SDP of the agent, as `extract_sdp` reads it at the other end.
use v34_working.Base.{
  ℕ, zero, suc, ◌+◌, ◌/◌, ◌%◌, ◌^◌, ◌<◌, ◌≡◌, ◌≢◌, refl, sym, ap, ◌∙◌, List, [], ◌∷◌, ◌++◌, false,
  none, some, ◌==◌, if_false, if-Has, ltb, arith, codes, atoi, atoi-dec, dec, dec_from, strip, find,
  or_else,
}
use v34_working.Sip.Parse.{Media, extract_sdp, sdp_scan, sdp_line, payload_type}
use v34_working.Sip.Response.Lines.{IsPlain}
use v34_working.Sip.Response.Values.{IsValue, value_at, IsPlain-dec}
use v34_working.Sip.Response.Replies.{sdp_text}

ne→==_false : (a b : ℕ) → a ≢ b → (a == b) ≡ false
ne→==_false a b h = ground arith

-- Inside a line the scan goes on.
sdp_over :
    (front rest : List ℕ) (d : Media)
    → IsPlain front
    → sdp_scan false (front ++ rest) d ≡ sdp_scan false rest d
unfolding sdp_scan
sdp_over [] rest d p = refl
sdp_over (c ∷ cs) rest d (h, p) =
    ap (λ b. sdp_scan b (cs ++ rest) d) (ne→==_false c 10 h) ∙ sdp_over cs rest d p

-- The search for RTP/AVP passes over a text without an R.
abbrev HasNoR : List ℕ → Type 0
HasNoR [] = Unit {0}
HasNoR (c ∷ cs) = (c ≢ 82) × HasNoR cs

find-behind :
    (ps front rest : List ℕ) → HasNoR front → find (82 ∷ ps) (front ++ rest) ≡ find (82 ∷ ps) rest
unfolding find strip
find-behind ps [] rest h = refl
find-behind ps (c ∷ cs) rest (h, k) =
    ap (λ o. or_else o (find (82 ∷ ps) (cs ++ rest)))
      (if_false (82 == c) _ _ (ne→==_false 82 c (λ e. h (sym e))))
    ∙ find-behind ps cs rest k

HasNoR-append : (xs ys : List ℕ) → HasNoR xs → HasNoR ys → HasNoR (xs ++ ys)
HasNoR-append [] ys p q = q
HasNoR-append (x ∷ xs) ys (h, p) q = (h, HasNoR-append xs ys p q)

HasNoR-dec_from : (more n : ℕ) → HasNoR (dec_from more n)
unfolding dec_from
HasNoR-dec_from zero n = ((λ e. absurd (omega (arith, e))), tt)
HasNoR-dec_from (suc more) n =
    let front = dec_from more (n / 10) in
    if-Has HasNoR (ltb n 10) ((48 + n) ∷ []) (front ++ (48 + n % 10) ∷ [])
      (λ e. ((λ z. absurd (ground (arith, e, z))), tt))
      (λ _.
        HasNoR-append front ((48 + n % 10) ∷ []) (HasNoR-dec_from more (n / 10))
          ((λ e. absurd (omega (arith, e))), tt))

HasNoR-dec : (n : ℕ) → HasNoR (dec n)
unfolding dec
HasNoR-dec n = HasNoR-dec_from 9 n

-- The lines behind the port.
abbrev attributes : List ℕ
attributes = codes "RTP/AVP 0\r\na=rtpmap:0 PCMU/8000\r\na=ptime:20\r\na=sendrecv\r\n"

-- The line of the port.
audio_line :
    (port : ℕ) (cs : List ℕ) (d : Media)
    → port < 10 ^ 9
    → sdp_line cs none (some (dec port ++ 32 ∷ attributes)) d ≡ record d { port = port; pt = 0 }
unfolding sdp_line atoi
audio_line port cs d h =
    ap (λ o. payload_type o (record d { port = atoi (dec port ++ 32 ∷ attributes) }))
      (find-behind (codes "TP/AVP") (dec port) (32 ∷ attributes) (HasNoR-dec port))
    ∙ ap (λ n. record d { port = n; pt = 0 }) (atoi-dec port 32 attributes h refl)

-- The lines from the address on.
abbrev from_address : List ℕ → ℕ → List ℕ
from_address ip port = ip ++ (codes "\r\nt=0 0\r\nm=audio " ++ (dec port ++ 32 ∷ attributes))

-- The lines from the times on.
abbrev from_times : ℕ → ℕ → List ℕ → ℕ → List ℕ
from_times id version ip port =
    dec id
    ++ (codes " "
        ++ (dec version
            ++ (codes " IN IP4 "
                ++ (ip ++ (codes "\r\ns=softmodem\r\nc=IN IP4 " ++ from_address ip port)))))

module _ (ip : List ℕ) (port : ℕ) (k : IsValue 64 ip) (h : port < 10 ^ 9) where
  scan_address :
      (d : Media) → sdp_scan false (from_address ip port) d ≡ record d { port = port; pt = 0 }
  unfolding sdp_scan strip
  scan_address d =
      sdp_over ip (codes "\r\nt=0 0\r\nm=audio " ++ (dec port ++ 32 ∷ attributes)) d k.plain
      ∙ ap (λ x. sdp_scan false (dec port ++ 32 ∷ attributes) x)
          (audio_line port (codes "m=audio " ++ (dec port ++ 32 ∷ attributes)) d h)
      ∙ sdp_over (dec port) (32 ∷ attributes) (record d { port = port; pt = 0 }) (IsPlain-dec port)

  scan_times :
      (id version : ℕ) (d : Media)
      → sdp_scan false (from_times id version ip port) d ≡ record { ip = ip; port = port; pt = 0 }
  unfolding sdp_scan strip sdp_line
  scan_times id version d =
      sdp_over (dec id) _ d (IsPlain-dec id)
      ∙ sdp_over (dec version) _ d (IsPlain-dec version)
      ∙ sdp_over ip _ d k.plain
      ∙ ap (λ v. sdp_scan false (from_address ip port) (record d { ip = v }))
          (value_at ip (codes "t=0 0\r\nm=audio " ++ (dec port ++ 32 ∷ attributes)) 64 k)
      ∙ scan_address (record d { ip = ip })

  pub extract_sdp-sdp_text :
      (id version : ℕ)
      → extract_sdp (sdp_text id version ip port) ≡ record { ip = ip; port = port; pt = 0 }
  unfolding extract_sdp sdp_scan strip
  extract_sdp-sdp_text id version = scan_times id version (record { ip = []; port = 0; pt = 0 })
