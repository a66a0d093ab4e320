-- ===== src/Tests/SipResponse.antt =====
-- A response at work, there and back.
use v34_working.Base.{ℕ, ◌<◌, ◌≡◌, length, refl, List, [], ◌∷◌, some, true, arith, codes}
use v34_working.Sip.Text.{Message, until, trim_end, trim_start, c_string}
use v34_working.Sip.Parse.{blank, parse_sip, extract_sdp}
use v34_working.Sip.Text.Fits.{Fits}
use v34_working.Sip.Response.{Reply, to_value, build_response, sent_bytes}
use v34_working.Sip.Response.Weight.{IsShort}
use v34_working.Sip.Response.Whole.{response_text, build_response-parse_sip}
use v34_working.Sip.Response.Lines.{IsPlain}
use v34_working.Sip.Response.Values.{IsValue}
use v34_working.Sip.Response.Effects.{reply}
use v34_working.Sip.Response.Replies.{invite_reply}
use v34_working.Sip.Response.Replies.Invite.{invite_reply_lem}
use v34_working.Sip.Response.RoundTrip.{IsReadable, IsSayable, Matches, parse_sip-build_response}

abbrev tag : List ℕ
tag = codes "0123456789abcdef"

abbrev ringing : Reply
ringing = reply 200 (codes "OK") (some (codes "<sip:modem@10.0.0.2:5060>")) (codes "v=0")

ringing-IsShort : IsShort ringing
ringing-IsShort = record { reason = omega arith; extra = omega arith; body = omega arith }

build_response-parse_sip_example :
    let m = parse_sip (codes "BYE a SIP/2.0\r\nVia: b\r\n\r\n") in
    ((build_response m tag ringing).safe ≡ true)
    × (sent_bytes (build_response m tag ringing) ≡ response_text m tag ringing)
build_response-parse_sip_example =
    build_response-parse_sip (codes "BYE a SIP/2.0\r\nVia: b\r\n\r\n") tag ringing refl
      ringing-IsShort

abbrev invitation : Message
invitation = record blank {
  via = codes "SIP/2.0/UDP a;branch=b" ∷ codes "SIP/2.0/UDP c" ∷ [];
  from = codes "<sip:a@b>;tag=1";
  to = codes "<sip:modem@c>";
  call_id = codes "7@a";
  cseq = codes "1 INVITE";
}

invitation-Fits : Fits invitation
invitation-Fits = omega arith

-- Each condition of a value, at a value that meets it.
value :
    (size : ℕ) (v : List ℕ)
    → IsPlain v
    → trim_end v ≡ v
    → trim_start v ≡ v
    → c_string v ≡ v
    → length v < size
    → IsValue size v
value size v p e f g h = record { plain = p; ended = e; started = f; string = g; fits = h }

invitation-IsReadable : IsReadable invitation tag
unfolding until trim_end trim_start
invitation-IsReadable = record {
  vias = (
    value 320 (codes "SIP/2.0/UDP a;branch=b") (omega arith) refl refl refl (omega arith),
    (value 320 (codes "SIP/2.0/UDP c") (omega arith) refl refl refl (omega arith), tt),
  );
  from = value 320 (codes "<sip:a@b>;tag=1") (omega arith) refl refl refl (omega arith);
  to = value 320 (to_value invitation tag) (omega arith) refl refl refl (omega arith);
  call_id = value 256 (codes "7@a") (omega arith) refl refl refl (omega arith);
  cseq = value 64 (codes "1 INVITE") (omega arith) refl refl refl (omega arith);
}

ringing-IsSayable : IsSayable 200 (codes "OK") (some (codes "<sip:modem@10.0.0.2:5060>"))
unfolding until trim_end trim_start
ringing-IsSayable = record {
  code = omega arith;
  phrase = omega arith;
  further =
      value 320 (codes "<sip:modem@10.0.0.2:5060>") (omega arith) refl refl refl (omega arith);
}

parse_sip-build_response_example :
    Matches invitation
      (to_value invitation tag)
      ringing
      (parse_sip (sent_bytes (build_response invitation tag ringing)))
parse_sip-build_response_example =
    parse_sip-build_response invitation tag 200 (codes "OK")
      (some (codes "<sip:modem@10.0.0.2:5060>")) (codes "v=0") invitation-Fits ringing-IsShort refl
      invitation-IsReadable ringing-IsSayable

address : IsValue 64 (codes "10.0.0.2")
unfolding until trim_end trim_start
address = value 64 (codes "10.0.0.2") (omega arith) refl refl refl (omega arith)

invite_reply_lem_example :
    let r = invite_reply (codes "10.0.0.2") 5060 17 17 40000 in
    let m' = parse_sip (sent_bytes (build_response invitation tag r)) in
    Matches invitation (to_value invitation tag) r m'
    × (extract_sdp m'.body ≡ record { ip = codes "10.0.0.2"; port = 40000; pt = 0 })
invite_reply_lem_example =
    invite_reply_lem (codes "10.0.0.2") 5060 address invitation tag 17 17 40000 invitation-Fits refl
      invitation-IsReadable (omega arith)
