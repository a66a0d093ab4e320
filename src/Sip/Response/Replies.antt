-- ===== src/Sip/Response/Replies.antt =====
-- What the handlers of `src/sip/sm_sip.c` reply with: `handle_register`, `handle_options`, the 200 of
-- `handle_invite` with its SDP, and the replies that are a status only.
pub mod Sdp
pub mod Invite
use v34_working.Base.{ℕ, ◌-◌, List, [], ◌∷◌, ◌++◌, Bool, take, ◌==◌, if◌then◌else◌, codes, dec}
use v34_working.Sip.Text.{Message}
use v34_working.Sip.Response.{Reply, field, is_empty, eol}

-- `snprintf` into an array.
abbrev pub into : ℕ → List ℕ → List ℕ
into size text = take (size - 1) text

-- The reasons that the handlers give.
unfoldable pub reason_of : ℕ → List ℕ
reason_of status =
    if status == 100
    then codes "Trying"
    else if status == 200
    then codes "OK"
    else if status == 405
    then codes "Method Not Allowed"
    else if status == 486
    then codes "Busy Here"
    else if status == 487
    then codes "Request Terminated"
    else if status == 488
    then codes "Not Acceptable Here"
    else if status == 500
    then codes "Server Internal Error"
    else codes "Service Unavailable"

-- A status without further headers or a body.
unfoldable pub plain_reply : ℕ → Reply
unfolding reason_of
plain_reply status = record { status = status; reason = reason_of status; extra = []; body = [] }

-- The Contact that `handle_register` gives back.
unfoldable pub register_reply : Message → Reply
unfolding reason_of
register_reply m =
    let contact = if is_empty m.contact then codes "<sip:modem@unknown>" else m.contact in
    record (plain_reply 200) { extra = into 512 (field (codes "Contact:") contact) }

-- `handle_options`
unfoldable pub options_reply : Reply
unfolding plain_reply
options_reply = record (plain_reply 200) {
  extra = field (codes "Allow:") (codes "INVITE, ACK, CANCEL, BYE, OPTIONS, REGISTER");
}

-- The SDP that answers an INVITE: the two times of the `o` line, the address and the RTP port.
abbrev pub sdp_text : ℕ → ℕ → List ℕ → ℕ → List ℕ
sdp_text id version ip port =
    codes "v=0\r\no=- "
    ++ (dec id
        ++ (codes " "
            ++ (dec version
                ++ (codes " IN IP4 "
                    ++ (ip
                        ++ (codes "\r\ns=softmodem\r\nc=IN IP4 "
                            ++ (ip
                                ++ (codes "\r\nt=0 0\r\nm=audio "
                                    ++ (dec port
                                        ++ codes
                                            " RTP/AVP 0\r\na=rtpmap:0 PCMU/8000\r\na=ptime:20\r\na=sendrecv\r\n")))))))))

-- The Contact of the agent.
abbrev pub own_contact : List ℕ → ℕ → List ℕ
own_contact ip port = codes "<sip:modem@" ++ (ip ++ (58 ∷ (dec port ++ 62 ∷ [])))

-- The 200 of `handle_invite`.
unfoldable pub invite_reply : List ℕ → ℕ → ℕ → ℕ → ℕ → Reply
unfolding plain_reply
invite_reply ip bind_port id version rtp_port = record (plain_reply 200) {
  extra = into 512 (field (codes "Contact:") (own_contact ip bind_port));
  body = into 512 (sdp_text id version ip rtp_port);
}
