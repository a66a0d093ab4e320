-- ===== src/Sip/Call.antt =====
-- The request handlers of `src/sip/sm_sip.c` and the call they keep. A request is what `parse_sip`
-- and `extract_sdp` have found in it, and a response is its status.
pub mod Descriptors
use v34_working.Base.{
  ℕ, zero, suc, ◌+◌, List, [], ◌∷◌, ◌++◌, Bool, true, false, ◌&&◌, Option, none, some, leb, ◌==◌,
  if◌then◌else◌,
}
use v34_working.Sip.Media.{Pump, begin}

-- What is sent: a response, or the 200 that is kept for a repeated INVITE.
pub data Sent : Type 0 where
  status : ℕ → Sent
  again : List ℕ → Sent

-- The call of `struct sm_sip`. A descriptor of -1 is `none`, and so is an empty `last_ok`.
pub record Agent : Type 0 where
  pub call_active : Bool
  pub media_active : Bool
  pub call_id : List ℕ
  pub cseq : ℕ
  pub rtp_peer_known : Bool
  pub rtp_fd : Option ℕ
  pub daemon_fd : Option ℕ
  pub last_ok : Option (List ℕ)
  pub pump : Pump
  pub calls_done : ℕ
  pub call_seq : ℕ
  pub sent : List Sent

-- `sip_msg_t`, as far as the handlers read it. A port that is not positive is 0.
pub record Request : Type 0 where
  pub call_id : List ℕ
  pub cseq_num : ℕ
  pub sdp_port : ℕ

-- What the system gives to an INVITE: a socket, whether it can be bound and named, the connection to
-- the daemon, and the 200 that `build_response` makes, unless it makes none.
pub record Host : Type 0 where
  pub socket : Option ℕ
  pub bound : Bool
  pub daemon : Option ℕ
  pub ok : Option (List ℕ)

-- `strcmp` against zero
unfoldable pub same_id : List ℕ → List ℕ → Bool
same_id [] [] = true
same_id [] (c ∷ cs) = false
same_id (b ∷ bs) [] = false
same_id (b ∷ bs) (c ∷ cs) = (b == c) && same_id bs cs

abbrev pub respond : ℕ → Agent → Agent
respond code a = record a { sent = a.sent ++ status code ∷ [] }

-- `end_call`
unfoldable pub end_call : Agent → Agent
end_call a = record a {
  daemon_fd = none;
  rtp_fd = none;
  call_active = false;
  media_active = false;
  rtp_peer_known = false;
  pump = record a.pump { head = 0; tail = 0 };
  call_id = [];
  last_ok = none;
  calls_done = a.calls_done + 1;
}

-- The request is about the call that is on.
abbrev pub current : Agent → Request → Bool
current a m = a.call_active && same_id a.call_id m.call_id

-- The 200 is kept and sent.
unfoldable pub accept : Option (List ℕ) → Agent → Agent
accept none a = a
accept (some ok) a = record a { last_ok = some ok; sent = a.sent ++ status 200 ∷ [] }

-- The record of a new call.
unfoldable pub establish : Host → Request → Agent → Agent
unfolding accept begin
establish h m a = accept h.ok (record a {
  call_seq = a.call_seq + 1;
  call_id = m.call_id;
  cseq = m.cseq_num;
  rtp_peer_known = false;
  media_active = false;
  call_active = true;
  pump = begin a.pump;
})

-- The connection to the daemon.
unfoldable pub connect : Option ℕ → Host → Request → Agent → Agent
unfolding establish end_call
connect none h m a = end_call (respond 503 (record a { daemon_fd = none }))
connect (some fd) h m a = establish h m (record a { daemon_fd = some fd })

-- The socket for RTP.
unfoldable pub open_rtp : Option ℕ → Host → Request → Agent → Agent
unfolding connect end_call
open_rtp none h m a = end_call (respond 500 (record a { rtp_fd = none }))
open_rtp (some fd) h m a =
    let a' = record a { rtp_fd = some fd } in
    if h.bound then connect h.daemon h m a' else end_call (respond 500 a')

-- A new INVITE.
unfoldable pub begin_call : Host → Request → Agent → Agent
unfolding open_rtp
begin_call h m a = if m.sdp_port == 0 then respond 488 a else open_rtp h.socket h m (respond 100 a)

-- The two answers while a call is on.
unfoldable pub repeat_ok : Option (List ℕ) → Agent → Agent
repeat_ok none a = respond 486 a
repeat_ok (some ok) a = record a { sent = a.sent ++ again ok ∷ [] }

-- `handle_invite`
unfoldable pub handle_invite : Host → Request → Agent → Agent
unfolding begin_call repeat_ok
handle_invite h m a =
    if current a m
    then repeat_ok a.last_ok a
    else if a.call_active
    then respond 486 a
    else begin_call h m a

-- `handle_ack`
unfoldable pub handle_ack : Request → Agent → Agent
handle_ack m a = if current a m then record a { media_active = true } else a

-- `handle_bye`
unfoldable pub handle_bye : Request → Agent → Agent
unfolding end_call
handle_bye m a = let a' = respond 200 a in if current a m then end_call a' else a'

-- `handle_cancel`
unfoldable pub handle_cancel : Request → Agent → Agent
unfolding end_call
handle_cancel m a = let a' = respond 200 a in if current a m then end_call (respond 487 a') else a'

-- A request, with what the system gives to it. REGISTER, OPTIONS
-- and other methods are only answered.
pub data Event : Type 0 where
  register options ack bye cancel other : Request → Event
  invite : Host → Request → Event

unfoldable pub handle : Event → Agent → Agent
unfolding handle_invite handle_ack handle_bye handle_cancel
handle (register m) a = respond 200 a
handle (options m) a = respond 200 a
handle (other m) a = respond 405 a
handle (ack m) a = handle_ack m a
handle (bye m) a = handle_bye m a
handle (cancel m) a = handle_cancel m a
handle (invite h m) a = handle_invite h m a

-- The requests in order.
unfoldable pub handle_all : List Event → Agent → Agent
unfolding handle
handle_all [] a = a
handle_all (e ∷ es) a = handle_all es (handle e a)
