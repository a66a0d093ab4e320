-- ===== src/Sip/Call/Descriptors.antt =====
-- The descriptors of the agent and its call.
use v34_working.Base.{
  ℕ, ◌≡◌, refl, ◌⊎◌, inl, inr, List, [], ◌∷◌, Bool, true, false, Option, none, some, ◌==◌,
  if◌then◌else◌, subst, sym, if_false,
}
use v34_working.Sip.Call.{
  Agent, Request, Host, Event, register, options, other, ack, bye, cancel, invite, respond, current,
  end_call, accept, establish, connect, open_rtp, begin_call, repeat_ok, handle_invite, handle_ack,
  handle_bye, handle_cancel, handle, handle_all,
}

abbrev pub IsOpen : Option ℕ → Type 0
IsOpen none = ⊥
IsOpen (some fd) = Unit

-- No call and no descriptor, or a call with both.
abbrev pub IsTidy : Agent → Type 0
IsTidy a =
    ((a.call_active ≡ false) × (a.media_active ≡ false) × (a.rtp_fd ≡ none) × (a.daemon_fd ≡ none))
    ⊎ ((a.call_active ≡ true) × IsOpen a.rtp_fd × IsOpen a.daemon_fd)

if-IsTidy : (b : Bool) (x y : Agent) → IsTidy x → IsTidy y → IsTidy (if b then x else y)
if-IsTidy true x y h k = h
if-IsTidy false x y h k = k

pub end_call-IsTidy : (a : Agent) → IsTidy (end_call a)
unfolding end_call
end_call-IsTidy a = inl (refl, refl, refl, refl)

accept-IsTidy : (ok : Option (List ℕ)) (a : Agent) → IsTidy a → IsTidy (accept ok a)
unfolding accept
accept-IsTidy none a t = t
accept-IsTidy (some ok) a t = t

connect-IsTidy :
    (daemon : Option ℕ) (h : Host) (m : Request) (a : Agent)
    → IsOpen a.rtp_fd
    → IsTidy (connect daemon h m a)
unfolding connect establish
connect-IsTidy none h m a o = end_call-IsTidy (respond 503 (record a { daemon_fd = none }))
connect-IsTidy (some fd) h m a o = accept-IsTidy h.ok _ (inr (refl, o, tt))

open_rtp-IsTidy :
    (socket : Option ℕ) (h : Host) (m : Request) (a : Agent) → IsTidy (open_rtp socket h m a)
unfolding open_rtp
open_rtp-IsTidy none h m a = end_call-IsTidy (respond 500 (record a { rtp_fd = none }))
open_rtp-IsTidy (some fd) h m a =
    let a' : Agent = record a { rtp_fd = some fd } in
    if-IsTidy h.bound _ _ (connect-IsTidy h.daemon h m a' tt) (end_call-IsTidy (respond 500 a'))

begin_call-IsTidy : (h : Host) (m : Request) (a : Agent) → IsTidy a → IsTidy (begin_call h m a)
unfolding begin_call
begin_call-IsTidy h m a t =
    if-IsTidy (m.sdp_port == 0) _ _ t (open_rtp-IsTidy h.socket h m (respond 100 a))

repeat_ok-IsTidy : (ok : Option (List ℕ)) (a : Agent) → IsTidy a → IsTidy (repeat_ok ok a)
unfolding repeat_ok
repeat_ok-IsTidy none a t = t
repeat_ok-IsTidy (some ok) a t = t

-- An ACK starts the media of the call that is on.
handle_ack-IsTidy : (m : Request) (a : Agent) → IsTidy a → IsTidy (handle_ack m a)
unfolding handle_ack
handle_ack-IsTidy m a (inr t) = if-IsTidy (current a m) _ a (inr t) (inr t)
handle_ack-IsTidy m a (inl (off, quiet, no_rtp, no_daemon)) =
    let other : current a m ≡ false = not_current off in
    subst IsTidy (sym (if_false (current a m) _ a other)) (inl (off, quiet, no_rtp, no_daemon))
  where
    not_current : a.call_active ≡ false → current a m ≡ false
    not_current e = rw e refl

pub handle-IsTidy : (e : Event) (a : Agent) → IsTidy a → IsTidy (handle e a)
unfolding handle handle_bye handle_cancel handle_invite
handle-IsTidy (register m) a t = t
handle-IsTidy (options m) a t = t
handle-IsTidy (other m) a t = t
handle-IsTidy (ack m) a t = handle_ack-IsTidy m a t
handle-IsTidy (bye m) a t =
    if-IsTidy (current a m) _ (respond 200 a) (end_call-IsTidy (respond 200 a)) t
handle-IsTidy (cancel m) a t =
    if-IsTidy (current a m) _ (respond 200 a) (end_call-IsTidy (respond 487 (respond 200 a))) t
handle-IsTidy (invite h m) a t =
    if-IsTidy (current a m) _ _ (repeat_ok-IsTidy a.last_ok a t)
      (if-IsTidy a.call_active _ _ t (begin_call-IsTidy h m a t))

-- Whatever requests come in and whatever of an INVITE fails, an agent that has no call, no media and
-- no descriptor, or a call and both its descriptors, is so after them.
pub handle_all-IsTidy : (es : List Event) (a : Agent) → IsTidy a → IsTidy (handle_all es a)
unfolding handle_all
handle_all-IsTidy [] a t = t
handle_all-IsTidy (e ∷ es) a t = handle_all-IsTidy es (handle e a) (handle-IsTidy e a t)
