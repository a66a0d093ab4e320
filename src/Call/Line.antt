-- ===== src/Call/Line.antt =====
-- The connection between the two programs: `src/sip/sm_sip.c` writes the caller's audio by
-- `sm_ast_write_audio`, and `src/call/sm_call.c` reads it by `sm_ast_read`.
pub mod Frames
pub mod Carries
use v34_working.Base.{ℕ, zero, suc, List, [], ◌∷◌}
use v34_working.AudioSocket.Net.{Net, Poll}
use v34_working.AudioSocket.Writer.{Written, written, failed, waiting, write_audio}
use v34_working.AudioSocket.Reader.{
  Socket, Outcome, message, timeout, failed as read_failed, pending, overread, max_payload, read,
}
use v34_working.Call.Run.{to_samples}

-- A write that succeeds goes on to the next.
unfoldable pub go_on : (Net → Written × Net) → Written × Net → Written × Net
go_on next (written, net) = next net
go_on next (failed, net) = (failed, net)
go_on next (waiting, net) = (waiting, net)

-- Frames that are written one after the other, up to the first write that fails.
unfoldable pub send_frames : List (List ℕ) → Net → Written × Net
unfolding write_audio go_on
send_frames [] net = (written, net)
send_frames (f ∷ fs) net = go_on (send_frames fs) (write_audio f net)

-- A message is kept; a round that ends without one is followed by the next.
unfoldable pub after_read : (ℕ → List (List ℕ)) → ℕ → Outcome → List (List ℕ)
after_read more left (message kind bytes n) = to_samples bytes ∷ more left
after_read more left timeout = more (suc left)
after_read more left read_failed = more (suc left)
after_read more left pending = more (suc left)
after_read more left overread = more (suc left)

-- The samples of so many messages, read in rounds of `sm_ast_read`, each with the polls that come in
-- its time.
unfoldable pub read_frames : List (List Poll) → ℕ → Socket → Net → List (List ℕ)
unfolding read after_read
read_frames [] wanted s net = []
read_frames (ps ∷ rounds) zero s net = []
read_frames (ps ∷ rounds) (suc left) s net =
    let (o, s', net') = read max_payload s (record net { polls = ps }) in
    after_read (λ k. read_frames rounds k s' net') left o
