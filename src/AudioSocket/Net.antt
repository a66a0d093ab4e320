-- ===== src/AudioSocket/Net.antt =====
-- A connected socket as the kernel shows it: the bytes that wait to be read, what was sent, and the
-- outcomes of the coming `poll` calls.
use v34_working.Base.{ℕ, suc, List, [], ◌∷◌, take, drop, min}

-- One round of `poll` and the `recv` or `send` behind it.
pub data Poll : Type 0 where
  -- `poll` or the call behind it was interrupted or would block: the loop goes round again.
  again : Poll
  -- `poll` reported the timeout.
  timed_out : Poll
  -- `poll` or the call behind it failed for good.
  broken : Poll
  -- The kernel moves at most this many bytes and one.
  ready : ℕ → Poll

pub record Net : Type 0 where
  pub incoming : List ℕ
  pub sent : List ℕ
  pub polls : List Poll

-- What `recv_into` returns: the bytes read, 0 on a timeout, -1 on an error or the end of the
-- stream. `waiting` is a run whose last poll has not returned.
pub data Got : Type 0 where
  bytes : List ℕ → Got
  none_yet closed waiting : Got

-- A `recv` that gives no byte is the end of the stream.
abbrev pub received : List ℕ → Got
received [] = closed
received (b ∷ bs) = bytes (b ∷ bs)

-- The loop of `recv_into` over the polls.
unfoldable pub recv_loop : ℕ → List ℕ → List Poll → Got × List ℕ × List Poll
recv_loop want incoming [] = (waiting, incoming, [])
recv_loop want incoming (Poll.again ∷ ps) = recv_loop want incoming ps
recv_loop want incoming (Poll.timed_out ∷ ps) = (none_yet, incoming, ps)
recv_loop want incoming (Poll.broken ∷ ps) = (closed, incoming, ps)
recv_loop want incoming (Poll.ready n ∷ ps) =
    let k = min want (suc n) in (received (take k incoming), drop k incoming, ps)

unfoldable pub recv_into : ℕ → Net → Got × Net
unfolding recv_loop
recv_into want net =
    let (g, incoming, polls) = recv_loop want net.incoming net.polls in
    (g, record net { incoming = incoming; polls = polls })
