-- ===== src/Tests/Line.antt =====
-- Two frames from the agent to the call.
use v34_working.Base.{ℕ, ◌≡◌, refl, List, [], ◌∷◌, All, length, arith}
use v34_working.AudioSocket.Net.{Net, Poll}
use v34_working.AudioSocket.Writer.{written}
use v34_working.AudioSocket.Reader
use v34_working.Call.Line.{send_frames, read_frames}
use v34_working.Call.Line.Frames.{IsFrame, wires}
use v34_working.Call.Line.Carries.{Begins, read_frames-send_frames, read_frames-AreSteady}

abbrev frames : List (List ℕ)
frames = (1 ∷ 65535 ∷ []) ∷ (300 ∷ []) ∷ []

-- Sends of at most three bytes.
abbrev sender : Net
sender = record {
  incoming = [];
  sent = [];
  polls =
      Poll.ready 2 ∷ Poll.ready 2 ∷ Poll.again ∷ Poll.ready 2 ∷ Poll.ready 2 ∷ Poll.ready 2 ∷ [];
}

abbrev sent : Net
sent = record { incoming = []; sent = wires frames; polls = [] }

frames-IsFrame : All IsFrame frames
frames-IsFrame = ((omega arith, omega arith), ((omega arith, omega arith), tt))

sent_whole : send_frames frames sender ≡ (written, sent)
unfolding send_frames
sent_whole = refl

abbrev receiver : Net
receiver = record { incoming = wires frames; sent = []; polls = [] }

-- A timeout behind two bytes.
abbrev halting : List (List Poll)
halting = (Poll.ready 1 ∷ Poll.timed_out ∷ []) ∷ (Poll.ready 9 ∷ Poll.ready 9 ∷ []) ∷ []

abbrev six : List Poll
six =
    Poll.ready 1
    ∷ Poll.ready 1
    ∷ Poll.ready 1
    ∷ Poll.ready 1
    ∷ Poll.ready 1
    ∷ Poll.ready 1
    ∷ Poll.ready 1
    ∷ []

read_frames-send_frames_example :
    Begins (read_frames halting (length frames) Reader.init receiver) frames
read_frames-send_frames_example =
    read_frames-send_frames frames sender sent receiver halting frames-IsFrame refl sent_whole refl

read_frames-AreSteady_example :
    read_frames (six ∷ six ∷ []) (length frames) Reader.init receiver ≡ frames
read_frames-AreSteady_example =
    read_frames-AreSteady frames sender sent receiver (six ∷ six ∷ []) frames-IsFrame refl
      sent_whole refl
      (
        (tt, (tt, (tt, (tt, (tt, (tt, (tt, tt))))))),
        omega arith,
        ((tt, (tt, (tt, (tt, (tt, (tt, (tt, tt))))))), omega arith, tt),
      )
