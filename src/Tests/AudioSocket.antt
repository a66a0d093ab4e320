-- ===== src/Tests/AudioSocket.antt =====
-- Messages that arrive in pieces.
use v34_working.Base.{ℕ, ◌^◌, ◌≤◌, ◌<◌, ◌≡◌, refl, List, [], ◌∷◌, ◌++◌, length, arith, inl, ◌⊎◌}
use v34_working.AudioSocket.Net.{Net, Poll}
use v34_working.AudioSocket.Reader
use v34_working.AudioSocket.Reader.{Socket, message, read}
use v34_working.AudioSocket.Reader.Header.{AtHeader}
use v34_working.AudioSocket.Reader.Resume.{wire, Reads, read-Reads}
use v34_working.AudioSocket.Writer.{write, failed}
use v34_working.AudioSocket.Writer.Sent.{Sends, write-Sends}

abbrev samples : List ℕ
samples = 1 ∷ 2 ∷ 3 ∷ []

-- Two bytes, then a timeout in the header.
abbrev halting : Net
halting = record {
  incoming = wire 16 samples ++ 9 ∷ [];
  sent = [];
  polls = Poll.ready 1 ∷ Poll.again ∷ Poll.timed_out ∷ [];
}

init-AtHeader : (net : Net) → AtHeader net.incoming Reader.init net
unfolding Reader.init
init-AtHeader net = record { idle = refl; position = refl; partial = omega arith }

read-Reads_example : Reads 2 16 samples (9 ∷ []) (read 2 Reader.init halting)
read-Reads_example =
    read-Reads 2 16 samples (9 ∷ []) Reader.init halting (omega arith) (inl (init-AtHeader halting))

write-Sends_example :
    (let (w, net') = write 16 samples halting in
      (length samples < 2 ^ 16) × Sends (wire 16 samples) halting.sent w net'.sent)
    ⊎ ((2 ^ 16 ≤ length samples) × (write 16 samples halting ≡ (failed, halting)))
write-Sends_example = write-Sends 16 samples halting
