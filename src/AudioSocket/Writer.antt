-- ===== src/AudioSocket/Writer.antt =====
-- `sm_ast_write`: a message goes out in partial sends.
pub mod Sent
use v34_working.Base.{
  ℕ, zero, suc, ◌+◌, ◌-◌, ◌*◌, ◌/◌, ◌%◌, ◌^◌, List, [], ◌∷◌, ◌++◌, Bool, true, false, ltb, min,
  length, take, drop, if◌then◌else◌,
}
use v34_working.AudioSocket.Net.{Net, Poll}

-- 0, -1, or a run whose last poll has not returned.
pub data Written : Type 0 where
  written failed waiting : Written

-- The loop of `send_all` over the polls, for the bytes from `off` on. A `send` may take fewer bytes
-- than it is given.
unfoldable pub send_loop : List ℕ → List ℕ → List Poll → Written × List ℕ × List Poll
send_loop [] sent ps = (written, sent, ps)
send_loop (b ∷ bs) sent [] = (waiting, sent, [])
send_loop (b ∷ bs) sent (Poll.again ∷ ps) = send_loop (b ∷ bs) sent ps
send_loop (b ∷ bs) sent (Poll.timed_out ∷ ps) = (failed, sent, ps)
send_loop (b ∷ bs) sent (Poll.broken ∷ ps) = (failed, sent, ps)
send_loop (b ∷ bs) sent (Poll.ready n ∷ ps) =
    send_loop (drop (suc n) (b ∷ bs)) (sent ++ take (suc n) (b ∷ bs)) ps

unfoldable pub send_all : List ℕ → Net → Written × Net
unfolding send_loop
send_all bs net =
    let (w, sent, polls) = send_loop bs net.sent net.polls in
    (w, record net { sent = sent; polls = polls })

-- The header of `sm_ast_write`.
abbrev pub head : ℕ → ℕ → List ℕ
head kind len = kind ∷ len / 2 ^ 8 % 256 ∷ len % 256 ∷ []

-- The second `send_all` of `sm_ast_write`, behind its `len > 0`.
unfoldable pub write_payload : List ℕ → Written × Net → Written × Net
unfolding send_all
write_payload payload (written, net) =
    if ltb 0 (length payload) then send_all payload net else (written, net)
write_payload payload (failed, net) = (failed, net)
write_payload payload (waiting, net) = (waiting, net)

-- `sm_ast_write`
unfoldable pub write : ℕ → List ℕ → Net → Written × Net
unfolding write_payload
write kind payload net =
    if ltb 0xFFFF (length payload)
    then (failed, net)
    else write_payload payload (send_all (head kind (length payload)) net)

-- The bytes of 16-bit samples, least significant byte first.
abbrev pub sample_bytes : List ℕ → List ℕ
sample_bytes [] = []
sample_bytes (x ∷ xs) = x % 256 ∷ x / 256 % 256 ∷ sample_bytes xs

-- `sm_ast_write_audio`: a sample is its 16-bit pattern.
unfoldable pub write_audio : List ℕ → Net → Written × Net
unfolding write
write_audio samples net = write 0x10 (sample_bytes samples) net
