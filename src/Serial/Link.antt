-- ===== src/Serial/Link.antt =====
-- The two ends of the serial link in `src/call/sm_call.c`: bytes are framed into the transmit queue
-- (`bbs_write`), the modem pulls its bits (`call_get_bit`), and what the far end receives goes
-- into its deframer.
pub mod Delivery
use v34_working.Base.{ℕ, zero, suc, ◌+◌, List, [], ◌∷◌, Option, none, some}
use v34_working.Serial.Queue.{BitQueue, Status, accepted, refused, push_byte, pop}
use v34_working.Serial.Deframer.{Deframer, deframer_bit}

-- The loop of `bbs_write`: it stops at the first byte that does not fit. The number is `i`, which
-- the caller adds to `data_bytes_tx`.
unfoldable pub bbs_write : BitQueue → List ℕ → ℕ × BitQueue
bbs_write q [] = (0, q)
bbs_write q (b ∷ bs) =
    let (s, q') = push_byte q b in
    elim s [ accepted ↦ (let (i, q'') = bbs_write q' bs in (i + 1, q'')) | refused ↦ (0, q') ]

-- An idle line is all ones.
abbrev or_idle : Option ℕ → ℕ
or_idle none = 1
or_idle (some b) = b

unfoldable pub call_get_bit : BitQueue → ℕ × BitQueue
call_get_bit q = let (b, q') = pop q in (or_idle b, q')

-- `n` bit times of a line that passes every bit on unchanged.
unfoldable pub transfer : ℕ → BitQueue → Deframer → BitQueue × Deframer
unfolding call_get_bit
transfer zero q d = (q, d)
transfer (suc n) q d = let (b, q') = call_get_bit q in transfer n q' (deframer_bit d b)
