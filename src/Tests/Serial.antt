-- ===== src/Tests/Serial.antt =====
-- The serial link on the bytes of "Hi".
use v34_working.Base.{ℕ, ◌≡◌, refl, List, [], ◌∷◌, ◌++◌, arith}
use v34_working.Serial.Queue
use v34_working.Serial.Queue.{
  BitQueue, size, count, push, push_byte, pop, Status, accepted, refused,
}
use v34_working.Serial.Queue.Fifo.{init-IsValid}
use v34_working.Serial.Queue.Framing.{frame, data_bits}
use v34_working.Serial.Deframer
use v34_working.Serial.Deframer.{Deframer, feed, deframer_bit, out_size, idle}
use v34_working.Serial.Deframer.Frame.{IsReady, received, feed-frame}
use v34_working.Serial.Deframer.Bounds
use v34_working.Serial.Deframer.Bounds.{feed-init-IsValid, deframer_bit-full}
use v34_working.Serial.Link.{bbs_write, transfer}
use v34_working.Serial.Link.Delivery.{transfer_delivers}

abbrev hi : List ℕ
hi = 72 ∷ 105 ∷ []

init-IsReady : IsReady Deframer.init
unfolding Deframer.init
init-IsReady = record { resting = refl; line_high = refl }

transfer_delivers_example :
    let d' = (transfer 23 (bbs_write Queue.init hi).1 Deframer.init).1 in
    (d'.out ≡ Deframer.init.out ++ hi) × IsReady d'
transfer_delivers_example =
    transfer_delivers hi Queue.init Deframer.init 3 init-IsValid (unfold Queue.init count in refl)
      (unfold Queue.init count in omega arith) init-IsReady (omega arith, (omega arith, tt))
      (unfold Deframer.init in omega arith)

feed-frame_example :
    feed Deframer.init (frame 72 ++ 1 ∷ []) ≡ feed (received Deframer.init 72) (1 ∷ [])
feed-frame_example =
    feed-frame Deframer.init 72 (1 ∷ []) init-IsReady (unfold Deframer.init in omega arith)
      (omega arith)

-- Two frames with a damaged one between them.
abbrev noise : List ℕ
noise = frame 72 ++ 0 ∷ data_bits 8 0 7 ++ 0 ∷ 1 ∷ frame 105

feed-init-IsValid_example : Bounds.IsValid (feed Deframer.init noise)
feed-init-IsValid_example = feed-init-IsValid noise
