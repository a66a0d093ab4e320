-- ===== src/Serial/Link/Delivery.antt =====
-- From the bytes of `bbs_write` to the bytes of the deframer at the far end.
use v34_working.Base.{
  ℕ, zero, suc, ◌+◌, ◌*◌, ◌≤◌, ◌<◌, ◌≡◌, refl, sym, ap, List, [], ◌∷◌, ◌++◌, All, length, replicate,
  append_assoc, append-nil, length-append, arith, ◌∙◌, inl, inr,
}
use v34_working.Serial.Queue.{BitQueue, size, count, push_byte}
use v34_working.Serial.Queue.Fifo.{IsValid, contents, pop_lem}
use v34_working.Serial.Queue.Framing.{frame, push_byte-Extends}
use v34_working.Serial.Deframer.{Deframer, out_size, deframer_bit, feed}
use v34_working.Serial.Deframer.Frame.{IsReady, received, received-IsReady, feed-frame, feed_ones}
use v34_working.Serial.Link.{bbs_write, call_get_bit, transfer}

-- The line bits of a sequence of bytes.
abbrev pub frames : List ℕ → List ℕ
frames [] = []
frames (b ∷ bs) = frame b ++ frames bs

-- Into a valid queue with room for the frames of all of them, `bbs_write` queues all bytes in order.
pub bbs_write_lem :
    (bs : List ℕ) (q : BitQueue)
    → IsValid q
    → count q + 10 * length bs ≤ size
    → ((bbs_write q bs).0 ≡ length bs)
      × (contents (bbs_write q bs).1 ≡ contents q ++ frames bs)
      × IsValid (bbs_write q bs).1
unfolding bbs_write
bbs_write_lem [] q v room = (refl, sym (append-nil _), v)
bbs_write_lem (b ∷ bs) q v room =
    let (s, (e, c, w)) = push_byte-Extends q b v (omega arith) in
    let rest = bbs_write_lem bs (push_byte q b).1 w (omega arith) in
    rw (s, bbs_write)
      (
        omega (arith, rest.0),
        rest.1 ∙ ap (λ l. l ++ frames bs) e ∙ append_assoc (contents q) (frame b) (frames bs),
        rest.2,
      )

-- The next `n` bits of a line that falls silent after `bits`.
abbrev pub line : ℕ → List ℕ → List ℕ
line zero bits = []
line (suc n) [] = 1 ∷ line n []
line (suc n) (b ∷ bits) = b ∷ line n bits

line_nil : (n : ℕ) → line n [] ≡ replicate n 1
line_nil zero = refl
line_nil (suc n) = ap (λ l. 1 ∷ l) (line_nil n)

line_long : (bits : List ℕ) (n m : ℕ) → m ≡ length bits + n → line m bits ≡ bits ++ replicate n 1
line_long [] n m e = let e' : m ≡ n = omega arith in rw e' (line_nil n)
line_long (b ∷ bits) n zero e = absurd (omega arith)
line_long (b ∷ bits) n (suc m) e = ap (λ l. b ∷ l) (line_long bits n m (omega arith))

-- The receiver sees the queued bits in order, and ones after them.
transfer-line :
    (n : ℕ) (q : BitQueue) (d : Deframer)
    → IsValid q
    → (transfer n q d).1 ≡ feed d (line n (contents q))
unfolding transfer feed call_get_bit
transfer-line zero q d v = refl
transfer-line (suc n) q d v = elim (pop_lem q v) [
  | inl (empty, e) ↦
      rw (empty, e, transfer)
        (transfer-line n q (deframer_bit d 1) v
          ∙ ap (λ l. feed (deframer_bit d 1) (line n l)) empty)
  | inr (b, rest, e, c, k, w) ↦ rw (c, e, transfer) (transfer-line n rest (deframer_bit d b) w)
]

-- The deframer after good bytes.
abbrev received_all : Deframer → List ℕ → Deframer
received_all d [] = d
received_all d (b ∷ bs) = received_all (received d b) bs

out-received_all : (bs : List ℕ) (d : Deframer) → (received_all d bs).out ≡ d.out ++ bs
out-received_all [] d = sym (append-nil d.out)
out-received_all (b ∷ bs) d = out-received_all bs (received d b) ∙ append_assoc d.out (b ∷ []) bs

received_all-IsReady : (bs : List ℕ) (d : Deframer) → IsReady d → IsReady (received_all d bs)
received_all-IsReady [] d r = r
received_all-IsReady (b ∷ bs) d r = received_all-IsReady bs (received d b) (received-IsReady d b)

abbrev pub IsByte : ℕ → Type 0
IsByte b = b < 256

feed-frames :
    (bs : List ℕ) (d : Deframer) (rest : List ℕ)
    → IsReady d
    → All IsByte bs
    → length d.out + length bs ≤ out_size
    → feed d (frames bs ++ rest) ≡ feed (received_all d bs) rest
feed-frames [] d rest r small room = refl
feed-frames (b ∷ bs) d rest r small room =
    ap (feed d) (append_assoc (frame b) (frames bs) rest)
    ∙ feed-frame d b (frames bs ++ rest) r (omega arith) small.0
    ∙ feed-frames bs (received d b) rest (received-IsReady d b) small.1
        (omega (arith, length-append d.out (b ∷ [])))

length-frames : (bs : List ℕ) → length (frames bs) ≡ 10 * length bs
length-frames [] = omega arith
length-frames (b ∷ bs) = omega (arith, length-append (frame b) (frames bs), length-frames bs)

-- Bytes written into an empty valid transmit queue that has room for their frames are delivered by
-- a line that passes its bits on: after the bit times of the frames, and any number of idle bit
-- times, a ready deframer that has room for them has added exactly those bytes, in order, and is
-- ready again.
pub transfer_delivers :
    (bs : List ℕ) (q : BitQueue) (d : Deframer) (n : ℕ)
    → IsValid q
    → contents q ≡ []
    → count q + 10 * length bs ≤ size
    → IsReady d
    → All IsByte bs
    → length d.out + length bs < out_size
    → let d' = (transfer (10 * length bs + n) (bbs_write q bs).1 d).1 in
      (d'.out ≡ d.out ++ bs) × IsReady d'
transfer_delivers bs q d n v empty room r small space =
    let (_, sent, w) = bbs_write_lem bs q v room in
    let all_in : contents (bbs_write q bs).1 ≡ frames bs = sent ∙ ap (λ l. l ++ frames bs) empty in
    let final = received_all d bs in
    let final_ready = received_all-IsReady bs d r in
    let final_room : length final.out < out_size =
      omega (arith, ap length (out-received_all bs d), length-append d.out bs) in
    let ends : (transfer (10 * length bs + n) (bbs_write q bs).1 d).1 ≡ final =
      transfer-line (10 * length bs + n) (bbs_write q bs).1 d w
      ∙ ap (λ l. feed d (line (10 * length bs + n) l)) all_in
      ∙ ap (feed d) (line_long (frames bs) n _ (omega (arith, length-frames bs)))
      ∙ feed-frames bs d (replicate n 1) r small (omega arith)
      ∙ ap (feed final) (sym (append-nil (replicate n 1)))
      ∙ feed_ones n final [] final_ready final_room
      ∙ unfold feed in refl in
    rw ends (out-received_all bs d, final_ready)
