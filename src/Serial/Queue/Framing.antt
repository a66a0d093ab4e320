-- ===== src/Serial/Queue/Framing.antt =====
-- `sm_bitq_push_byte` queues a start bit, the byte's bits from the lowest on, and a stop bit.
use v34_working.Base.{
  dec_lt, ◌⊎◌, inl, inr, ℕ, zero, suc, ◌+◌, ◌/◌, ◌%◌, ◌^◌, ◌≤◌, ◌<◌, ◌≡◌, refl, ap, List, [], ◌∷◌,
  ◌++◌, append_assoc, append-nil, arith, ◌∙◌, sym,
}
use v34_working.Serial.Queue.{BitQueue, accepted, refused, size, count, push, push_data, push_byte}
use v34_working.Serial.Queue.Fifo.{IsValid, contents, push_lem}

-- The bits of a byte from bit `i` on, lowest first.
abbrev pub data_bits : ℕ → ℕ → ℕ → List ℕ
data_bits zero i byte = []
data_bits (suc left) i byte = byte / 2 ^ i % 2 ∷ data_bits left (i + 1) byte

-- A byte on the line.
abbrev pub frame : ℕ → List ℕ
frame byte = 0 ∷ (data_bits 8 0 byte ++ 1 ∷ [])

-- What a run of pushes leaves: the old bits, then `bits`.
abbrev pub Extends : BitQueue → List ℕ → ℕ → BitQueue → Type 0
Extends q bits n q' = (contents q' ≡ contents q ++ bits) × (count q' ≡ count q + n) × IsValid q'

-- One push, and then what extends the queue further.
push-Extends :
    (q : BitQueue) (bit n : ℕ) (bits : List ℕ) (q' : BitQueue)
    → IsValid q
    → count q < size
    → bit < 2
    → Extends (push q bit).1 bits n q'
    → Extends q (bit ∷ bits) (suc n) q'
push-Extends q bit n bits q' v room small (e, c, w) =
    let (_, e₁, c₁, w₁) = push_lem q bit v room in
    let same : bit % 2 ≡ bit = omega arith in
    (
      e
          ∙ ap (λ l. l ++ bits) (e₁ ∙ ap (λ b. contents q ++ b ∷ []) same)
          ∙ append_assoc (contents q) (bit ∷ []) bits,
      omega arith,
      w,
    )

push_data-Extends :
    (left i byte : ℕ) (q : BitQueue)
    → IsValid q
    → count q + left ≤ size
    → Extends q (data_bits left i byte) left (push_data left i byte q)
unfolding push_data
push_data-Extends zero i byte q v room = (sym (append-nil _), omega arith, v)
push_data-Extends (suc left) i byte q v room =
    let (_, _, c, w) = push_lem q (byte / 2 ^ i % 2) v (omega arith) in
    push-Extends q (byte / 2 ^ i % 2) left (data_bits left (i + 1) byte) _ v (omega arith)
      (omega arith) (push_data-Extends left (i + 1) byte _ w (omega arith))

Extends-trans :
    (q q₁ q₂ : BitQueue) (xs ys : List ℕ) (n m : ℕ)
    → Extends q xs n q₁
    → Extends q₁ ys m q₂
    → Extends q (xs ++ ys) (n + m) q₂
Extends-trans q q₁ q₂ xs ys n m (e, c, v) (e', c', v') =
    (e' ∙ ap (λ l. l ++ ys) e ∙ append_assoc (contents q) xs ys, omega arith, v')

one-Extends :
    (q : BitQueue) (bit : ℕ)
    → IsValid q
    → count q < size
    → bit < 2
    → Extends q (bit ∷ []) 1 (push q bit).1
one-Extends q bit v room small =
    let (_, _, c, w) = push_lem q bit v room in
    push-Extends q bit 0 [] _ v room small (sym (append-nil _), omega arith, w)

framed-Extends :
    (q : BitQueue) (byte : ℕ)
    → IsValid q
    → count q + 10 ≤ size
    → Extends q (frame byte) 10 (push (push_data 8 0 byte (push q 0).1) 1).1
framed-Extends q byte v room =
    let start = one-Extends q 0 v (omega arith) (omega arith) in
    let body = push_data-Extends 8 0 byte (push q 0).1 start.2 (omega (arith, start.1)) in
    let stop = one-Extends _ 1 body.2 (omega (arith, start.1, body.1)) (omega arith) in
    Extends-trans q _ _ (0 ∷ []) (data_bits 8 0 byte ++ 1 ∷ []) 1 9 start
      (Extends-trans (push q 0).1 _ _ (data_bits 8 0 byte) (1 ∷ []) 8 1 body stop)

push_byte-accepted :
    (q : BitQueue) (byte : ℕ)
    → IsValid q
    → count q + 10 ≤ size
    → push_byte q byte ≡ (accepted, (push (push_data 8 0 byte (push q 0).1) 1).1)
unfolding push_byte
push_byte-accepted q byte v room = ground arith

pub push_byte-Extends :
    (q : BitQueue) (byte : ℕ)
    → IsValid q
    → count q + 10 ≤ size
    → ((push_byte q byte).0 ≡ accepted) × Extends q (frame byte) 10 (push_byte q byte).1
push_byte-Extends q byte v room =
    rw (push_byte-accepted q byte v room) (refl, framed-Extends q byte v room)

pub push_byte-refused :
    (q : BitQueue) (byte : ℕ) → IsValid q → size < count q + 10 → push_byte q byte ≡ (refused, q)
unfolding push_byte
push_byte-refused q byte v full = ground arith

-- In a valid queue, a byte is queued whole or not at all: with room for ten bits its frame goes to
-- the end, and otherwise nothing changes.
pub push_byte_lem :
    (q : BitQueue) (byte : ℕ)
    → IsValid q
    → ((count q + 10 ≤ size)
        × ((push_byte q byte).0 ≡ accepted)
        × Extends q (frame byte) 10 (push_byte q byte).1)
      ⊎ ((size < count q + 10) × (push_byte q byte ≡ (refused, q)))
push_byte_lem q byte v = elim (dec_lt size (count q + 10)) [
  | yes full ↦ inr (full, push_byte-refused q byte v full)
  | no room ↦ let (a, e) = push_byte-Extends q byte v (omega arith) in inl (omega arith, a, e)
]
