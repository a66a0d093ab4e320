-- ===== src/Serial/Queue/Fifo.antt =====
-- The bit queue as the list of the bits that it holds, across the wrap of its counters.
use v34_working.Base.{
  ℕ, zero, suc, ◌+◌, ◌%◌, ◌^◌, ◌≤◌, ◌<◌, ◌≡◌, refl, ap, ap₂, ◌≢◌, List, [], ◌∷◌, ◌++◌, none, some,
  u32, update, length, arith, ◌∙◌, ◌⊎◌, inl, inr,
}
use native.Mathlib.Decide.{ℕ_discrete}
use v34_working.Serial.Queue.{BitQueue, accepted, refused, size, init, count, push, pop}

-- The `n` bits from sequence number `t` on.
abbrev pub window : (ℕ → ℕ) → ℕ → ℕ → List ℕ
window bits t zero = []
window bits t (suc n) = bits (t % size) ∷ window bits (u32 (t + 1)) n

-- The bits of a queue, oldest first.
abbrev pub contents : BitQueue → List ℕ
contents q = window q.bits q.tail (count q)

pub record IsValid (q : BitQueue) : Type 0 where
  pub head_word : q.head < 2 ^ 32
  pub tail_word : q.tail < 2 ^ 32
  pub fits : count q ≤ size

length-window : (bits : ℕ → ℕ) (t n : ℕ) → length (window bits t n) ≡ n
length-window bits t zero = refl
length-window bits t (suc n) = ap suc (length-window bits (u32 (t + 1)) n)

pub length-contents : (q : BitQueue) → length (contents q) ≡ count q
length-contents q = length-window q.bits q.tail (count q)

-- A write just past a window extends it by that bit.
window-update :
    (bits : ℕ → ℕ) (v t n i : ℕ)
    → n < size
    → i ≡ (t + n) % size
    → window (update bits i v) t (suc n) ≡ window bits t n ++ v ∷ []
window-update bits v t zero i h e = ground arith
window-update bits v t (suc n) i h e =
    ap₂ ◌∷◌ (ground arith) (window-update bits v (u32 (t + 1)) n i (omega arith) (omega arith))

window_of_pos :
    (bits : ℕ → ℕ) (t n m : ℕ)
    → n ≡ suc m
    → window bits t n ≡ bits (t % size) ∷ window bits (u32 (t + 1)) m
window_of_pos bits t n m e = ap (window bits t) e

window_cong : (bits : ℕ → ℕ) (t n m : ℕ) → n ≡ m → window bits t n ≡ window bits t m
window_cong bits t n m e = ap (window bits t) e

pub init-IsValid : IsValid init
unfolding init count
init-IsValid = omega arith

-- The queue after a bit that fits.
abbrev pushed : BitQueue → ℕ → BitQueue
pushed q bit = record q { bits = update q.bits (q.head % size) (bit % 2); head = u32 (q.head + 1) }

count-pushed :
    (q : BitQueue) (bit : ℕ) → IsValid q → count q < size → count (pushed q bit) ≡ count q + 1
unfolding count
count-pushed q bit v room = omega arith

head_from_count : (q : BitQueue) → IsValid q → q.head % size ≡ (q.tail + count q) % size
unfolding count
head_from_count q v = omega arith

push-eq-pushed : (q : BitQueue) (bit : ℕ) → count q < size → push q bit ≡ (accepted, pushed q bit)
unfolding push
push-eq-pushed q bit room = ground arith

contents-pushed :
    (q : BitQueue) (bit : ℕ)
    → IsValid q
    → count q < size
    → contents (pushed q bit) ≡ contents q ++ bit % 2 ∷ []
contents-pushed q bit v room =
    window_cong (update q.bits (q.head % size) (bit % 2)) q.tail (count (pushed q bit))
      (suc (count q)) (omega (arith, count-pushed q bit v room))
    ∙ window-update q.bits (bit % 2) q.tail (count q) (q.head % size) room (head_from_count q v)

-- Into a valid queue with room, a bit is taken: it goes to the end, and the queue stays valid.
pub push_lem :
    (q : BitQueue) (bit : ℕ)
    → IsValid q
    → count q < size
    → ((push q bit).0 ≡ accepted)
      × (contents (push q bit).1 ≡ contents q ++ bit % 2 ∷ [])
      × (count (push q bit).1 ≡ count q + 1)
      × IsValid (push q bit).1
push_lem q bit v room = rw (push-eq-pushed q bit room) (
  refl,
  contents-pushed q bit v room,
  count-pushed q bit v room,
  omega (arith, count-pushed q bit v room),
)

-- A bit that does not fit changes nothing.
pub push-full : (q : BitQueue) (bit : ℕ) → size ≤ count q → push q bit ≡ (refused, q)
unfolding push
push-full q bit full = ground arith

abbrev popped : BitQueue → BitQueue
popped q = record q { tail = u32 (q.tail + 1) }

count-popped : (q : BitQueue) → IsValid q → q.head ≢ q.tail → count q ≡ count (popped q) + 1
unfolding count
count-popped q v ne = omega arith

count_of_eq : (q : BitQueue) → IsValid q → q.head ≡ q.tail → count q ≡ 0
unfolding count
count_of_eq q v e = omega arith

pop_empty : (q : BitQueue) → q.head ≡ q.tail → pop q ≡ (none, q)
unfolding pop
pop_empty q e = ground arith

pop_oldest : (q : BitQueue) → q.head ≢ q.tail → pop q ≡ (some (q.bits (q.tail % size)), popped q)
unfolding pop
pop_oldest q ne = ground arith

-- On a valid queue, `pop` reports that it is empty, or takes the oldest bit and leaves the others in
-- a valid queue.
pub pop_lem :
    (q : BitQueue)
    → IsValid q
    → ((contents q ≡ []) × (pop q ≡ (none, q)))
      ⊎ ((b : ℕ) × (rest : BitQueue) × (pop q ≡ (some b, rest))
          × (contents q ≡ b ∷ contents rest)
          × (count q ≡ count rest + 1)
          × IsValid rest)
pop_lem q v = elim (ℕ_discrete q.head q.tail) [
  | yes e ↦ inl (ap (window q.bits q.tail) (count_of_eq q v e), pop_empty q e)
  | no ne ↦ inr (
    q.bits (q.tail % size),
    popped q,
    pop_oldest q ne,
    window_of_pos q.bits q.tail (count q) (count (popped q)) (omega (arith, count-popped q v ne)),
    count-popped q v ne,
    omega (arith, count-popped q v ne),
  )
]
