-- ===== src/Serial/Queue.antt =====
-- The bit queue of `src/serial/sm_async.c` (`sm_bitq_*`). `head` and `tail` are `uint32_t` sequence
-- numbers that wrap; a masked index is a remainder by the size.
pub mod Fifo
pub mod Framing
use v34_working.Base.{
  ℕ, zero, suc, ◌+◌, ◌/◌, ◌%◌, ◌^◌, Option, none, some, u32, sub_u32, ltb, leb, ◌==◌, update,
  if◌then◌else◌,
}

-- SM_BITQ_SIZE
abbrev pub size : ℕ
size = 65536

-- `sm_bitq_t`
pub record BitQueue : Type 0 where
  pub bits : ℕ → ℕ
  pub head : ℕ
  pub tail : ℕ

-- The `int` result: 0, or -1 when there is no room.
pub data Status : Type 0 where
  accepted refused : Status

unfoldable pub init : BitQueue
init = record { bits = λ i. 0; head = 0; tail = 0 }

unfoldable pub count : BitQueue → ℕ
count q = sub_u32 q.head q.tail

unfoldable pub push : BitQueue → ℕ → Status × BitQueue
unfolding count
push q bit = if leb size (count q) then (refused, q) else (
  accepted,
  record q { bits = update q.bits (q.head % size) (bit % 2); head = u32 (q.head + 1) },
)

-- `sm_bitq_bytes`
unfoldable pub bytes : BitQueue → ℕ
unfolding count
bytes q = count q / 10

-- The `for` loop of `sm_bitq_push_byte` from bit `i`, with `left` rounds to go.
unfoldable pub push_data : ℕ → ℕ → ℕ → BitQueue → BitQueue
push_data zero i byte q = q
push_data (suc left) i byte q = push_data left (i + 1) byte (push q (byte / 2 ^ i % 2)).1

unfoldable pub push_byte : BitQueue → ℕ → Status × BitQueue
unfolding count push_data
push_byte q byte =
    if ltb size (u32 (count q + 10))
    then (refused, q)
    else (accepted, (push (push_data 8 0 byte (push q 0).1) 1).1)

-- `none` is the -1 of an empty queue.
unfoldable pub pop : BitQueue → Option ℕ × BitQueue
pop q =
    if q.head == q.tail
    then (none, q)
    else (some (q.bits (q.tail % size)), record q { tail = u32 (q.tail + 1) })
