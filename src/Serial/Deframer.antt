-- ===== src/Serial/Deframer.antt =====
-- The deframer of `src/serial/sm_async.c` (`sm_deframer_*`). `out` is the filled part of the C
-- array, so `out_len` is its length.
pub mod Frame
pub mod Bounds
use v34_working.Base.{
  ℕ, ◌+◌, ◌*◌, ◌^◌, ◌%◌, List, [], ◌∷◌, ◌++◌, ◌&&◌, bit_or, u8, u64, leb, ltb, ◌==◌, length, take,
  drop, min, if◌then◌else◌,
}

-- The `int` 0, 1, 2 of `sm_deframer_t.state`.
pub data State : Type 0 where
  idle collecting stop : State

-- `sm_deframer_t`
pub record Deframer : Type 0 where
  pub state : State
  pub nbits : ℕ
  pub byte : ℕ
  pub prev : ℕ
  pub out : List ℕ
  pub framing_errors : ℕ
  pub bytes_out : ℕ

-- sizeof(d->out)
abbrev pub out_size : ℕ
out_size = 4096

unfoldable pub init : Deframer
init = record {
  state = idle;
  nbits = 0;
  byte = 0;
  prev = 1;
  out = [];
  framing_errors = 0;
  bytes_out = 0;
}

-- The `switch` of `sm_deframer_bit`.
unfoldable pub dispatch : State → ℕ → Deframer → Deframer
dispatch idle bit d =
    if d.prev == 1 && bit == 0
    then record d { state = collecting; nbits = 0; byte = 0; prev = bit }
    else record d { prev = bit }
dispatch collecting bit d = record d {
  byte = bit_or d.byte (bit * 2 ^ d.nbits);
  nbits = d.nbits + 1;
  state = if leb 8 (d.nbits + 1) then stop else collecting;
  prev = bit;
}
dispatch stop bit d =
    if bit == 1
    then record d {
      prev = bit;
      out = if ltb (length d.out) out_size then d.out ++ u8 d.byte ∷ [] else d.out;
      bytes_out = u64 (d.bytes_out + 1);
      state = idle;
    }
    else record d { prev = bit; framing_errors = u64 (d.framing_errors + 1); state = idle }

unfoldable pub flush : Deframer → Deframer
flush d = if leb out_size (length d.out) then record d { out = [] } else d

unfoldable pub deframer_bit : Deframer → ℕ → Deframer
unfolding dispatch flush
deframer_bit d bit = dispatch d.state (bit % 2) (flush d)

-- `sm_deframer_take`, for a length that is not negative.
unfoldable pub deframer_take : Deframer → ℕ → List ℕ × Deframer
deframer_take d len =
    let n = min len (length d.out) in (take n d.out, record d { out = drop n d.out })

-- The receiver's calls of `sm_deframer_bit`, in order.
unfoldable pub feed : Deframer → List ℕ → Deframer
feed d [] = d
feed d (b ∷ bs) = feed (deframer_bit d b) bs
