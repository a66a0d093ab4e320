-- ===== src/AudioSocket/Reader.antt =====
-- `sm_ast_read`: a message is put together from partial reads, and a timeout in the middle keeps
-- what has come in. `rxhead` and `rxbuf` are the filled parts of the C arrays, so `rxhdr` is the
-- length of `rxhead`.
pub mod Header
pub mod Payload
pub mod Resume
pub mod Progress
use v34_working.Base.{
  ℕ, zero, suc, ◌+◌, ◌-◌, ◌*◌, List, [], ◌∷◌, ◌++◌, Bool, true, false, Option, none, some, ltb, min,
  length, get_or, take, if◌then◌else◌,
}
use v34_working.AudioSocket.Net.{Net, Got, bytes, none_yet, closed, waiting, recv_into}

-- SM_AS_MAX_PAYLOAD, the size of `rxbuf`
abbrev pub max_payload : ℕ
max_payload = 4096

-- `sm_ast_socket_t`
pub record Socket : Type 0 where
  pub rxbuf : List ℕ
  pub rxlen : ℕ
  pub rxhead : List ℕ
  pub rx_expected : ℕ
  pub rx_kind : ℕ
  pub rx_pending : Bool

-- `sm_ast_init`
unfoldable pub init : Socket
init = record {
  rxbuf = [];
  rxlen = 0;
  rxhead = [];
  rx_expected = 0;
  rx_kind = 0;
  rx_pending = false;
}

-- What `sm_ast_read` returns. `message` has the kind, the bytes copied into the caller's buffer,
-- and the `payload_len` reported. `overread` is a copy from beyond the end of `rxbuf`.
pub data Outcome : Type 0 where
  message : ℕ → List ℕ → ℕ → Outcome
  timeout failed pending overread : Outcome

-- A loop either comes to its end (`none`) or leaves the function.
abbrev pub Run : Type 0
Run = Option Outcome × Socket × Net

-- What follows a `recv_into`: it goes on with the bytes, or returns early and keeps the state.
unfoldable pub after_recv : (List ℕ → Net → Run) → Socket → Got × Net → Run
after_recv next s (bytes bs, net) = next bs net
after_recv next s (none_yet, net) = (some timeout, s, net)
after_recv next s (closed, net) = (some failed, s, net)
after_recv next s (waiting, net) = (some pending, s, net)

-- Phase 1: the three header bytes. The fuel is the number of bytes missing.
unfoldable pub header_loop : ℕ → Socket → Net → Run
header_loop zero s net = (none, s, net)
header_loop (suc fuel) s net =
    let rest =
      after_recv (λ bs net'. header_loop fuel (record s { rxhead = s.rxhead ++ bs }) net') s
        (recv_into (3 - length s.rxhead) net) in
    if ltb (length s.rxhead) 3 then rest else (none, s, net)

unfoldable pub parse_header : Socket → Socket
parse_header s = record s {
  rx_kind = get_or s.rxhead 0 0;
  rx_expected = get_or s.rxhead 1 0 * 256 + get_or s.rxhead 2 0;
  rxlen = 0;
  rxhead = [];
  rxbuf = [];
  rx_pending = true;
}

-- How much the next `recv_into` of phase 2 asks for: room in `rxbuf`, or a piece of scratch space
-- for what is thrown away.
abbrev pub want : Socket → ℕ
want s =
    let remaining = s.rx_expected - s.rxlen in
    if ltb s.rxlen max_payload then min remaining (max_payload - s.rxlen) else min remaining 256

-- Where the bytes go.
abbrev pub store : Socket → List ℕ → Socket
store s bs = record s {
  rxbuf = if ltb s.rxlen max_payload then s.rxbuf ++ bs else s.rxbuf;
  rxlen = s.rxlen + length bs;
}

-- Phase 2: the payload. The fuel is the number of bytes missing.
unfoldable pub payload_loop : ℕ → Socket → Net → Run
payload_loop zero s net = (none, s, net)
payload_loop (suc fuel) s net =
    let rest =
      after_recv (λ bs net'. payload_loop fuel (store s bs) net') s (recv_into (want s) net) in
    if ltb s.rxlen s.rx_expected then rest else (none, s, net)

-- The copy to the caller and the reset for the next message.
unfoldable pub finish : ℕ → Socket → Net → Outcome × Socket × Net
finish buf_len s net =
    let copy_len = min s.rx_expected buf_len in
    (
      if ltb max_payload copy_len
          then overread
          else message s.rx_kind (take copy_len s.rxbuf) s.rx_expected,
      record s { rxhead = []; rxlen = 0; rx_expected = 0; rx_pending = false },
      net,
    )

-- The end of a message, unless the loop left early.
unfoldable pub after_payload : ℕ → Run → Outcome × Socket × Net
unfolding finish
after_payload buf_len (none, s, net) = finish buf_len s net
after_payload buf_len (some r, s, net) = (r, s, net)

unfoldable pub read_payload : ℕ → Socket → Net → Outcome × Socket × Net
unfolding payload_loop after_payload
read_payload buf_len s net = after_payload buf_len (payload_loop (s.rx_expected - s.rxlen) s net)

unfoldable pub after_header : ℕ → Run → Outcome × Socket × Net
unfolding parse_header read_payload
after_header buf_len (none, s, net) = read_payload buf_len (parse_header s) net
after_header buf_len (some r, s, net) = (r, s, net)

-- `sm_ast_read`, with a buffer of `buf_len` bytes.
unfoldable pub read : ℕ → Socket → Net → Outcome × Socket × Net
unfolding header_loop after_header
read buf_len s net =
    if s.rx_pending
    then read_payload buf_len s net
    else after_header buf_len (header_loop (3 - length s.rxhead) s net)
