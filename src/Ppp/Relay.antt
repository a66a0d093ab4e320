-- ===== src/Ppp/Relay.antt =====
-- The relay loop of `sm_pppd_shim_main` (sm_pppd.c): a buffer each way, and one round of the loop
-- as a function of what `poll`, `read` and `write` report in it.
pub mod Stream
pub mod Window
use v34_working.Base.{
  ℕ, zero, suc, ◌+◌, ◌-◌, List, [], ◌∷◌, ◌++◌, Bool, true, false, not, ◌&&◌, ◌||◌, leb, ltb, ◌==◌,
  min, length, take, update, if◌then◌else◌,
}

-- SHIM_BUF
abbrev pub capacity : ℕ
capacity = 8192

-- sizeof(scratch)
abbrev pub chunk : ℕ
chunk = 4096

-- One of `to_pppd` and `to_modem`. The array is a function of the index.
pub record Buffer : Type 0 where
  pub bytes : ℕ → ℕ
  pub len : ℕ
  pub off : ℕ

-- What `poll` reports of a descriptor: what was asked for, and POLLHUP or POLLERR, which come
-- unasked.
pub record Event : Type 0 where
  pub ready : Bool
  pub hangup : Bool

-- What `read` gives: the end of the stream or an error, nothing yet, or bytes.
pub data Read : Type 0 where
  ended nothing : Read
  got : List ℕ → Read

-- `memcpy` to an index.
unfoldable pub copy : (ℕ → ℕ) → ℕ → List ℕ → ℕ → ℕ
copy bytes at [] = bytes
copy bytes at (x ∷ xs) = copy (update bytes at x) (at + 1) xs

-- `r > 0`: the length grows whether or not the copy is made.
unfoldable pub append : Buffer → List ℕ → Buffer
unfolding copy
append b xs = record b {
  bytes = if leb (b.len + length xs) capacity then copy b.bytes b.len xs else b.bytes;
  len = b.len + length xs;
}

-- `n` bytes from an index on.
abbrev pub window : (ℕ → ℕ) → ℕ → ℕ → List ℕ
window bytes at zero = []
window bytes at (suc n) = bytes at ∷ window bytes (at + 1) n

-- A descriptor is served if it is ready for what was asked, or hung up.
abbrev pub served : Bool → Event → Bool
served asked e = (asked && e.ready) || e.hangup

-- A way through the shim: its buffer, what it has read and what it has written.
pub record Way : Type 0 where
  pub buffer : Buffer
  pub taken : List ℕ
  pub given : List ℕ

-- What a way reads, with the end of the stream apart.
pub data Taken : Type 0 where
  over : Taken
  more : Way → Taken

-- The reading half for one way: `asked` is whether POLLIN was asked for.
unfoldable pub take_in : Bool → Event → Read → Way → Taken
unfolding append
take_in asked e r w =
    let result : Taken = elim r [
      | ended ↦ over
      | nothing ↦ more w
      | got xs ↦
          more (record w {
            buffer = append w.buffer (take chunk xs);
            taken = w.taken ++ take chunk xs;
          })
    ] in
    if served asked e then result else more w

-- The rewind of an empty buffer.
unfoldable pub rewind : Buffer → Buffer
rewind b = if b.off == b.len then record b { off = 0; len = 0 } else b

-- The writing half: `write` takes `k` of the bytes offered, or fails with `k` zero.
unfoldable pub give_out : Bool → Event → ℕ → Way → Way
unfolding rewind
give_out asked e k w =
    let b = w.buffer in
    let r = min k (b.len - b.off) in
    if ltb 0 b.len && served asked e
    then record w {
      buffer = rewind (record b { off = b.off + r });
      given = w.given ++ window b.bytes b.off r;
    }
    else w

-- What the calls report in one round, for one way.
pub record Report : Type 0 where
  pub input : Event
  pub read : Read
  pub output : Event
  pub wrote : ℕ

-- One way in one round. Both questions to `poll` are asked before the round's reads.
unfoldable pub pass : Report → Way → Taken
unfolding take_in give_out
pass q w =
    let asked_out = ltb 0 w.buffer.len in
    elim (take_in (not asked_out) q.input q.read w) [
      | over ↦ over
      | more w' ↦ more (give_out asked_out q.output q.wrote w')
    ]

-- The shim runs, or has returned 0.
pub data Shim : Type 0 where
  running : Way → Way → Shim
  returned : Way → Way → Shim

-- The end of a round, for the way from the modem to pppd.
abbrev pub second : Way → Way → Taken → Shim
second to_modem to_pppd over = returned to_modem to_pppd
second to_modem to_pppd (more w) = running to_modem w

-- The rest of a round, after the way from pppd to the modem.
abbrev pub first : Way → Way → Report → Taken → Shim
first to_modem to_pppd q over = returned to_modem to_pppd
first to_modem to_pppd q (more w) = second w to_pppd (pass q to_pppd)

-- One round of the loop, first from pppd to the modem and then from the modem to pppd.
unfoldable pub round : Report → Report → Shim → Shim
unfolding pass
round p m (returned to_modem to_pppd) = returned to_modem to_pppd
round p m (running to_modem to_pppd) = first to_modem to_pppd m (pass p to_modem)

-- The rounds of the loop.
unfoldable pub relay : List (Report × Report) → Shim → Shim
unfolding round
relay [] s = s
relay (q ∷ qs) s = relay qs (round q.0 q.1 s)

unfoldable pub start : Shim
start =
    let empty : Buffer = record { bytes = λ _. 0; len = 0; off = 0 } in
    let way : Way = record { buffer = empty; taken = []; given = [] } in running way way
