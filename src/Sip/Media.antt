-- ===== src/Sip/Media.antt =====
-- The paced audio pump of `src/sip/sm_sip.c`: received frames wait in a ring of slots (`enqueue_rx`)
-- and leave on the clock (`audio_tick`). A slot is its `nsamples` samples.
pub mod Fifo
pub mod Play
use v34_working.Base.{
  ℕ, ◌+◌, ◌%◌, List, [], ◌∷◌, ◌==◌, length, take, replicate, update, if◌then◌else◌,
}
use v34_working.Sip.Rtp.{max_payload}

-- SM_SIP_RXQ
abbrev pub slots : ℕ
slots = 32

-- The pump's part of `struct sm_sip`.
pub record Pump : Type 0 where
  pub rxq : ℕ → List ℕ
  pub head : ℕ
  pub tail : ℕ
  pub tick_ns : ℕ
  pub underruns : ℕ
  pub drops : ℕ

-- The reset as a call begins (`handle_invite`). The slots stay as they are.
unfoldable pub begin : Pump → Pump
begin p = record p { head = 0; tail = 0; tick_ns = 160; underruns = 0; drops = 0 }

-- `enqueue_rx` once there are samples, the queue full or not.
unfoldable pub store : Pump → List ℕ → Pump
store p frame =
    let next = (p.head + 1) % slots in
    let p' =
      if next == p.tail then record p { tail = (p.tail + 1) % slots; drops = p.drops + 1 } else p in
    record p' { rxq = update p.rxq p.head frame; head = next; tick_ns = length frame }

-- `enqueue_rx`
unfoldable pub enqueue_rx : Pump → List ℕ → Pump
unfolding store
enqueue_rx p [] = p
enqueue_rx p (x ∷ xs) = store p (take max_payload (x ∷ xs))

-- The frame that `audio_tick` hands to the daemon: the oldest, or silence.
unfoldable pub next_frame : Pump → List ℕ × Pump
next_frame p =
    if p.head == p.tail
    then (replicate p.tick_ns 0, record p { underruns = p.underruns + 1 })
    else (p.rxq p.tail, record p { tail = (p.tail + 1) % slots })
