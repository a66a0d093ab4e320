-- ===== src/Call/Valid/Pump.antt =====
-- The byte path of a call keeps it valid (`pump_ppp` of `src/call/sm_call.c`).
use v34_working.Base.{
  ℕ, ◌+◌, ◌-◌, ◌≤◌, ◌≡◌, refl, sym, ap, subst, List, [], ◌∷◌, Bool, true, false, not, ◌&&◌, Option,
  none, some, length, length-append, length-take, length-drop, take, min, ltb, arith, if-Has,
  dec_lt,
}
use v34_working.Serial.Queue.{BitQueue, Status, accepted, refused, size, count, push_byte}
use v34_working.Serial.Queue.Fifo
use v34_working.Serial.Queue.Framing.{push_byte-Extends, push_byte-refused}
use v34_working.Serial.Link.{bbs_write}
use v34_working.Serial.Deframer.{Deframer, deframer_take}
use v34_working.Serial.Deframer.Bounds
use v34_working.Bbs.Session.{World}
use v34_working.Call.{hangup, is_data, is_some, Call}
use v34_working.Call.Pppd.{
  Answer, Host, ppy_size, flush_loop, stage, echo_bytes, start_pppd, ppp_flush, read_bytes,
  read_pppd, relay, echo, hand_over, pump_data, pump_started, resting, wants_pppd, launch, pump_ppp,
}
use v34_working.Call.Pppd.Order.{flush_loop-append}
use v34_working.Call.Valid.{IsValid, Owns-fresh, Owns-lost, with_queue, with_phase, with_deframer}

push_byte-IsValid : (q : BitQueue) (b : ℕ) → Fifo.IsValid q → Fifo.IsValid (push_byte q b).1
push_byte-IsValid q b v = elim (dec_lt size (count q + 10)) [
  | yes full ↦ subst (λ r. Fifo.IsValid r.1) (sym (push_byte-refused q b v full)) v
  | no room ↦ (push_byte-Extends q b v (omega arith)).1.2
]

either-IsValid :
    (s : Status) (i : ℕ) (q q' : BitQueue)
    → Fifo.IsValid q
    → Fifo.IsValid q'
    → Fifo.IsValid (elim s as (λ x. ℕ × BitQueue) [ accepted ↦ (i + 1, q') | refused ↦ (0, q) ]).1
either-IsValid accepted i q q' v w = w
either-IsValid refused i q q' v w = v

bbs_write-IsValid : (q : BitQueue) (bs : List ℕ) → Fifo.IsValid q → Fifo.IsValid (bbs_write q bs).1
unfolding bbs_write
bbs_write-IsValid q [] v = v
bbs_write-IsValid q (b ∷ bs) v =
    let (s, q') = push_byte q b in
    let w = push_byte-IsValid q b v in
    either-IsValid s (bbs_write q' bs).0 q' (bbs_write q' bs).1 w (bbs_write-IsValid q' bs w)

echo_bytes-IsValid : (bs : List ℕ) (q : BitQueue) → Fifo.IsValid q → Fifo.IsValid (echo_bytes bs q)
unfolding echo_bytes
echo_bytes-IsValid [] q v = v
echo_bytes-IsValid (b ∷ bs) q v = echo_bytes-IsValid bs (push_byte q b).1 (push_byte-IsValid q b v)

deframer_take-IsValid :
    (d : Deframer) (n : ℕ) → Bounds.IsValid d → Bounds.IsValid (deframer_take d n).1
unfolding deframer_take
deframer_take-IsValid d n v = record {
  out_fits = omega (arith, length-drop (min n (length d.out)) d.out, v.out_fits);
  unfinished = v.unfinished;
  finished = v.finished;
}

stage-fits : (out bytes : List ℕ) → length out ≤ ppy_size → length (stage out bytes) ≤ ppy_size
unfolding stage
stage-fits out bytes h =
    let n = min (length bytes) (ppy_size - length out) in
    omega (arith, length-append out (take n bytes), length-take n bytes)

module _ {X G : Type 0} where
  start_pppd-IsValid :
      (spawned : Option (ℕ × ℕ)) (c : Call X G)
      → c.ppp_started ≡ false
      → IsValid c
      → IsValid (start_pppd spawned c).1
  unfolding start_pppd
  start_pppd-IsValid none c fresh v = v
  start_pppd-IsValid (some p) c fresh v = record {
    powered = v.powered;
    early = v.early;
    alone = v.alone;
    staged = v.staged;
    started = λ _. refl;
    owned = ap (λ fds. p.1 ∷ fds) (Owns-fresh c.ppp_fd c.ppp_started _ fresh v.started v.owned);
    queue = v.queue;
    unframed = v.unframed;
  }

  with_staged :
      (out : List ℕ) (c : Call X G)
      → length out ≤ ppy_size
      → IsValid c
      → IsValid (record c { ppy_out = out })
  with_staged out c w v = record {
    powered = v.powered;
    early = v.early;
    alone = v.alone;
    staged = w;
    started = v.started;
    owned = v.owned;
    queue = v.queue;
    unframed = v.unframed;
  }

  ppp_flush-IsValid : (ws : List Answer) (c : Call X G) → IsValid c → IsValid (ppp_flush ws c).1
  unfolding ppp_flush
  ppp_flush-IsValid ws c v =
      let (given, left) = flush_loop ws c.ppy_out in
      if-Has {A = List ℕ × Call X G} (λ r. IsValid r.1) (is_some c.ppp_fd)
        (given, record c { ppy_out = left }) ([], c)
        (λ _.
          with_staged left c
            (omega (
              arith,
              length-append given left,
              ap length (flush_loop-append ws c.ppy_out),
              v.staged,
            ))
            v)
        (λ _. v)

  read_bytes-IsValid :
      (found : Option (List ℕ)) (c : Call X G) → IsValid c → IsValid (read_bytes found c)
  unfolding read_bytes
  read_bytes-IsValid none c v = v
  read_bytes-IsValid (some []) c v = record {
    powered = v.powered;
    early = v.early;
    alone = v.alone;
    staged = v.staged;
    started = λ e. absurd (ground arith);
    owned = Owns-lost c.ppp_fd c.ppp_started c.open_ptys v.started v.owned;
    queue = v.queue;
    unframed = v.unframed;
  }
  read_bytes-IsValid (some (b ∷ bs)) c v =
      with_queue _ c (bbs_write-IsValid c.txbits (b ∷ bs) v.queue) v

  read_pppd-IsValid : (h : Host) (c : Call X G) → IsValid c → IsValid (read_pppd h c)
  unfolding read_pppd
  read_pppd-IsValid h c v =
      if-Has IsValid (is_some c.ppp_fd) (read_bytes h.found c) c
        (λ _. read_bytes-IsValid h.found c v) (λ _. v)

  relay-IsValid :
      (h : Host) (bytes : List ℕ) (c : Call X G) → IsValid c → IsValid (relay h bytes c).1
  unfolding relay
  relay-IsValid h bytes c v =
      read_pppd-IsValid h _
        (ppp_flush-IsValid h.answers _ (with_staged _ c (stage-fits c.ppy_out bytes v.staged) v))

  hand_over-IsValid :
      (w : World G) (h : Host) (bytes : List ℕ) (c : Call X G)
      → IsValid c
      → IsValid (hand_over w h c.bbs bytes c).1
  unfolding hand_over
  hand_over-IsValid w h bytes c v =
      subst (λ s. IsValid (hand_over w h s bytes c).1) (sym v.alone) (relay-IsValid h bytes c v)

  pump_data-IsValid :
      (w : World G) (h : Host) (c : Call X G) → IsValid c → IsValid (pump_data w h c).1
  unfolding pump_data echo
  pump_data-IsValid w h c v =
      let (bytes, d) = deframer_take c.deframer 256 in
      let c' = record c { deframer = d } in
      let v' : IsValid c' = with_deframer d c (deframer_take-IsValid c.deframer 256 v.unframed) v in
      if-Has {A = List ℕ × Call X G} (λ r. IsValid r.1) (not (is_data c.phase)) _ _
        (λ _. read_pppd-IsValid h c v)
        (λ _.
          if-Has {A = List ℕ × Call X G} (λ r. IsValid r.1)
            (ltb 0 (length bytes) && c.cfg.echo_data) ([], echo bytes c')
            (hand_over w h c.bbs bytes c')
            (λ _. with_queue _ c' (echo_bytes-IsValid bytes c.txbits v.queue) v')
            (λ _. hand_over-IsValid w h bytes c' v'))

  pump_started-IsValid :
      (w : World G) (h : Host) (r : Bool × Call X G) → IsValid r.1 → IsValid (pump_started w h r).1
  unfolding pump_started
  pump_started-IsValid w h (true, c) v = pump_data-IsValid w h c v
  pump_started-IsValid w h (false, c) v = with_phase hangup c refl v

  launch-IsValid : (h : Host) (c : Call X G) → IsValid c → IsValid (launch h c).1
  unfolding launch
  launch-IsValid h c v =
      if-Has {A = Bool × Call X G} (λ r. IsValid r.1) (wants_pppd c) (start_pppd h.spawned c)
        (true, c) (λ wanted. start_pppd-IsValid h.spawned c (ground arith) v) (λ _. v)

  -- A round of the byte path keeps a call valid.
  pub pump_ppp-IsValid :
      (w : World G) (h : Host) (c : Call X G) → IsValid c → IsValid (pump_ppp w h c).1
  unfolding pump_ppp
  pump_ppp-IsValid w h c v =
      if-Has {A = List ℕ × Call X G} (λ r. IsValid r.1) (resting c) ([], c)
        (pump_started w h (launch h c)) (λ _. v)
        (λ _. pump_started-IsValid w h (launch h c) (launch-IsValid h c v))
