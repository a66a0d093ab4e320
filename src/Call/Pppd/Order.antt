-- ===== src/Call/Pppd/Order.antt =====
-- The bytes on the way from the line to pppd (`pump_ppp`, `ppp_flush`).
use v34_working.Base.{
  ℕ, ◌+◌, ◌≤◌, ◌≡◌, refl, sym, ap, ◌∙◌, List, [], ◌∷◌, ◌++◌, Bool, true, false, Option, none, some,
  length, take, drop, min, take-append-drop, append_assoc, length-take, arith, if-Has, ap₂,
  take-all, not, ltb, ◌&&◌, subst,
}
use v34_working.Call.{is_some, is_data, Call}
use v34_working.Bbs.Session.{World}
use v34_working.Serial.Deframer.{deframer_take}
use v34_working.Call.Pppd.{
  Answer, Host, flush_loop, stage, ppp_flush, relay, read_bytes, read_pppd, ppy_size, hand_over,
  pump_data, pump_started, start_pppd, resting, wants_pppd, launch, pump_ppp,
}

-- What is given and what is left are what there was.
pub flush_loop-append :
    (ws : List Answer) (bs : List ℕ) → (flush_loop ws bs).0 ++ (flush_loop ws bs).1 ≡ bs
unfolding flush_loop
flush_loop-append ws [] = refl
flush_loop-append [] (b ∷ bs) = refl
flush_loop-append (Answer.interrupted ∷ ws) (b ∷ bs) = flush_loop-append ws (b ∷ bs)
flush_loop-append (Answer.refused ∷ ws) (b ∷ bs) = refl
flush_loop-append (Answer.took w ∷ ws) (b ∷ bs) =
    append_assoc (take w (b ∷ bs)) (flush_loop ws (drop w (b ∷ bs))).0
      (flush_loop ws (drop w (b ∷ bs))).1
    ∙ ap (λ l. take w (b ∷ bs) ++ l) (flush_loop-append ws (drop w (b ∷ bs)))
    ∙ take-append-drop w (b ∷ bs)

stage-all :
    (out bytes : List ℕ) → length out + length bytes ≤ ppy_size → stage out bytes ≡ out ++ bytes
unfolding stage
stage-all out bytes room = ap (λ l. out ++ l) (take-all _ bytes (omega arith))

module _ {X G : Type 0} where
  -- The bytes for pppd are as they were.
  abbrev SameBytes : Call X G → Call X G → Type 0
  SameBytes c d = (d.ppy_out ≡ c.ppy_out) × (d.deframer ≡ c.deframer)

  read_bytes-SameBytes : (found : Option (List ℕ)) (c : Call X G) → SameBytes c (read_bytes found c)
  unfolding read_bytes
  read_bytes-SameBytes none c = (refl, refl)
  read_bytes-SameBytes (some []) c = (refl, refl)
  read_bytes-SameBytes (some (b ∷ bs)) c = (refl, refl)

  pub read_pppd-SameBytes : (h : Host) (c : Call X G) → SameBytes c (read_pppd h c)
  unfolding read_pppd
  read_pppd-SameBytes h c =
      if-Has (SameBytes c) (is_some c.ppp_fd) _ _ (λ _. read_bytes-SameBytes h.found c)
        (λ _. (refl, refl))

  -- The bytes on the way: given to pppd, staged, or still in the deframer.
  abbrev pub on_the_way : List ℕ × Call X G → List ℕ
  on_the_way r = (r.0 ++ r.1.ppy_out) ++ r.1.deframer.out

  -- A flush gives the first bytes that are staged, and keeps the others.
  abbrev Flushes : Call X G → List ℕ × Call X G → Type 0
  Flushes c r = (r.0 ++ r.1.ppy_out ≡ c.ppy_out) × (r.1.deframer ≡ c.deframer)

  ppp_flush-Flushes : (ws : List Answer) (c : Call X G) → Flushes c (ppp_flush ws c)
  unfolding ppp_flush
  ppp_flush-Flushes ws c =
      if-Has (Flushes c) (is_some c.ppp_fd) _ _ (λ _. (flush_loop-append ws c.ppy_out, refl))
        (λ _. (refl, refl))

  relay-Flushes :
      (h : Host) (bytes : List ℕ) (c : Call X G)
      → Flushes (record c { ppy_out = stage c.ppy_out bytes }) (relay h bytes c)
  unfolding relay
  relay-Flushes h bytes c =
      let c' = record c {
        ppy_out = stage c.ppy_out bytes;
        data_bytes_rx = c.data_bytes_rx + length bytes;
      } in
      let r = ppp_flush h.answers c' in
      let f = ppp_flush-Flushes h.answers c' in
      let s = read_pppd-SameBytes h r.1 in (ap (λ l. r.0 ++ l) s.0 ∙ f.0, s.1 ∙ f.1)

  -- Nothing is lost on the way.
  abbrev Conserves : Call X G → List ℕ × Call X G → Type 0
  Conserves c r = on_the_way r ≡ c.ppy_out ++ c.deframer.out

  relay-Conserves :
      (h : Host) (c : Call X G)
      → length c.ppy_out + 256 ≤ ppy_size
      → Conserves c (
          relay h
            (deframer_take c.deframer 256).0
            (record c { deframer = (deframer_take c.deframer 256).1 }))
  unfolding deframer_take
  relay-Conserves h c room =
      let n = min 256 (length c.deframer.out) in
      let bytes = take n c.deframer.out in
      let rest = drop n c.deframer.out in
      let f = relay-Flushes h bytes (record c { deframer = record c.deframer { out = rest } }) in
      ap₂ (λ l d. l ++ d) f.0 (ap (λ d. d.out) f.1)
      ∙ ap (λ l. l ++ rest)
          (stage-all c.ppy_out bytes (omega (arith, length-take n c.deframer.out)))
      ∙ append_assoc c.ppy_out bytes rest
      ∙ ap (λ l. c.ppy_out ++ l) (take-append-drop n c.deframer.out)

  pump_data-Conserves :
      (w : World G) (h : Host) (c : Call X G)
      → c.cfg.echo_data ≡ false
      → c.bbs ≡ none
      → length c.ppy_out + 256 ≤ ppy_size
      → Conserves c (pump_data w h c)
  unfolding pump_data hand_over
  pump_data-Conserves w h c quiet free room =
      let k = read_pppd-SameBytes h c in
      let c' = record c { deframer = (deframer_take c.deframer 256).1 } in
      let bytes = (deframer_take c.deframer 256).0 in
      if-Has (Conserves c) (not (is_data c.phase)) _ _
        (λ _. ap₂ (λ l d. l ++ d) k.0 (ap (λ d. d.out) k.1))
        (λ _.
          if-Has (Conserves c) (ltb 0 (length bytes) && c.cfg.echo_data) _ _
            (λ loud. absurd (grind arith))
            (λ _.
              subst (λ s. Conserves c (hand_over w h s bytes c')) (sym free)
                (relay-Conserves h c room)))

  pump_started-Conserves :
      (w : World G) (h : Host) (ok : Bool) (c : Call X G)
      → c.cfg.echo_data ≡ false
      → c.bbs ≡ none
      → length c.ppy_out + 256 ≤ ppy_size
      → Conserves c (pump_started w h (ok, c))
  unfolding pump_started
  pump_started-Conserves w h true c quiet free room = pump_data-Conserves w h c quiet free room
  pump_started-Conserves w h false c quiet free room = refl

  start-Conserves :
      (w : World G) (h : Host) (spawned : Option (ℕ × ℕ)) (c : Call X G)
      → c.cfg.echo_data ≡ false
      → c.bbs ≡ none
      → length c.ppy_out + 256 ≤ ppy_size
      → Conserves c (pump_started w h (start_pppd spawned c))
  unfolding start_pppd
  start-Conserves w h none c quiet free room =
      pump_started-Conserves w h false (record c { pppd_pid = none }) quiet free room
  start-Conserves w h (some p) c quiet free room =
      pump_started-Conserves w h true
        (record c {
          pppd_pid = some p.0;
          ppp_fd = some p.1;
          ppp_started = true;
          open_ptys = p.1 ∷ c.open_ptys;
        })
        quiet free room

  launch-Conserves :
      (w : World G) (h : Host) (c : Call X G)
      → c.cfg.echo_data ≡ false
      → c.bbs ≡ none
      → length c.ppy_out + 256 ≤ ppy_size
      → Conserves c (pump_started w h (launch h c))
  unfolding launch
  launch-Conserves w h c quiet free room =
      if-Has (λ r. Conserves c (pump_started w h r)) (wants_pppd c) (start_pppd h.spawned c)
        (true, c) (λ _. start-Conserves w h h.spawned c quiet free room)
        (λ _. pump_started-Conserves w h true c quiet free room)

  -- A round of the byte path loses nothing and keeps the order, unless it echoes or there is a
  -- session, while 256 bytes fit into `ppy_out`: what pppd is given, what is staged and what is
  -- still in the deframer are, one after the other, what was staged and in the deframer before.
  pub pump_ppp-Conserves :
      (w : World G) (h : Host) (c : Call X G)
      → c.cfg.echo_data ≡ false
      → c.bbs ≡ none
      → length c.ppy_out + 256 ≤ ppy_size
      → ((pump_ppp w h c).0 ++ (pump_ppp w h c).1.ppy_out) ++ (pump_ppp w h c).1.deframer.out
        ≡ c.ppy_out ++ c.deframer.out
  unfolding pump_ppp
  pump_ppp-Conserves w h c quiet free room =
      if-Has (Conserves c) (resting c) ([], c) (pump_started w h (launch h c)) (λ _. refl)
        (λ _. launch-Conserves w h c quiet free room)
