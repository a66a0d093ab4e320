-- ===== src/Call/Process/Fresh.antt =====
-- V.22bis before data mode: what its receiver makes of the handshake (`call_put_bit`,
-- `process_audio` of `src/call/sm_call.c`).
use v34_working.Base.{
  ℕ, ◌+◌, ◌≡◌, refl, sym, ap, ◌∙◌, subst, List, [], ◌∷◌, true, false, Option, none, some, length,
  drop, replicate, ltb, arith, if-Has, if_false,
}
use v34_working.Serial.Deframer.{init as deframer_init}
use v34_working.Call.{Mode, v22, v34, handshake, is_data, Call}
use v34_working.Call.Bits.{
  ModemStatus, training_succeeded, training_failed, carrier_up, carrier_down, retrain_occurred,
  Script, put_data, put_valid, call_put_bit, call_status, play,
}
use v34_working.Call.Bits.Keeps.{play-Keeps}
use v34_working.Call.Engines.{Engines}
use v34_working.Call.Audio.{
  transmit, run_v22, run_guard, run_engine, run_rest, run_modem, audio_loop,
}
use v34_working.Call.Audio.Guard.{loop-handshake}
use v34_working.Call.Process.{
  captures, sees_data, capture, run_chunk, leave_v8, detect_data, process_audio,
}

module _ {X G : Type 0} where
  -- A V.22bis call in its handshake, which BinModem does not own.
  pub record InTraining (c : Call X G) : Type 0 where
    pub at_v22 : c.mode ≡ v22
    pub at_handshake : c.phase ≡ handshake

  put_valid-InTraining :
      (m : Mode) (bit rate : ℕ) (c : Call X G)
      → m ≡ v22
      → InTraining c
      → InTraining (put_valid m bit rate c)
  unfolding put_valid
  put_valid-InTraining v34 bit rate c h v = absurd (ground arith)
  put_valid-InTraining v22 bit rate c h v =
      let off : is_data c.phase ≡ false = ap is_data v.at_handshake in
      subst InTraining (sym (if_false (is_data c.phase) (put_data bit c) c off)) v

  call_put_bit-InTraining :
      (bit : Option ℕ) (rate : ℕ) (c : Call X G)
      → InTraining c
      → InTraining (call_put_bit bit rate c)
  unfolding call_put_bit
  call_put_bit-InTraining none rate c v = v
  call_put_bit-InTraining (some bit) rate c v = put_valid-InTraining c.mode bit rate c v.at_v22 v

  call_status-InTraining :
      (st : ModemStatus) (c : Call X G) → InTraining c → InTraining (call_status st c)
  unfolding call_status
  call_status-InTraining retrain_occurred c v = record { at_v22 = v.at_v22; at_handshake = refl }
  call_status-InTraining training_succeeded c v = v
  call_status-InTraining training_failed c v = v
  call_status-InTraining carrier_up c v = v
  call_status-InTraining carrier_down c v = v

  play-InTraining :
      {A : Type 0} (s : Script A) (c : Call X G) → InTraining c → InTraining (play s c).1
  play-InTraining s c v =
      play-Keeps InTraining (λ d w. record { at_v22 = w.at_v22; at_handshake = w.at_handshake })
        call_put_bit-InTraining call_status-InTraining s c v

  transmit-InTraining :
      (tx : Script (List ℕ × X)) (n i : ℕ) (c : Call X G)
      → InTraining c
      → InTraining (transmit tx n i c).1
  unfolding transmit
  transmit-InTraining tx n i c v =
      let w = play-InTraining tx c v in record { at_v22 = w.at_v22; at_handshake = w.at_handshake }

  capture-InTraining : (xs : List ℕ) (c : Call X G) → InTraining c → InTraining (capture xs c)
  unfolding capture
  capture-InTraining xs c v =
      if-Has InTraining (captures c) _ c
        (λ _. record { at_v22 = v.at_v22; at_handshake = v.at_handshake }) (λ _. v)

  capture-bm : (xs : List ℕ) (c : Call X G) → (capture xs c).bm ≡ c.bm
  unfolding capture
  capture-bm xs c = if-Has (λ d. d.bm ≡ c.bm) (captures c) _ c (λ _. refl) (λ _. refl)

module _ {X G : Type 0} (e : Engines X) where
  run_v22-InTraining :
      (i : ℕ) (xs : List ℕ) (c : Call X G) → InTraining c → InTraining (run_v22 e i xs c)
  unfolding run_v22
  run_v22-InTraining i xs c v =
      let tx = e.v22bis_tx c.modem (length xs) in
      let (m, c₁) = transmit tx (length xs) i c in
      let w = play-InTraining (e.v22bis_rx m xs) c₁ (transmit-InTraining tx (length xs) i c v) in
      record { at_v22 = w.at_v22; at_handshake = w.at_handshake }

  run_engine-InTraining :
      (m : Mode) (i : ℕ) (xs : List ℕ) (c : Call X G)
      → m ≡ v22
      → InTraining c
      → InTraining (run_engine e m i xs c)
  unfolding run_engine
  run_engine-InTraining v22 i xs c h v = run_v22-InTraining i xs c v
  run_engine-InTraining v34 i xs c h v = absurd (ground arith)

  run_rest-InTraining :
      (i : ℕ) (xs : List ℕ) (c : Call X G) → InTraining c → InTraining (run_rest e i xs c)
  unfolding run_rest
  run_rest-InTraining i xs c v =
      if-Has InTraining (ltb 0 (length xs)) (run_engine e c.mode i xs c) c
        (λ _. run_engine-InTraining c.mode i xs c v.at_v22 v) (λ _. v)

  run_guard-InTraining :
      (i : ℕ) (xs : List ℕ) (c : Call X G) → InTraining c → InTraining (run_guard e i xs c).1
  unfolding run_guard
  run_guard-InTraining i xs c v =
      let w = run_v22-InTraining i (replicate (run_guard e i xs c).0 0) c v in
      record { at_v22 = w.at_v22; at_handshake = w.at_handshake }

  run_modem-InTraining :
      (i : ℕ) (xs : List ℕ) (c : Call X G) → InTraining c → InTraining (run_modem e i xs c)
  unfolding run_modem
  run_modem-InTraining i xs c v =
      let (skip, c') = run_guard e i xs c in
      if-Has InTraining (ltb 0 c.rx_guard) (run_rest e (i + skip) (drop skip xs) c')
        (run_rest e i xs c)
        (λ _. run_rest-InTraining (i + skip) (drop skip xs) c' (run_guard-InTraining i xs c v))
        (λ _. run_rest-InTraining i xs c v)

  audio_loop-InTraining :
      (xs : List ℕ) (c : Call X G) → InTraining c → InTraining (audio_loop e 0 xs c)
  unfolding audio_loop
  audio_loop-InTraining [] c v = v
  audio_loop-InTraining (x ∷ xs) c v =
      subst InTraining (sym (loop-handshake e 0 x xs c v.at_handshake))
        (run_modem-InTraining 0 (x ∷ xs) c v)

  -- Data mode is not yet on, or it begins with an empty deframer.
  abbrev BeginsEmpty : Call X G → Type 0
  BeginsEmpty c = is_data c.phase ≡ true → c.deframer ≡ deframer_init

  leave_v8-InTraining : (c : Call X G) → InTraining c → leave_v8 e c ≡ c
  unfolding leave_v8
  leave_v8-InTraining c v = rw v.at_handshake refl

  detect_data-BeginsEmpty : (c : Call X G) → InTraining c → BeginsEmpty (detect_data e c)
  unfolding detect_data
  detect_data-BeginsEmpty c v =
      if-Has BeginsEmpty (sees_data e c) _ c (λ _ _. refl)
        (λ _ q. absurd (ground (arith, v.at_handshake)))

  run_chunk-InTraining :
      (xs : List ℕ) (o : Option X) (c : Call X G)
      → o ≡ none
      → InTraining c
      → InTraining (run_chunk e xs o c)
  unfolding run_chunk
  run_chunk-InTraining xs none c h v = audio_loop-InTraining xs c v
  run_chunk-InTraining xs (some b) c h v = absurd (ground arith)

  -- When a V.22bis handshake comes to data mode, nothing of what the receiver made of the handshake
  -- is left: the deframer is empty and waits for a start bit, whatever bits the engine has
  -- reported before.
  pub process_audio-deframer_init :
      (xs : List ℕ) (c : Call X G)
      → c.mode ≡ v22
      → c.phase ≡ handshake
      → c.bm ≡ none
      → is_data (process_audio e xs c).phase ≡ true
      → (process_audio e xs c).deframer ≡ deframer_init
  unfolding process_audio
  process_audio-deframer_init xs c m h owned =
      let c₁ = capture xs c in
      let c₂ = run_chunk e xs c₁.bm c₁ in
      let v₁ = capture-InTraining xs c (record { at_v22 = m; at_handshake = h }) in
      let v₂ = run_chunk-InTraining xs c₁.bm c₁ (capture-bm xs c ∙ owned) v₁ in
      subst (λ d. BeginsEmpty (detect_data e d)) (sym (leave_v8-InTraining c₂ v₂))
        (detect_data-BeginsEmpty c₂ v₂)
