-- ===== src/Call/Valid/Process.antt =====
-- The audio of a call keeps it valid (`process_audio` and `bm_poll` of `src/call/sm_call.c`).
use v34_working.Base.{
  ℕ, ◌+◌, ◌≡◌, refl, ap, List, [], ◌∷◌, Bool, true, false, ◌&&◌, Option, none, some, length, leb,
  ◌==◌, update, arith, if-Has, if◌then◌else◌,
}
use v34_working.Call.{v22, handshake, data_mode, hangup, is_v8, is_data, Call}
use v34_working.Call.Bits.{play}
use v34_working.Call.Engines.{
  BmStatus, running, connected, failed, agreed_v22, agreed_other, retraining, Engines,
}
use v34_working.Call.Process.{
  captures, sees_data, capture, enter_v22, bm_retrain, bm_data, bm_watch, bm_poll, bm_steps,
  bm_chunk, run_chunk, new_v34, enter_v34, force_v34, without_v34, chosen_v34, leave_v8,
  detect_data, tick, process_audio,
}
use v34_working.Call.Valid.{IsValid, with_phase, with_reset, play-IsValid}
use v34_working.Call.Valid.Audio.{audio_loop-IsValid}

module _ {X G : Type 0} where
  with_v22 : (c : Call X G) → IsValid c → IsValid (record c { mode = v22; phase = handshake })
  with_v22 c v = record {
    powered = λ e. absurd (ground arith);
    early = λ q. refl;
    alone = v.alone;
    staged = v.staged;
    started = v.started;
    owned = v.owned;
    queue = v.queue;
    unframed = v.unframed;
  }

  late-IsValid :
      (late : Bool) (c : Call X G)
      → IsValid c
      → IsValid (record c { phase = if late then hangup else c.phase })
  late-IsValid true c v = with_phase hangup c refl v
  late-IsValid false c v = v

  capture-IsValid : (xs : List ℕ) (c : Call X G) → IsValid c → IsValid (capture xs c)
  unfolding capture
  capture-IsValid xs c v = if-Has IsValid (captures c) _ _ (λ _. v) (λ _. v)

module _ {X G : Type 0} (e : Engines X) where
  enter_v22-IsValid : (c : Call X G) → IsValid c → IsValid (enter_v22 e c)
  unfolding enter_v22
  enter_v22-IsValid c v = with_v22 c v

  bm_retrain-IsValid : (c : Call X G) → IsValid c → IsValid (bm_retrain e c)
  unfolding bm_retrain
  bm_retrain-IsValid c v =
      if-Has IsValid (is_data c.phase) _ _ (λ _. with_reset handshake c refl v) (λ _. v)

  bm_data-IsValid : (b : X) (c : Call X G) → IsValid c → IsValid (bm_data e b c)
  unfolding bm_data
  bm_data-IsValid b c v =
      if-Has IsValid (is_data c.phase) _ _ (λ _. v) (λ _. with_reset data_mode c refl v)

  bm_watch-IsValid : (b : X) (n : ℕ) (c : Call X G) → IsValid c → IsValid (bm_watch e b n c)
  unfolding bm_watch
  bm_watch-IsValid b n c v =
      if-Has IsValid (e.bm_carrier b) _ _ (λ _. v)
        (λ _. late-IsValid (leb 4000 (c.bm_nocarrier + n)) c v)

  bm_poll-IsValid :
      (st : BmStatus) (b : X) (n : ℕ) (c : Call X G) → IsValid c → IsValid (bm_poll e st b n c)
  unfolding bm_poll
  bm_poll-IsValid failed b n c v = with_phase hangup c refl v
  bm_poll-IsValid agreed_v22 b n c v = enter_v22-IsValid c v
  bm_poll-IsValid agreed_other b n c v = enter_v22-IsValid c v
  bm_poll-IsValid retraining b n c v = bm_retrain-IsValid c v
  bm_poll-IsValid connected b n c v =
      bm_watch-IsValid (if is_data c.phase then b else e.bm_flush_rx b) n (bm_data e b c)
        (bm_data-IsValid b c v)
  bm_poll-IsValid running b n c v = v

  bm_steps-IsValid :
      (i : ℕ) (xs : List ℕ) (b : X) (c : Call X G) → IsValid c → IsValid (bm_steps e i xs b c)
  unfolding bm_steps
  bm_steps-IsValid i [] b c v = v
  bm_steps-IsValid i (x ∷ xs) b c v =
      let ((y, b'), c') = play (e.bm_step b x) c in
      bm_steps-IsValid (i + 1) xs b' (record c' { txbuf = update c'.txbuf i y })
        (play-IsValid (e.bm_step b x) c v)

  bm_chunk-IsValid :
      (xs : List ℕ) (o : Option X) (c : Call X G) → IsValid c → IsValid (bm_chunk e xs o c)
  unfolding bm_chunk
  bm_chunk-IsValid xs none c v = audio_loop-IsValid e 0 xs c v
  bm_chunk-IsValid xs (some b) c v =
      let (b', c') = play (e.bm_service b) c in
      bm_steps-IsValid 0 xs b' c' (play-IsValid (e.bm_service b) c v)

  run_chunk-IsValid :
      (xs : List ℕ) (o : Option X) (c : Call X G) → IsValid c → IsValid (run_chunk e xs o c)
  unfolding run_chunk
  run_chunk-IsValid xs none c v = audio_loop-IsValid e 0 xs c v
  run_chunk-IsValid xs (some b) c v =
      let c' = bm_poll e (e.bm_status b) b (length xs) c in
      bm_chunk-IsValid xs c'.bm c' (bm_poll-IsValid (e.bm_status b) b (length xs) c v)

  enter_v34-IsValid : (x : X) (c : Call X G) → IsValid c → IsValid (enter_v34 e x c)
  unfolding enter_v34
  enter_v34-IsValid x c v = record {
    powered = λ _. refl;
    early = λ q. absurd (ground arith);
    alone = v.alone;
    staged = v.staged;
    started = v.started;
    owned = v.owned;
    queue = v.queue;
    unframed = v.unframed;
  }

  without_engine :
      (c : Call X G) → is_v8 c.phase ≡ true → IsValid c → IsValid (record c { v34 = none })
  without_engine c h v = record {
    powered = λ m. absurd (ground (arith, v.early h));
    early = v.early;
    alone = v.alone;
    staged = v.staged;
    started = v.started;
    owned = v.owned;
    queue = v.queue;
    unframed = v.unframed;
  }

  force_v34-IsValid :
      (o : Option X) (c : Call X G) → is_v8 c.phase ≡ true → IsValid c → IsValid (force_v34 e o c)
  unfolding force_v34
  force_v34-IsValid (some x) c h v = enter_v34-IsValid x c v
  force_v34-IsValid none c h v = without_engine c h v

  without_v34-IsValid :
      (c : Call X G) → is_v8 c.phase ≡ true → IsValid c → IsValid (without_v34 e c)
  unfolding without_v34
  without_v34-IsValid c h v =
      if-Has IsValid (c.cfg.use_v34 && (c.v8_ok == 0)) (force_v34 e (new_v34 e c) c) (enter_v22 e c)
        (λ _. force_v34-IsValid (new_v34 e c) c h v) (λ _. enter_v22-IsValid c v)

  chosen_v34-IsValid :
      (o : Option X) (c : Call X G) → is_v8 c.phase ≡ true → IsValid c → IsValid (chosen_v34 e o c)
  unfolding chosen_v34
  chosen_v34-IsValid (some x) c h v = enter_v34-IsValid x c v
  chosen_v34-IsValid none c h v =
      without_v34-IsValid (record c { v34 = none; v8_ok = 1 }) h (without_engine c h v)

  leave_v8-IsValid : (c : Call X G) → IsValid c → IsValid (leave_v8 e c)
  unfolding leave_v8
  leave_v8-IsValid c v =
      let chosen = chosen_v34 e (new_v34 e c) c in
      if-Has IsValid (is_v8 c.phase && c.v8_done) (if c.v8_ok == 2 then chosen else without_v34 e c)
        c
        (λ b.
          let h : is_v8 c.phase ≡ true = ground arith in
          if-Has IsValid (c.v8_ok == 2) chosen (without_v34 e c)
            (λ _. chosen_v34-IsValid (new_v34 e c) c h v) (λ _. without_v34-IsValid c h v))
        (λ _. v)

  detect_data-IsValid : (c : Call X G) → IsValid c → IsValid (detect_data e c)
  unfolding detect_data
  detect_data-IsValid c v =
      if-Has IsValid (sees_data e c) _ c (λ _. with_reset data_mode c refl v) (λ _. v)

  -- A chunk of audio keeps a call valid.
  pub process_audio-IsValid :
      (xs : List ℕ) (c : Call X G) → IsValid c → IsValid (process_audio e xs c)
  unfolding process_audio
  process_audio-IsValid xs c v =
      let c₁ = capture xs c in
      let c₂ = run_chunk e xs c₁.bm c₁ in
      let c₃ = leave_v8 e c₂ in
      let v₁ = capture-IsValid xs c v in
      let v₂ = run_chunk-IsValid xs c₁.bm c₁ v₁ in
      let w = detect_data-IsValid c₃ (leave_v8-IsValid c₂ v₂) in
      record {
        powered = w.powered;
        early = w.early;
        alone = ap (tick e (length xs)) w.alone;
        staged = w.staged;
        started = w.started;
        owned = w.owned;
        queue = w.queue;
        unframed = w.unframed;
      }
