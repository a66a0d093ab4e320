-- ===== src/Call/Valid/Audio.antt =====
-- The sample loop keeps a call valid (`process_audio` of `src/call/sm_call.c`).
use v34_working.Base.{
  ℕ, ◌+◌, refl, List, [], ◌∷◌, ◌&&◌, ◌||◌, Option, none, some, length, drop, replicate, ltb, leb,
  ◌==◌, if-Has,
}
use v34_working.Call.{
  Mode, v22, v34, Phase, idle, answer_tone, v8, handshake, data_mode, hangup, Call,
}
use v34_working.Call.Bits.{Script, call_v8_result, play}
use v34_working.Call.Engines.{Engines}
use v34_working.Call.Audio.{
  v8_results, transmit, exchange_v8, run_v8, end_answer, answer_step, answer_sample, run_v22,
  run_v34, run_guard, run_engine, run_rest, run_modem, audio_loop,
}
use v34_working.Call.Valid.{IsValid, with_phase, play-IsValid}

module _ {X G : Type 0} where
  call_v8_result-IsValid :
      (st mods : ℕ) (c : Call X G) → IsValid c → IsValid (call_v8_result st mods c)
  unfolding call_v8_result
  call_v8_result-IsValid st mods c v =
      if-Has IsValid (st == 2) _ _ (λ _. v)
        (λ _. if-Has IsValid ((st == 3) || (st == 4)) _ _ (λ _. v) (λ _. v))

  v8_results-IsValid : (rs : List (ℕ × ℕ)) (c : Call X G) → IsValid c → IsValid (v8_results rs c)
  unfolding v8_results
  v8_results-IsValid [] c v = v
  v8_results-IsValid (r ∷ rs) c v =
      v8_results-IsValid rs (call_v8_result r.0 r.1 c) (call_v8_result-IsValid r.0 r.1 c v)

  pub with_v34 : (x : X) (c : Call X G) → IsValid c → IsValid (record c { v34 = some x })
  with_v34 x c v = record {
    powered = λ _. refl;
    early = v.early;
    alone = v.alone;
    staged = v.staged;
    started = v.started;
    owned = v.owned;
    queue = v.queue;
    unframed = v.unframed;
  }

  transmit-IsValid :
      (tx : Script (List ℕ × X)) (n i : ℕ) (c : Call X G)
      → IsValid c
      → IsValid (transmit tx n i c).1
  unfolding transmit
  transmit-IsValid tx n i c v = play-IsValid tx c v

module _ {X G : Type 0} (e : Engines X) where
  run_v8-IsValid :
      (i : ℕ) (xs : List ℕ) (o : Option X) (c : Call X G) → IsValid c → IsValid (run_v8 e i xs o c)
  unfolding run_v8 exchange_v8
  run_v8-IsValid i xs none c v = v
  run_v8-IsValid i xs (some x) c v =
      v8_results-IsValid (exchange_v8 e i xs x c).0 (exchange_v8 e i xs x c).1 v

  answer_step-IsValid : (i : ℕ) (c : Call X G) → IsValid c → IsValid (answer_step e i c)
  unfolding answer_step
  answer_step-IsValid i c v =
      if-Has IsValid (ltb 0 c.silence_samples_left) _ _ (λ _. v)
        (λ _. if-Has IsValid (ltb 0 c.tone_samples_left) _ _ (λ _. v) (λ _. v))

  answer_sample-IsValid : (i : ℕ) (c : Call X G) → IsValid c → IsValid (answer_sample e i c)
  unfolding answer_sample end_answer
  answer_sample-IsValid i c v =
      let c' = answer_step e i c in
      let v' = answer_step-IsValid i c v in
      if-Has IsValid (leb c'.silence_samples_left 0 && leb c'.tone_samples_left 0)
        (record c' { phase = handshake }) c' (λ _. with_phase handshake c' refl v') (λ _. v')

  run_v22-IsValid : (i : ℕ) (xs : List ℕ) (c : Call X G) → IsValid c → IsValid (run_v22 e i xs c)
  unfolding run_v22
  run_v22-IsValid i xs c v =
      let tx = e.v22bis_tx c.modem (length xs) in
      let (m, c₁) = transmit tx (length xs) i c in
      play-IsValid (e.v22bis_rx m xs) c₁ (transmit-IsValid tx (length xs) i c v)

  run_v34-IsValid :
      (i : ℕ) (xs : List ℕ) (o : Option X) (c : Call X G) → IsValid c → IsValid (run_v34 e i xs o c)
  unfolding run_v34
  run_v34-IsValid i xs none c v = v
  run_v34-IsValid i xs (some x) c v =
      let tx = e.v34_tx x (length xs) in
      let (x₁, c₁) = transmit tx (length xs) i c in
      let (x₂, c₂) = play (e.v34_rx x₁ xs) c₁ in
      with_v34 x₂ c₂ (play-IsValid (e.v34_rx x₁ xs) c₁ (transmit-IsValid tx (length xs) i c v))

  run_engine-IsValid :
      (m : Mode) (i : ℕ) (xs : List ℕ) (c : Call X G) → IsValid c → IsValid (run_engine e m i xs c)
  unfolding run_engine
  run_engine-IsValid v22 i xs c v = run_v22-IsValid i xs c v
  run_engine-IsValid v34 i xs c v = run_v34-IsValid i xs c.v34 c v

  run_rest-IsValid : (i : ℕ) (xs : List ℕ) (c : Call X G) → IsValid c → IsValid (run_rest e i xs c)
  unfolding run_rest
  run_rest-IsValid i xs c v =
      if-Has IsValid (ltb 0 (length xs)) (run_engine e c.mode i xs c) c
        (λ _. run_engine-IsValid c.mode i xs c v) (λ _. v)

  run_modem-IsValid :
      (i : ℕ) (xs : List ℕ) (c : Call X G) → IsValid c → IsValid (run_modem e i xs c)
  unfolding run_modem run_guard
  run_modem-IsValid i xs c v =
      let (skip, c') = run_guard e i xs c in
      if-Has IsValid (ltb 0 c.rx_guard) (run_rest e (i + skip) (drop skip xs) c')
        (run_rest e i xs c)
        (λ _.
          run_rest-IsValid (i + skip) (drop skip xs) c' (run_v22-IsValid i (replicate skip 0) c v))
        (λ _. run_rest-IsValid i xs c v)

  -- The body of the loop.
  abbrev by_phase : Phase → ℕ → ℕ → List ℕ → Call X G → Call X G
  by_phase p i x xs c = elim p [
    | idle ↦ run_modem e i (x ∷ xs) c
    | answer_tone ↦ audio_loop e (i + 1) xs (answer_sample e i c)
    | v8 ↦ run_v8 e i (x ∷ xs) c.v8 c
    | handshake ↦ run_modem e i (x ∷ xs) c
    | data_mode ↦ run_modem e i (x ∷ xs) c
    | hangup ↦ run_modem e i (x ∷ xs) c
  ]

  pub audio_loop-IsValid :
      (i : ℕ) (xs : List ℕ) (c : Call X G) → IsValid c → IsValid (audio_loop e i xs c)
  unfolding audio_loop
  audio_loop-IsValid i [] c v = v
  audio_loop-IsValid i (x ∷ xs) c v = elim c.phase as (λ p. IsValid (by_phase p i x xs c)) [
    | idle ↦ run_modem-IsValid i (x ∷ xs) c v
    | answer_tone ↦
        audio_loop-IsValid (i + 1) xs (answer_sample e i c) (answer_sample-IsValid i c v)
    | v8 ↦ run_v8-IsValid i (x ∷ xs) c.v8 c v
    | handshake ↦ run_modem-IsValid i (x ∷ xs) c v
    | data_mode ↦ run_modem-IsValid i (x ∷ xs) c v
    | hangup ↦ run_modem-IsValid i (x ∷ xs) c v
  ]
