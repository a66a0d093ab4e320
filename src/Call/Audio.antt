-- ===== src/Call/Audio.antt =====
-- The sample loop of `process_audio`: V.8, the answer sequence or a modem. A sample is its 16-bit
-- pattern.
pub mod Answer
pub mod Guard
use v34_working.Base.{
  ℕ, zero, suc, ◌+◌, ◌-◌, List, [], ◌∷◌, ◌++◌, Bool, true, false, ◌&&◌, Option, none, some, ltb,
  leb, min, length, take, drop, replicate, update, if◌then◌else◌,
}
use v34_working.Call.{
  Mode, v22, v34, Phase, idle, answer_tone, v8, handshake, data_mode, hangup, Call,
}
use v34_working.Call.Bits.{Script, call_v8_result, play}
use v34_working.Call.Engines.{Engines}

-- Samples written into an array from an index on.
unfoldable pub blit : ℕ → List ℕ → (ℕ → ℕ) → ℕ → ℕ
blit i [] f = f
blit i (x ∷ xs) f = blit (i + 1) xs (update f i x)

module _ {X G : Type 0} where
  -- The calls of `call_v8_result` that an engine makes, in order.
  unfoldable pub v8_results : List (ℕ × ℕ) → Call X G → Call X G
  unfolding call_v8_result
  v8_results [] c = c
  v8_results (r ∷ rs) c = v8_results rs (call_v8_result r.0 r.1 c)

  abbrev pub write_samples : ℕ → List ℕ → Call X G → Call X G
  write_samples i xs c = record c { txbuf = blit i xs c.txbuf }

  -- The end of an answer sequence, when nothing of it is left.
  unfoldable pub end_answer : Call X G → Call X G
  end_answer c =
      if leb c.silence_samples_left 0 && leb c.tone_samples_left 0
      then record c { phase = handshake }
      else c

  -- What a modem sends from `i` on.
  unfoldable pub transmit : Script (List ℕ × X) → ℕ → ℕ → Call X G → X × Call X G
  unfolding play blit
  transmit tx n i c = let ((out, m), c') = play tx c in (m, write_samples i (take n out) c')

module _ {X G : Type 0} (e : Engines X) where
  -- `sm_v8_tx` and `sm_v8_rx`, with silence for what is not filled: the calls of `call_v8_result`
  -- that they make, and the call before those.
  unfoldable pub exchange_v8 : ℕ → List ℕ → X → Call X G → List (ℕ × ℕ) × Call X G
  unfolding blit
  exchange_v8 i xs v c =
      let (rs, out, v') = e.v8_tx v (length xs) in
      let (rs', v'') = e.v8_rx v' xs in
      let sent = take (length xs) out in
      let c' = write_samples i (sent ++ replicate (length xs - length sent) 0) c in
      (rs ++ rs', record c' { v8 = some v'' })

  -- The chunk goes to V.8.
  unfoldable pub run_v8 : ℕ → List ℕ → Option X → Call X G → Call X G
  unfolding v8_results exchange_v8
  run_v8 i xs none c = write_samples i (replicate (length xs) 0) c
  run_v8 i xs (some v) c = let (rs, c') = exchange_v8 i xs v c in v8_results rs c'

  -- One sample of silence or of the tone.
  unfoldable pub answer_step : ℕ → Call X G → Call X G
  unfolding blit
  answer_step i c =
      if ltb 0 c.silence_samples_left
      then record (write_samples i (0 ∷ []) c) { silence_samples_left = c.silence_samples_left - 1 }
      else if ltb 0 c.tone_samples_left
      then record (write_samples i (e.tone c.tone_phase ∷ []) c) {
        tone_phase = c.tone_phase + 1;
        tone_samples_left = c.tone_samples_left - 1;
      }
      else c

  -- One sample of the answer sequence.
  unfoldable pub answer_sample : ℕ → Call X G → Call X G
  unfolding end_answer answer_step
  answer_sample i c = end_answer (answer_step i c)

  -- `v22bis_tx` and `v22bis_rx` over as many samples.
  unfoldable pub run_v22 : ℕ → List ℕ → Call X G → Call X G
  unfolding play transmit
  run_v22 i xs c =
      let (m, c₁) = transmit (e.v22bis_tx c.modem (length xs)) (length xs) i c in
      let (m', c₂) = play (e.v22bis_rx m xs) c₁ in record c₂ { modem = m' }

  -- `v34_tx` and `v34_rx`. Without an engine, the C code would use a null pointer.
  unfoldable pub run_v34 : ℕ → List ℕ → Option X → Call X G → Call X G
  unfolding play transmit
  run_v34 i xs none c = c
  run_v34 i xs (some v) c =
      let (v₁, c₁) = transmit (e.v34_tx v (length xs)) (length xs) i c in
      let (v₂, c₂) = play (e.v34_rx v₁ xs) c₁ in record c₂ { v34 = some v₂ }

  -- The samples for which the receiver hears silence.
  unfoldable pub run_guard : ℕ → List ℕ → Call X G → ℕ × Call X G
  unfolding run_v22
  run_guard i xs c =
      let skip = min (length xs) c.rx_guard in
      (skip, record (run_v22 i (replicate skip 0) c) { rx_guard = c.rx_guard - skip })

  unfoldable pub run_engine : Mode → ℕ → List ℕ → Call X G → Call X G
  unfolding run_v22 run_v34
  run_engine v22 i xs c = run_v22 i xs c
  run_engine v34 i xs c = run_v34 i xs c.v34 c

  -- `m > 0`
  unfoldable pub run_rest : ℕ → List ℕ → Call X G → Call X G
  unfolding run_engine
  run_rest i xs c = if ltb 0 (length xs) then run_engine c.mode i xs c else c

  -- The rest of the chunk goes to the modem, behind the guard.
  unfoldable pub run_modem : ℕ → List ℕ → Call X G → Call X G
  unfolding run_guard run_rest
  run_modem i xs c =
      let (skip, c') = run_guard i xs c in
      if ltb 0 c.rx_guard then run_rest (i + skip) (drop skip xs) c' else run_rest i xs c

  -- The loop over the samples from `i` on, which are left in the list. Only the answer sequence
  -- goes on with the next sample.
  unfoldable pub audio_loop : ℕ → List ℕ → Call X G → Call X G
  unfolding run_v8 answer_sample run_modem
  audio_loop i [] c = c
  audio_loop i (x ∷ xs) c = elim c.phase [
    | idle ↦ run_modem i (x ∷ xs) c
    | answer_tone ↦ audio_loop (i + 1) xs (answer_sample i c)
    | v8 ↦ run_v8 i (x ∷ xs) c.v8 c
    | handshake ↦ run_modem i (x ∷ xs) c
    | data_mode ↦ run_modem i (x ∷ xs) c
    | hangup ↦ run_modem i (x ∷ xs) c
  ]
