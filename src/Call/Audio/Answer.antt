-- ===== src/Call/Audio/Answer.antt =====
-- The answer sequence of `process_audio`: silence, the tone, and then the modem.
use v34_working.Base.{
  ℕ, zero, suc, ◌+◌, ◌<◌, ◌≡◌, refl, ap, ap₂, ◌∙◌, List, [], ◌∷◌, ◌++◌, length, replicate, arith,
  tests,
}
use v34_working.Call.{answer_tone, handshake, Call}
use v34_working.Call.Engines.{Engines}
use v34_working.Call.Audio.{blit, end_answer, answer_step, answer_sample, audio_loop}

-- The samples of the tone, from a phase on.
abbrev pub tones : {X : Type 0} → Engines X → ℕ → ℕ → List ℕ
tones e at zero = []
tones e at (suc t) = e.tone at ∷ tones e (at + 1) t

module _ {X G : Type 0} (e : Engines X) where
  -- The call after `s` samples of silence and `t` of the tone, written from `i` on.
  abbrev pub answered : ℕ → ℕ → ℕ → Call X G → Call X G
  answered i s t c = record c {
    phase = handshake;
    silence_samples_left = 0;
    tone_samples_left = 0;
    tone_phase = c.tone_phase + t;
    txbuf = blit i (replicate s 0 ++ tones e c.tone_phase t) c.txbuf;
  }

  loop-answer_tone :
      (i x : ℕ) (xs : List ℕ) (c : Call X G)
      → c.phase ≡ answer_tone
      → audio_loop e i (x ∷ xs) c ≡ audio_loop e (i + 1) xs (answer_sample e i c)
  unfolding audio_loop
  loop-answer_tone i x xs c h = rw h refl

  sample-silence :
      (i s : ℕ) (c : Call X G)
      → c.silence_samples_left ≡ suc s
      → 0 < s + c.tone_samples_left
      → answer_sample e i c ≡ record c { silence_samples_left = s; txbuf = blit i (0 ∷ []) c.txbuf }
  unfolding answer_sample answer_step end_answer
  sample-silence i s c h more = grind tests

  sample-tone :
      (i t : ℕ) (c : Call X G)
      → c.silence_samples_left ≡ 0
      → c.tone_samples_left ≡ suc t
      → 0 < t
      → answer_sample e i c ≡ record c {
        silence_samples_left = 0;
        tone_samples_left = t;
        tone_phase = c.tone_phase + 1;
        txbuf = blit i (e.tone c.tone_phase ∷ []) c.txbuf;
      }
  unfolding answer_sample answer_step end_answer
  sample-tone i t c h k more = grind tests

  last-silence :
      (i : ℕ) (c : Call X G)
      → c.silence_samples_left ≡ 1
      → c.tone_samples_left ≡ 0
      → answer_sample e i c ≡ answered i 1 0 c
  unfolding answer_sample answer_step end_answer
  last-silence i c h k = grind tests

  last-tone :
      (i : ℕ) (c : Call X G)
      → c.silence_samples_left ≡ 0
      → c.tone_samples_left ≡ 1
      → answer_sample e i c ≡ answered i 0 1 c
  unfolding answer_sample answer_step end_answer
  last-tone i c h k = grind tests

  abbrev finished : ℕ → (ℕ → ℕ) → Call X G → Call X G
  finished at buf c = record c {
    phase = handshake;
    silence_samples_left = 0;
    tone_samples_left = 0;
    tone_phase = at;
    txbuf = buf;
  }

  same_end :
      (i j at at' : ℕ) (ys : List ℕ) (buf : ℕ → ℕ) (c : Call X G)
      → i ≡ j
      → at ≡ at'
      → audio_loop e i ys (finished at buf c) ≡ audio_loop e j ys (finished at' buf c)
  same_end i j at at' ys buf c p q = ap₂ (λ k a. audio_loop e k ys (finished a buf c)) p q

  -- In the answer phase, with `s` samples of silence and `t` of the tone to go, the first `s + t`
  -- samples of a chunk send exactly the silence and then the tone, whatever the far end says, and
  -- the sample behind them is the first of the handshake.
  pub audio_loop-answered :
      (s t i : ℕ) (xs ys : List ℕ) (c : Call X G)
      → c.phase ≡ answer_tone
      → c.silence_samples_left ≡ s
      → c.tone_samples_left ≡ t
      → 0 < s + t
      → length xs ≡ s + t
      → audio_loop e i (xs ++ ys) c ≡ audio_loop e (i + (s + t)) ys (answered i s t c)
  unfolding blit
  audio_loop-answered zero zero i xs ys c h hs ht pos len = absurd (omega arith)
  audio_loop-answered zero (suc t) i [] ys c h hs ht pos len = absurd (omega arith)
  audio_loop-answered (suc s) t i [] ys c h hs ht pos len = absurd (omega arith)
  audio_loop-answered zero (suc zero) i (x ∷ []) ys c h hs ht pos len =
      loop-answer_tone i x ys c h ∙ ap (λ d. audio_loop e (i + 1) ys d) (last-tone i c hs ht)
  audio_loop-answered zero (suc zero) i (x ∷ y ∷ xs) ys c h hs ht pos len = absurd (omega arith)
  audio_loop-answered zero (suc (suc t)) i (x ∷ xs) ys c h hs ht pos len =
      loop-answer_tone i x (xs ++ ys) c h
      ∙ ap (λ d. audio_loop e (i + 1) (xs ++ ys) d) (sample-tone i (suc t) c hs ht (omega arith))
      ∙ audio_loop-answered zero (suc t) (i + 1) xs ys _ h refl refl (omega arith) (omega arith)
      ∙ same_end _ _ _ _ ys _ c (omega arith) (omega arith)
  audio_loop-answered (suc zero) zero i (x ∷ []) ys c h hs ht pos len =
      loop-answer_tone i x ys c h ∙ ap (λ d. audio_loop e (i + 1) ys d) (last-silence i c hs ht)
  audio_loop-answered (suc zero) zero i (x ∷ y ∷ xs) ys c h hs ht pos len = absurd (omega arith)
  audio_loop-answered (suc (suc s)) t i (x ∷ xs) ys c h hs ht pos len =
      loop-answer_tone i x (xs ++ ys) c h
      ∙ ap (λ d. audio_loop e (i + 1) (xs ++ ys) d) (sample-silence i (suc s) c hs (omega arith))
      ∙ audio_loop-answered (suc s) t (i + 1) xs ys _ h refl ht (omega arith) (omega arith)
      ∙ same_end _ _ _ _ ys _ c (omega arith) (omega arith)
  audio_loop-answered (suc zero) (suc t) i (x ∷ xs) ys c h hs ht pos len =
      loop-answer_tone i x (xs ++ ys) c h
      ∙ ap (λ d. audio_loop e (i + 1) (xs ++ ys) d) (sample-silence i zero c hs (omega arith))
      ∙ audio_loop-answered zero (suc t) (i + 1) xs ys _ h refl ht (omega arith) (omega arith)
      ∙ same_end _ _ _ _ ys _ c (omega arith) (omega arith)
