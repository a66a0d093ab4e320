-- ===== src/Call/Audio/Guard.antt =====
-- The guard of `process_audio` behind V.8 (`rx_guard`): the receiver hears silence.
use v34_working.Base.{
  ℕ, ◌+◌, ◌-◌, ◌≤◌, ◌<◌, ◌≡◌, refl, sym, ap, ◌∙◌, List, [], ◌∷◌, ◌++◌, length, length-append, drop,
  drop-append_ge, replicate, min, arith, lt→ltb,
}
use v34_working.Call.{handshake, Call}
use v34_working.Call.Engines.{Engines}
use v34_working.Call.Audio.{run_guard, run_rest, run_modem, run_v22, audio_loop}

drop-same :
    (n : ℕ) (xs ys zs : List ℕ)
    → length xs ≡ length ys
    → length xs ≤ n
    → drop n (xs ++ zs) ≡ drop n (ys ++ zs)
drop-same n xs ys zs same h =
    drop-append_ge n xs zs h
    ∙ ap (λ k. drop (n - k) zs) same
    ∙ sym (drop-append_ge n ys zs (omega arith))

same_length : (xs ys zs : List ℕ) → length xs ≡ length ys → length (xs ++ zs) ≡ length (ys ++ zs)
same_length xs ys zs same = omega (arith, length-append xs zs, length-append ys zs)

module _ {X G : Type 0} (e : Engines X) where
  -- The modem for a chunk of `n` samples, of which `rest` are behind the guard.
  abbrev behind : ℕ → ℕ → List ℕ → Call X G → Call X G
  behind i n rest c =
      let skip = min n c.rx_guard in
      run_rest e (i + skip) rest
        (record (run_v22 e i (replicate skip 0) c) { rx_guard = c.rx_guard - skip })

  run_modem-behind :
      (i : ℕ) (xs : List ℕ) (c : Call X G)
      → 0 < c.rx_guard
      → run_modem e i xs c ≡ behind i (length xs) (drop (min (length xs) c.rx_guard) xs) c
  unfolding run_modem run_guard
  run_modem-behind i xs c pos = rw (lt→ltb 0 c.rx_guard pos) refl

  run_modem-same :
      (i : ℕ) (xs ys zs : List ℕ) (c : Call X G)
      → 0 < c.rx_guard
      → length xs ≡ length ys
      → length xs ≤ c.rx_guard
      → run_modem e i (xs ++ zs) c ≡ run_modem e i (ys ++ zs) c
  run_modem-same i xs ys zs c pos same h =
      let skip = min (length (xs ++ zs)) c.rx_guard in
      run_modem-behind i (xs ++ zs) c pos
      ∙ ap (λ l. behind i (length (xs ++ zs)) l c)
          (drop-same skip xs ys zs same (omega (arith, length-append xs zs)))
      ∙ ap (λ n. behind i n (drop (min n c.rx_guard) (ys ++ zs)) c) (same_length xs ys zs same)
      ∙ sym (run_modem-behind i (ys ++ zs) c pos)

  pub loop-handshake :
      (i x : ℕ) (xs : List ℕ) (c : Call X G)
      → c.phase ≡ handshake
      → audio_loop e i (x ∷ xs) c ≡ run_modem e i (x ∷ xs) c
  unfolding audio_loop
  loop-handshake i x xs c h = rw h refl

  -- In the handshake behind V.8, the first samples of a chunk, as many of them as the guard counts,
  -- do not matter: with others in their place the call goes on in the same way and sends the same.
  pub audio_loop-rx_guard :
      (i : ℕ) (xs ys zs : List ℕ) (c : Call X G)
      → c.phase ≡ handshake
      → length xs ≡ length ys
      → length xs ≤ c.rx_guard
      → audio_loop e i (xs ++ zs) c ≡ audio_loop e i (ys ++ zs) c
  audio_loop-rx_guard i [] [] zs c h same few = refl
  audio_loop-rx_guard i [] (y ∷ ys) zs c h same few = absurd (omega arith)
  audio_loop-rx_guard i (x ∷ xs) [] zs c h same few = absurd (omega arith)
  audio_loop-rx_guard i (x ∷ xs) (y ∷ ys) zs c h same few =
      loop-handshake i x (xs ++ zs) c h
      ∙ run_modem-same i (x ∷ xs) (y ∷ ys) zs c (omega arith) same few
      ∙ sym (loop-handshake i y (ys ++ zs) c h)
