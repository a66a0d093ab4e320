-- ===== src/V22bis/Carrier/Heard.antt =====
-- The receiver's samples as symbols, and how many there are.
use v34_working.Base.{
  ℕ, suc, ◌+◌, subst, ◌*◌, ◌≤◌, ◌≡◌, refl, ap, ◌∙◌, List, [], ◌∷◌, Bool, true, false, ◌&&◌, length,
  All, arith, if◌then◌else◌,
}
use v34_working.V22bis.Receive.{Modem, retrains, baud, receive}
use v34_working.V22bis.Carrier.{Measure, Front, magnitude, take_sample, v22bis_rx}
use v34_working.V22bis.Carrier.Clock.{bit, IsPaced}
use v34_working.V22bis.Carrier.Paced.{completes, Moves, take_sample-Moves}
use v34_working.V22bis.Carrier.Alternates.{HasSound, take_sample-HasSound}

-- The symbols that are complete.
abbrev pub heard : List Measure → Front → List ℕ
heard [] f = []
heard (m ∷ ms) f =
    let rest = heard ms (take_sample m f) in if completes f then m.nearest ∷ rest else rest

-- How often these symbols make the receiver retrain.
abbrev pub count_retrains : List ℕ → Modem → ℕ
count_retrains [] m = 0
count_retrains (x ∷ xs) m = count_retrains xs (baud x m) + bit (retrains x m)

-- The measures of `n` samples, `b` of which complete a symbol, `r` of those with a retrain.
record Keeps (n b r : ℕ) (f f' : Front) : Type 0 where
  paced : IsPaced f'
  fast :
      magnitude f'.eq_put_step + 80 * f.baud_phase + 12 * n
      ≤ magnitude f.eq_put_step + 80 * f'.baud_phase + 176 * b
  slow :
      magnitude f.eq_put_step + 80 * f'.baud_phase + 144 * b
      ≤ magnitude f'.eq_put_step + 80 * f.baud_phase + 12 * n + 45 * r

-- Two stretches of samples are one.
fast_trans :
    (e h e₁ h₁ e' h' n b d : ℕ)
    → e₁ + 80 * h + 12 ≤ e + 80 * h₁ + 176 * d
    → e' + 80 * h₁ + 12 * n ≤ e₁ + 80 * h' + 176 * b
    → e' + 80 * h + 12 * suc n ≤ e + 80 * h' + 176 * (b + d)
fast_trans e h e₁ h₁ e' h' n b d p q = omega arith

slow_trans :
    (e h e₁ h₁ e' h' n b d r s : ℕ)
    → e + 80 * h₁ + 144 * d ≤ e₁ + 80 * h + 12 + 45 * s
    → e₁ + 80 * h' + 144 * b ≤ e' + 80 * h₁ + 12 * n + 45 * r
    → e + 80 * h' + 144 * (b + d) ≤ e' + 80 * h + 12 * suc n + 45 * (r + s)
slow_trans e h e₁ h₁ e' h' n b d r s p q = omega arith

Keeps-Moves :
    (done : Bool) (m : Measure) (n b r : ℕ) (f f₁ f' : Front)
    → Moves done m f f₁
    → Keeps n b r f₁ f'
    → Keeps (suc n) (b + bit done) (r + bit (done && retrains m.nearest f.modem)) f f'
Keeps-Moves done m n b r f f₁ f' moves keeps = record {
  paced = keeps.paced;
  fast =
      fast_trans (magnitude f.eq_put_step) f.baud_phase (magnitude f₁.eq_put_step) f₁.baud_phase
        (magnitude f'.eq_put_step) f'.baud_phase n b (bit done) moves.fast keeps.fast;
  slow =
      slow_trans (magnitude f.eq_put_step) f.baud_phase (magnitude f₁.eq_put_step) f₁.baud_phase
        (magnitude f'.eq_put_step) f'.baud_phase n b (bit done) r
        (bit (done && retrains m.nearest f.modem)) moves.slow keeps.slow;
}

-- One more sample in front, which completes a symbol or not.
heard_more :
    (done : Bool) (m : Measure) (n : ℕ) (rest : List ℕ) (f f₁ f' : Front)
    → Moves done m f f₁
    → f'.modem ≡ receive rest f₁.modem
    → Keeps n (length rest) (count_retrains rest f₁.modem) f₁ f'
    → let all = if done then m.nearest ∷ rest else rest in
      (f'.modem ≡ receive all f.modem)
      × Keeps (suc n) (length all) (count_retrains all f.modem) f f'
unfolding receive
heard_more true m n rest f f₁ f' moves same keeps =
    let keeps' =
      subst (λ o. Keeps n (length rest) (count_retrains rest o) f₁ f') moves.same_modem keeps in
    (
      same ∙ ap (receive rest) moves.same_modem,
      subst (λ b. Keeps (suc n) b (count_retrains (m.nearest ∷ rest) f.modem) f f') (omega arith)
          (Keeps-Moves true m n (length rest) (count_retrains rest (baud m.nearest f.modem)) f f₁ f'
            moves keeps'),
    )
heard_more false m n rest f f₁ f' moves same keeps =
    let r = count_retrains rest f.modem in
    let keeps' =
      subst (λ o. Keeps n (length rest) (count_retrains rest o) f₁ f') moves.same_modem keeps in
    let none_more : r + 0 ≡ r = omega arith in
    (
      same ∙ ap (receive rest) moves.same_modem,
      subst (λ r. Keeps (suc n) (length rest) r f f') none_more
          (subst (λ b. Keeps (suc n) b (r + 0) f f') (omega arith)
            (Keeps-Moves false m n (length rest) r f f₁ f' moves keeps')),
    )

Keeps-bounds :
    (n b r : ℕ) (f f' : Front)
    → IsPaced f
    → Keeps n b r f f'
    → (144 * b ≤ 12 * n + 175 + 45 * r) × (12 * n ≤ 176 * b + 175)
Keeps-bounds n b r f f' h keeps =
    bounds (magnitude f.eq_put_step) f.baud_phase (magnitude f'.eq_put_step) f'.baud_phase h.low
      h.high h.half keeps.paced.low keeps.paced.high keeps.paced.half keeps.fast keeps.slow
  where
    bounds :
        (e h e' h' : ℕ)
        → 1 ≤ e
        → e ≤ 96
        → h ≤ 1
        → 1 ≤ e'
        → e' ≤ 96
        → h' ≤ 1
        → e' + 80 * h + 12 * n ≤ e + 80 * h' + 176 * b
        → e + 80 * h' + 144 * b ≤ e' + 80 * h + 12 * n + 45 * r
        → (144 * b ≤ 12 * n + 175 + 45 * r) × (12 * n ≤ 176 * b + 175)
    bounds e h e' h' a₁ a₂ a₃ a₄ a₅ a₆ a₇ a₈ = (omega arith, omega arith)

Keeps-none : (f : Front) → IsPaced f → Keeps 0 0 0 f f
Keeps-none f h = record { paced = h; fast = omega arith; slow = omega arith }

heard_lem :
    (ms : List Measure) (f : Front)
    → IsPaced f
    → HasSound f
    → f.signal_present ≡ true
    → All (λ m. m.is_off ≡ false) ms
    → ((v22bis_rx ms f).modem ≡ receive (heard ms f) f.modem)
      × Keeps
          (length ms)
          (length (heard ms f))
          (count_retrains (heard ms f) f.modem)
          f
          (v22bis_rx ms f)
unfolding v22bis_rx receive
heard_lem [] f h sound on all = (refl, Keeps-none f h)
heard_lem (m ∷ ms) f h sound on (there, all) =
    let f₁ = take_sample m f in
    let moves = take_sample-Moves m f h on there sound.3 sound.2 in
    let (same, keeps) =
      heard_lem ms f₁ moves.paced (take_sample-HasSound m f sound) (moves.same_signal ∙ on) all in
    heard_more (completes f) m (length ms) (heard ms f₁) f f₁ (v22bis_rx ms f₁) moves same keeps

-- While the power stays up and the carrier is known, the receiver takes the complete symbols one by
-- one. From a paced state `n` samples hold `b` of them with 144 b <= 12 n + 175 + 45 r and
-- 12 n <= 176 b + 175, however the clock recovery corrects itself, where `r` is how often a symbol
-- makes the receiver retrain, which resets the clock.
pub v22bis_rx-receive :
    (ms : List Measure) (f : Front)
    → IsPaced f
    → HasSound f
    → f.signal_present ≡ true
    → All (λ m. m.is_off ≡ false) ms
    → let symbols = heard ms f in
      ((v22bis_rx ms f).modem ≡ receive symbols f.modem)
      × (144 * length symbols ≤ 12 * length ms + 175 + 45 * count_retrains symbols f.modem)
      × (12 * length ms ≤ 176 * length symbols + 175)
v22bis_rx-receive ms f h sound on all =
    let (same, keeps) = heard_lem ms f h sound on all in
    let bounds =
      Keeps-bounds (length ms) (length (heard ms f)) (count_retrains (heard ms f) f.modem) f
        (v22bis_rx ms f) h keeps in
    (same, bounds.0, bounds.1)
