-- ===== src/V22bis/Transmit/Schedule.antt =====
-- How long the training sequence of the answering modem lasts, and where it ends.
pub mod Steps
use v34_working.Base.{
  ℕ, zero, suc, ◌+◌, ◌<◌, ◌≡◌, refl, ap, ◌∙◌, sym, subst, List, [], ◌∷◌, ◌++◌, false, arith,
  lt→leb_false,
}
use v34_working.V22bis.Transmit.{
  Tx, Training, Status, normal_operation, initial_timed_silence, u11, u0011, timed_s11, s1111,
  training_succeeded, two_ones, begin_data, timed_s11_step, send_s11, send_u0011, send_s1111,
  training_symbol, training_get,
}
use v34_working.V22bis.Transmit.Schedule.Steps.{
  train, train-train, train_suc, Kept, Kept-trans, At, train-wait, silence-step, u0011-step,
  timed_s11-step, s1111-step, silence-end, u0011-end, timed_s11-end, Entered, s1111-end,
  timed_s11-end_slow,
}

-- A stage that counts from `c` and ends at its limit.
module _ (stage : Training) (limit : ℕ)
    (step : (c : ℕ) (t : Tx)
      → At stage c t
      → c + 1 < limit
      → At stage (c + 1) (training_get t).1 × Kept t (training_get t).1) where
  -- The last symbol of the stage.
  train_last :
      (n c : ℕ) (t : Tx)
      → At stage c t
      → c + n + 1 ≡ limit
      → At stage (c + n) (train n t)
        × Kept t (train n t)
        × (train (n + 1) t ≡ (training_get (train n t)).1)
  train_last n c t a h =
      let (a', k) = train-wait stage limit step n c t a (omega arith) in (a', k, train_suc n t)

-- The first 45 symbols (75 ms) of an answerer are spent before U11.
pub train_silence :
    (t : Tx)
    → t.training ≡ initial_timed_silence
    → t.training_count ≡ 0
    → (train 45 t).training ≡ u11
train_silence t e z =
    let (a, k, l) =
      train_last initial_timed_silence 45 silence-step 44 0 t (record { here = e; now = z }) refl in
    ap (λ t'. t'.training) l ∙ (silence-end (train 44 t) a).0.here

answer_u0011 :
    (t : Tx)
    → At u0011 0 t
    → t.calling_party ≡ false
    → At timed_s11 153 (train 60 t) × Kept t (train 60 t)
answer_u0011 t a e =
    let (a', k, l) = train_last u0011 60 u0011-step 59 0 t a refl in
    let (b, k') = u0011-end (train 59 t) a' (k.same_party ∙ e) in rw l (b, Kept-trans _ _ _ k k')

answer_timed_s11 :
    (t : Tx)
    → At timed_s11 153 t
    → t.negotiated_bit_rate ≡ 2400
    → At s1111 0 (train 300 t) × Kept t (train 300 t)
answer_timed_s11 t a e =
    let (a', k, l) = train_last timed_s11 453 timed_s11-step 299 153 t a refl in
    let (b, k') = timed_s11-end (train 299 t) a' (k.same_rate ∙ e) in
    rw l (b, Kept-trans _ _ _ k k')

answer_s1111 :
    (t : Tx) → At s1111 0 t → At s1111 119 (train 119 t) × Entered t.reports (train 120 t)
answer_s1111 t a =
    let (a', k, l) = train_last s1111 120 s1111-step 119 0 t a refl in
    let b = s1111-end (train 119 t) a' in
    (a', rw l (subst (λ r. Entered r (training_get (train 119 t)).1) k.same_reports b))

answer_u0011_last : (t : Tx) → At u0011 0 t → At u0011 59 (train 59 t)
answer_u0011_last t a = (train_last u0011 60 u0011-step 59 0 t a refl).0

answer_timed_s11_last : (t : Tx) → At timed_s11 153 t → At timed_s11 452 (train 299 t)
answer_timed_s11_last t a = (train_last timed_s11 453 timed_s11-step 299 153 t a refl).0

-- The stage and its count at the ends of the three stages of an answerer, and data mode behind
-- them.
pub record Answers (t : Tx) : Type 0 where
  pub s1_ends : At u0011 59 (train 59 t)
  pub ones_begin : At timed_s11 153 (train 60 t)
  pub ones_end : At timed_s11 452 (train 359 t)
  pub fast_ones_begin : At s1111 0 (train 360 t)
  pub fast_ones_end : At s1111 119 (train 479 t)
  pub enters : Entered t.reports (train 480 t)

-- An answerer that has negotiated 2400 bit/s and begins S1 (U0011) sends 60 symbols (100 ms) of it,
-- then 300 symbols (500 ms) of scrambled ones at 1200 bit/s and 120 symbols (200 ms) of them at
-- 2400: it is still in the first stage after 59 symbols and at the start of the second after 60,
-- still in that after 359 and at the start of the third after 360, and still in that after 479.
-- After 480 symbols it is in data mode, sends its owner's bits and has reported success once.
pub train_answer :
    (t : Tx)
    → t.training ≡ u0011
    → t.training_count ≡ 0
    → t.calling_party ≡ false
    → t.negotiated_bit_rate ≡ 2400
    → Answers t
train_answer t e z p r =
    let begun : At u0011 0 t = record { here = e; now = z } in
    let t₁ = train 60 t in
    let (a, k) = answer_u0011 t begun p in
    let (a', k') = answer_timed_s11 t₁ a (k.same_rate ∙ r) in
    let t₂ = train 300 t₁ in
    let (last, entered) = answer_s1111 t₂ a' in
    record {
      s1_ends = answer_u0011_last t begun;
      ones_begin = a;
      ones_end = rw (train-train 60 299 t) (answer_timed_s11_last t₁ a);
      fast_ones_begin = rw (train-train 60 300 t) a';
      fast_ones_end = rw (train-train 60 419 t, train-train 300 119 t₁) last;
      enters =
          rw (train-train 60 420 t, train-train 300 120 t₁)
            (subst (λ q. Entered q (train 120 t₂)) (k'.same_reports ∙ k.same_reports) entered);
    }

-- A modem that has negotiated 1200 bit/s and begins the timed scrambled ones is in data mode
-- after 453 symbols, which is 755 ms, and has reported success once.
pub train_slow :
    (t : Tx)
    → t.training ≡ timed_s11
    → t.training_count ≡ 0
    → t.negotiated_bit_rate ≡ 1200
    → Entered t.reports (train 453 t)
train_slow t e z r =
    let (a, k, l) =
      train_last timed_s11 453 timed_s11-step 452 0 t (record { here = e; now = z }) refl in
    rw l (
      subst (λ q. Entered q (training_get (train 452 t)).1) k.same_reports
        (timed_s11-end_slow (train 452 t) a (k.same_rate ∙ r)))
