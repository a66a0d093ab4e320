-- ===== src/V22bis/Transmit/Schedule/Steps.antt =====
-- One symbol of each stage of the training sequence, and its last one.
use v34_working.Base.{
  ℕ, zero, suc, ◌+◌, ◌<◌, ◌≡◌, refl, ◌∙◌, subst, List, [], ◌∷◌, ◌++◌, false, arith, lt→leb_false,
}
use v34_working.V22bis.Transmit.{
  Tx, Training, Status, normal_operation, initial_timed_silence, u11, u0011, timed_s11, s1111,
  training_succeeded, two_ones, begin_data, timed_s11_step, send_s11, send_u0011, send_s1111,
  training_symbol, training_get,
}

-- So many symbols of training.
unfoldable pub train : ℕ → Tx → Tx
train zero t = t
train (suc n) t = train n (training_get t).1

pub train-train : (m n : ℕ) (t : Tx) → train (m + n) t ≡ train n (train m t)
unfolding train
train-train zero n t = let e : 0 + n ≡ n = omega arith in rw e refl
train-train (suc m) n t =
    let e : suc m + n ≡ suc (m + n) = omega arith in rw e (train-train m n (training_get t).1)

pub train_suc : (n : ℕ) (t : Tx) → train (n + 1) t ≡ (training_get (train n t)).1
unfolding train
train_suc n t = train-train n 1 t

-- What a training stage does not touch.
pub record Kept (t t' : Tx) : Type 0 where
  pub same_party : t'.calling_party ≡ t.calling_party
  pub same_rate : t'.negotiated_bit_rate ≡ t.negotiated_bit_rate
  pub same_reports : t'.reports ≡ t.reports

pub Kept-trans : (t t' t'' : Tx) → Kept t t' → Kept t' t'' → Kept t t''
Kept-trans t t' t'' k k' = record {
  same_party = k'.same_party ∙ k.same_party;
  same_rate = k'.same_rate ∙ k.same_rate;
  same_reports = k'.same_reports ∙ k.same_reports;
}

-- In a stage, at a count.
pub record At (stage : Training) (count : ℕ) (t : Tx) : Type 0 where
  pub here : t.training ≡ stage
  pub now : t.training_count ≡ count

-- A stage that counts up to its limit stays until the count is one short of it.
module _ (stage : Training) (limit : ℕ)
    (step : (c : ℕ) (t : Tx)
      → At stage c t
      → c + 1 < limit
      → At stage (c + 1) (training_get t).1 × Kept t (training_get t).1) where
  pub train-wait :
      (n c : ℕ) (t : Tx)
      → At stage c t
      → c + n < limit
      → At stage (c + n) (train n t) × Kept t (train n t)
  unfolding train
  train-wait zero c t a h = (
    subst (λ k. At stage k t) (omega arith) a,
    record { same_party = refl; same_rate = refl; same_reports = refl },
  )
  train-wait (suc n) c t a h =
      let (a', k) = step c t a (omega arith) in
      let (a'', k') = train-wait n (c + 1) (training_get t).1 a' (omega arith) in
      (subst (λ k. At stage k (train (suc n) t)) (omega arith) a'', Kept-trans _ _ _ k k')

pub silence-step :
    (c : ℕ) (t : Tx)
    → At initial_timed_silence c t
    → c + 1 < 45
    → At initial_timed_silence (c + 1) (training_get t).1 × Kept t (training_get t).1
unfolding training_get training_symbol
silence-step c t a h =
    rw (a.here, a.now, lt→leb_false 45 (c + 1) h)
      (
        record { here = refl; now = refl },
        record { same_party = refl; same_rate = refl; same_reports = refl },
      )

pub u0011-step :
    (c : ℕ) (t : Tx)
    → At u0011 c t
    → c + 1 < 60
    → At u0011 (c + 1) (training_get t).1 × Kept t (training_get t).1
unfolding training_get training_symbol send_u0011
u0011-step c t a h =
    rw (a.here, a.now, lt→leb_false 60 (c + 1) h)
      (
        record { here = refl; now = refl },
        record { same_party = refl; same_rate = refl; same_reports = refl },
      )

pub timed_s11-step :
    (c : ℕ) (t : Tx)
    → At timed_s11 c t
    → c + 1 < 453
    → At timed_s11 (c + 1) (training_get t).1 × Kept t (training_get t).1
unfolding training_get training_symbol send_s11 timed_s11_step
timed_s11-step c t a h =
    rw (a.here, a.now, lt→leb_false 453 (c + 1) h)
      (
        record { here = refl; now = refl },
        record { same_party = refl; same_rate = refl; same_reports = refl },
      )

pub s1111-step :
    (c : ℕ) (t : Tx)
    → At s1111 c t
    → c + 1 < 120
    → At s1111 (c + 1) (training_get t).1 × Kept t (training_get t).1
unfolding training_get training_symbol send_s1111 two_ones
s1111-step c t a h =
    rw (a.here, a.now, lt→leb_false 120 (c + 1) h)
      (
        record { here = refl; now = refl },
        record { same_party = refl; same_rate = refl; same_reports = refl },
      )

pub silence-end :
    (t : Tx)
    → At initial_timed_silence 44 t
    → At u11 0 (training_get t).1 × Kept t (training_get t).1
unfolding training_get training_symbol
silence-end t a =
    rw (a.here, a.now)
      (
        record { here = refl; now = refl },
        record { same_party = refl; same_rate = refl; same_reports = refl },
      )

pub u0011-end :
    (t : Tx)
    → At u0011 59 t
    → t.calling_party ≡ false
    → At timed_s11 153 (training_get t).1 × Kept t (training_get t).1
unfolding training_get training_symbol send_u0011
u0011-end t a e =
    rw (a.here, a.now, e)
      (
        record { here = refl; now = refl },
        record { same_party = refl; same_rate = refl; same_reports = refl },
      )

pub timed_s11-end :
    (t : Tx)
    → At timed_s11 452 t
    → t.negotiated_bit_rate ≡ 2400
    → At s1111 0 (training_get t).1 × Kept t (training_get t).1
unfolding training_get training_symbol send_s11 timed_s11_step
timed_s11-end t a e =
    rw (a.here, a.now, e)
      (
        record { here = refl; now = refl },
        record { same_party = refl; same_rate = refl; same_reports = refl },
      )

-- In data mode, on the owner's bits, with one more report.
pub record Entered (reports : List Status) (t : Tx) : Type 0 where
  pub trained : t.training ≡ normal_operation
  pub has_source : t.fake ≡ false
  pub reported : t.reports ≡ reports ++ training_succeeded ∷ []

pub s1111-end : (t : Tx) → At s1111 119 t → Entered t.reports (training_get t).1
unfolding training_get training_symbol send_s1111 two_ones begin_data
s1111-end t a = rw (a.here, a.now) (record { trained = refl; has_source = refl; reported = refl })

pub timed_s11-end_slow :
    (t : Tx)
    → At timed_s11 452 t
    → t.negotiated_bit_rate ≡ 1200
    → Entered t.reports (training_get t).1
unfolding training_get training_symbol send_s11 timed_s11_step begin_data
timed_s11-end_slow t a e =
    rw (a.here, a.now, e) (record { trained = refl; has_source = refl; reported = refl })
