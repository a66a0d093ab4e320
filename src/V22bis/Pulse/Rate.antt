-- ===== src/V22bis/Pulse/Rate.antt =====
-- How fast `v22bis_tx` sends: three symbols in forty samples, and what each sample is made of.
use v34_working.Base.{
  ℕ, zero, suc, ◌+◌, ◌-◌, ◌*◌, ◌/◌, ◌%◌, ◌≤◌, ◌<◌, ◌≡◌, refl, sym, ap, ◌∙◌, subst, List, [], ◌∷◌,
  ◌++◌, map, leb, take, drop, Option, arith, if◌then◌else◌, if_true, if_false, true, false, dec_lt,
  ltb, ge→ltb,
}
use v34_working.V22bis.Transmit.{Tx, Symbol, getbaud}
use v34_working.V22bis.Pulse.{
  Shaper, Sample, filter_steps, phases, phase_step, taps, push, shape, clock, samples, v22bis_tx,
}
use v34_working.V22bis.Pulse.Window.{window, window-push}

-- The phase and the slot are in range.
pub record IsAligned (s : Shaper) : Type 0 where
  pub slot : s.rrc_filter_step < filter_steps
  pub in_baud : s.baud_phase < phases

-- The clock on the line of symbols: which symbol is the oldest in the filter.
abbrev tick : ℕ → List Symbol → ℕ × List Symbol
tick phase line =
    if leb phases (phase + phase_step)
    then (phase + phase_step - phases, drop 1 line)
    else (phase + phase_step, line)

-- Nine symbols of a line and a set of coefficients for each of `n` samples.
abbrev pub sliding : ℕ → ℕ → List Symbol → List (List Symbol × ℕ)
sliding zero phase line = []
sliding (suc n) phase line =
    let (phase', line') = tick phase line in
    (take filter_steps line', phases - 1 - phase') ∷ sliding n phase' line'

abbrev pub part : Sample → List Symbol × ℕ
part a = (a.symbols, a.set)

module _ {U : Type 0} (get_bit : U → Option ℕ × U) where
  -- `n` calls of `getbaud` in a row.
  abbrev pub bauds : ℕ → Tx → U → List Symbol × Tx × U
  bauds zero t u = ([], t, u)
  bauds (suc n) t u =
      let (v, t₁, u₁) = getbaud get_bit t u in let (vs, t₂, u₂) = bauds n t₁ u₁ in (v ∷ vs, t₂, u₂)

  -- What the result of a run has to do with a line of symbols, the transmitter and its source.
  pub record Slides (n r : ℕ) (s : Shaper) (sent : List Symbol × Tx × U)
      (out : List Sample × Shaper × Tx × U) : Type 0 where
    pub made_of : map part out.0 ≡ sliding n s.baud_phase (window s ++ sent.0)
    pub same_tx : out.2 ≡ sent.1
    pub same_source : out.3 ≡ sent.2
    pub ends_at : out.1.baud_phase ≡ r
    pub aligned : IsAligned out.1

  -- One more sample, after the clock.
  abbrev resume : ℕ → Shaper × Tx × U → List Sample × Shaper × Tx × U
  resume n c =
      let (a, s₂) = shape c.0 in
      let (rest, s₃, t₃, u₃) = samples get_bit n s₂ c.1 c.2 in (a ∷ rest, s₃, t₃, u₃)

  -- One more sample of the line: `c` is what the clock leaves.
  Slides-resume :
      (n r : ℕ) (s : Shaper) (all vs : List Symbol) (t : Tx) (u : U) (c : Shaper × Tx × U)
      → tick s.baud_phase (window s ++ all) ≡ (c.0.baud_phase, window c.0 ++ vs)
      → Slides n r (shape c.0).1 (vs, t, u) (samples get_bit n (shape c.0).1 c.1 c.2)
      → Slides (suc n) r s (all, t, u) (resume n c)
  unfolding shape taps
  Slides-resume n r s all vs t u c e rest = record {
    same_tx = rest.same_tx;
    same_source = rest.same_source;
    ends_at = rest.ends_at;
    aligned = rest.aligned;
    made_of =
        ap (λ l. (window c.0, phases - 1 - c.0.baud_phase) ∷ l) rest.made_of
        ∙ ap (λ p. (take filter_steps p.1, phases - 1 - p.0) ∷ sliding n p.0 p.1) (sym e);
  }

  push_lem :
      (v : Symbol) (s : Shaper) (vs : List Symbol)
      → s.rrc_filter_step < filter_steps
      → drop 1 (window s ++ v ∷ vs) ≡ window (push v s) ++ vs
  unfolding taps
  push_lem v s vs h = ap (λ l. l ++ vs) (sym (window-push v s h))

  -- A sample in which no symbol is due.
  samples-wait :
      (n r : ℕ) (s : Shaper) (t : Tx) (u : U) (sent : List Symbol × Tx × U)
      → s.baud_phase + phase_step < phases
      → let s' : Shaper = record s { baud_phase = s.baud_phase + phase_step } in
        Slides n r (shape s').1 sent (samples get_bit n (shape s').1 t u)
        → Slides (suc n) r s sent (samples get_bit (suc n) s t u)
  unfolding samples clock
  samples-wait n r s t u sent early k =
      let phase = s.baud_phase + phase_step in
      let e : leb phases phase ≡ false = ground arith in
      subst (λ c. Slides (suc n) r s sent (resume n c)) (sym (if_false (leb phases phase) _ _ e))
        (Slides-resume n r s sent.0 sent.0 sent.1 sent.2 (record s { baud_phase = phase }, t, u)
          (if_false (leb phases phase) _ _ e) k)

  -- A sample in which one is.
  samples-fetch :
      (n k r : ℕ) (s : Shaper) (t : Tx) (u : U)
      → s.rrc_filter_step < filter_steps
      → phases ≤ s.baud_phase + phase_step
      → let (v, t', u') = getbaud get_bit t u in
        let s' = push v (record s { baud_phase = s.baud_phase + phase_step - phases }) in
        Slides n r (shape s').1 (bauds k t' u') (samples get_bit n (shape s').1 t' u')
        → Slides (suc n) r s (bauds (suc k) t u) (samples get_bit (suc n) s t u)
  unfolding samples clock
  samples-fetch n k r s t u slot due rest =
      let phase = s.baud_phase + phase_step in
      let e : leb phases phase ≡ true = ground arith in
      let (v, t', u') = getbaud get_bit t u in
      let s' = push v (record s { baud_phase = phase - phases }) in
      let (vs, t'', u'') = bauds k t' u' in
      subst (λ c. Slides (suc n) r s (bauds (suc k) t u) (resume n c))
        (sym (if_true (leb phases phase) _ _ e))
        (Slides-resume n r s (v ∷ vs) vs t'' u'' (s', t', u')
          (if_true (leb phases phase) _ _ e ∙ ap (λ l. (phase - phases, l)) (push_lem v s vs slot))
          rest)

  -- Where one is due, `k` is not 0: the samples after it are given by what holds of `n`.
  samples_due :
      (n r : ℕ) (s : Shaper) (t : Tx) (u : U)
      → IsAligned s
      → phases ≤ s.baud_phase + phase_step
      → r < phases
      → ((k r : ℕ) (s : Shaper) (t : Tx) (u : U)
          → IsAligned s
          → s.baud_phase + phase_step * n ≡ phases * k + r
          → r < phases
          → Slides n r s (bauds k t u) (samples get_bit n s t u))
      → (k : ℕ) → s.baud_phase + phase_step * suc n ≡ phases * k + r
      → Slides (suc n) r s (bauds k t u) (samples get_bit (suc n) s t u)
  unfolding shape push
  samples_due n r s t u a due h again zero e = absurd (omega (arith, e, due, h))
  samples_due n r s t u a due h again (suc k) e =
      let (v, t', u') = getbaud get_bit t u in
      let s' = push v (record s { baud_phase = s.baud_phase + phase_step - phases }) in
      let a' : IsAligned (shape s').1 = record {
        slot = ground (arith, a.slot);
        in_baud = omega (arith, a.in_baud);
      } in
      samples-fetch n k r s t u a.slot due
        (again k r (shape s').1 t' u' a' (omega (arith, e, due, a.in_baud)) h)

  samples-Slides :
      (n k r : ℕ) (s : Shaper) (t : Tx) (u : U)
      → IsAligned s
      → s.baud_phase + phase_step * n ≡ phases * k + r
      → r < phases
      → Slides n r s (bauds k t u) (samples get_bit n s t u)
  unfolding samples shape push
  samples-Slides zero zero r s t u a e h = record {
    made_of = refl;
    same_tx = refl;
    same_source = refl;
    ends_at = omega (arith, e);
    aligned = a;
  }
  samples-Slides zero (suc k) r s t u a e h = absurd (omega (arith, a.in_baud))
  samples-Slides (suc n) k r s t u a e h = elim (dec_lt (s.baud_phase + phase_step) phases) [
    | yes early ↦
        let s' : Shaper = record s { baud_phase = s.baud_phase + phase_step } in
        let a' : IsAligned (shape s').1 = record { slot = a.slot; in_baud = early } in
        samples-wait n r s t u (bauds k t u) early
          (samples-Slides n k r (shape s').1 t u a' (omega (arith, e)) h)
    | no late ↦ samples_due n r s t u a (omega arith) h (samples-Slides n) k e
  ]

  -- A run of `n` samples of a transmitter that has not shut down fetches one symbol for every forty
  -- phase steps, three a sample: they are those of as many calls of `getbaud`, and leave the
  -- transmitter and its source as these do. Each sample is made of the nine symbols last fetched,
  -- with the set of coefficients for its phase.
  pub v22bis_tx-Slides :
      (n : ℕ) (s : Shaper) (t : Tx) (u : U)
      → IsAligned s
      → t.shutdown ≤ 10
      → Slides n
          ((s.baud_phase + phase_step * n) % phases)
          s
          (bauds ((s.baud_phase + phase_step * n) / phases) t u)
          (v22bis_tx get_bit n s t u)
  unfolding v22bis_tx
  v22bis_tx-Slides n s t u a on =
      let total = s.baud_phase + phase_step * n in
      subst (Slides n (total % phases) s (bauds (total / phases) t u))
        (sym (if_false (ltb 10 t.shutdown) _ _ (ge→ltb 10 t.shutdown on)))
        (samples-Slides n (total / phases) (total % phases) s t u a (omega arith) (omega arith))
