-- ===== src/V22bis/Carrier/Paced.antt =====
-- How often a symbol is complete while there is a carrier.
use v34_working.Base.{
  ℕ, zero, suc, ◌+◌, ◌-◌, ◌*◌, ◌≤◌, ◌≡◌, refl, sym, ap, ◌∙◌, subst, Bool, true, false, not, ◌&&◌,
  ◌==◌, pos, lower_by, arith, if◌then◌else◌, if_true, if_false, dec_lt, le→leb, lt→leb_false,
}
use v34_working.V22bis.Receive.{is_parked, retrains, baud}
use v34_working.V22bis.Carrier.Clock.{
  bit, choose_step, IsPaced, lower-pos, is_due-lower, raise-lower, symbol_sync-Corrected,
}
use v34_working.V22bis.Carrier.{
  Measure, Front, coeff_sets, magnitude, symbol_sync, take_symbol, process_half_baud, is_due,
  insert, proceed, take_sample,
}

-- The next sample completes a symbol.
abbrev pub completes : Front → Bool
unfolding lower_by
completes f = is_due (lower_by f.eq_put_step coeff_sets) && not (f.baud_phase == 0)

-- One sample with a carrier: the modem takes the symbol that is complete, and the clock stays
-- within a tenth of its pace, but for the reset that comes with a retrain.
pub record Moves (done : Bool) (m : Measure) (f f' : Front) : Type 0 where
  pub same_modem : f'.modem ≡ (if done then baud m.nearest f.modem else f.modem)
  pub same_signal : f'.signal_present ≡ f.signal_present
  pub paced : IsPaced f'
  pub fast :
      magnitude f'.eq_put_step + 80 * f.baud_phase + 12
      ≤ magnitude f.eq_put_step + 80 * f'.baud_phase + 176 * bit done
  pub slow :
      magnitude f.eq_put_step + 80 * f'.baud_phase + 144 * bit done
      ≤ magnitude f'.eq_put_step
        + 80 * f.baud_phase
        + 12
        + 45 * bit (done && retrains m.nearest f.modem)

abbrev at : ℕ → ℕ → Front → Front
at e p f = record f { eq_put_step = pos e; baud_phase = p }

-- An insertion, which completes a symbol at every other call.
insert_due-Moves :
    (m : Measure) (f : Front) (e p : ℕ)
    → 1 ≤ e
    → e ≤ 12
    → p ≤ 1
    → magnitude f.gardner_integrate ≤ 15
    → f.modem.gardner_step ≤ 256
    → Moves (completes (at e p f)) m (at e p f) (insert m (at e p f))
unfolding insert process_half_baud take_symbol
insert_due-Moves m f e zero lo hi half small step =
    let due : is_due (lower_by (pos e) coeff_sets) ≡ true = is_due-lower e ∙ le→leb e 12 hi in
    let done : completes (at e 0 f) ≡ false = ap (λ b. b && false) due in
    let next : insert m (at e 0 f) ≡ at (e + 68) 1 f =
      if_true (is_due (lower_by (pos e) coeff_sets)) _ _ due
      ∙ ap (λ x. record (at e 1 f) { eq_put_step = x }) (raise-lower e) in
    rw (done, next)
      (record {
        same_modem = refl;
        same_signal = refl;
        paced = record {
          ahead = refl;
          low = omega arith;
          high = omega arith;
          half = omega arith;
          small = small;
        };
        fast = omega arith;
        slow = omega arith;
      })
insert_due-Moves m f e (suc zero) lo hi half small step =
    let due : is_due (lower_by (pos e) coeff_sets) ≡ true = is_due-lower e ∙ le→leb e 12 hi in
    let done : completes (at e 1 f) ≡ true = ap (λ b. b && true) due in
    let f' = symbol_sync m.positive (at (e + 68) 0 f) in
    let c =
      symbol_sync-Corrected m.positive (at (e + 68) 0 f) (e + 68) refl (omega arith) (omega arith)
        (omega arith) small step in
    let next : insert m (at e 1 f) ≡ take_symbol m.nearest f' =
      if_true (is_due (lower_by (pos e) coeff_sets)) _ _ due
      ∙ ap
          (λ x.
            take_symbol m.nearest (symbol_sync m.positive (record (at e 0 f) { eq_put_step = x })))
          (raise-lower e) in
    let again : retrains m.nearest f'.modem ≡ retrains m.nearest f.modem =
      ap (retrains m.nearest) c.same_modem in
    let (ahead', low', high', least', most') =
      choose_step (retrains m.nearest f'.modem) f'.eq_put_step (e + 68) c.paced.ahead c.paced.low
        c.paced.high c.least c.most (omega arith) (omega arith) in
    let least'' =
      subst (λ r. e + 68 ≤ magnitude (take_symbol m.nearest f').eq_put_step + 16 + 45 * bit r) again
        least' in
    rw (done, next)
      (record {
        same_modem = ap (baud m.nearest) c.same_modem;
        same_signal = c.same_signal;
        paced = record {
          ahead = ahead';
          low = low';
          high = high';
          half = c.paced.half;
          small = c.paced.small;
        };
        fast = omega (arith, c.same_half, most');
        slow = omega (arith, c.same_half, least'');
      })
insert_due-Moves m f e (suc (suc p)) lo hi half small step = absurd (omega arith)

-- A sample with a carrier, of a receiver that is not parked.
insert-Moves :
    (m : Measure) (f : Front) (e p : ℕ)
    → 1 ≤ e
    → e ≤ 96
    → p ≤ 1
    → magnitude f.gardner_integrate ≤ 15
    → f.modem.gardner_step ≤ 256
    → Moves (completes (at e p f)) m (at e p f) (insert m (at e p f))
unfolding insert process_half_baud
insert-Moves m f e p lo hi half small step =
    elim (dec_lt 12 e) as (λ _. Moves (completes (at e p f)) m (at e p f) (insert m (at e p f))) [
      | yes early ↦
          let no_due : is_due (lower_by (pos e) coeff_sets) ≡ false =
            is_due-lower e ∙ lt→leb_false e 12 early in
          let done : completes (at e p f) ≡ false = ap (λ b. b && not (p == 0)) no_due in
          let next : insert m (at e p f) ≡ at (e - 12) p f =
            if_false (is_due (lower_by (pos e) coeff_sets)) _ _ no_due
            ∙ ap (λ x. record (at e p f) { eq_put_step = x }) (lower-pos e early) in
          rw (done, next)
            (record {
              same_modem = refl;
              same_signal = refl;
              paced = record {
                ahead = refl;
                low = omega arith;
                high = omega arith;
                half = half;
                small = small;
              };
              fast = omega arith;
              slow = omega arith;
            })
      | no late ↦ insert_due-Moves m f e p lo (omega arith) half small step
    ]

-- A sample in which the carrier is neither found nor missed.
pub take_sample-Moves :
    (m : Measure) (f : Front)
    → IsPaced f
    → f.signal_present ≡ true
    → m.is_off ≡ false
    → is_parked f.modem.training ≡ false
    → f.modem.gardner_step ≤ 256
    → Moves (completes f) m f (take_sample m f)
unfolding take_sample proceed
take_sample-Moves m f h on there running step =
    let f₀ : Front = record f { carrier_down_count = 0 } in
    let e = magnitude f.eq_put_step in
    let same : at e f.baud_phase f₀ ≡ f₀ = λ i. record f₀ { eq_put_step = sym h.ahead i } in
    let next : take_sample m f ≡ insert m f₀ =
      if_true f.signal_present _ _ on
      ∙ if_false m.is_off _ _ there
      ∙ if_false (is_parked f.modem.training) _ _ running in
    let moves =
      subst (λ g. Moves (completes g) m g (insert m g)) same
        (insert-Moves m f₀ e f.baud_phase h.low h.high h.half h.small step) in
    rw next (record {
      same_modem = moves.same_modem;
      same_signal = moves.same_signal;
      paced = moves.paced;
      fast = moves.fast;
      slow = moves.slow;
    })
