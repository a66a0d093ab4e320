-- ===== src/V22bis/Carrier/Debounce.antt =====
-- The loss of the carrier is debounced.
use v34_working.Base.{
  ℕ, ◌-◌, ◌==◌, raise, lower_by, subst, sym, ◌+◌, ◌<◌, ◌≡◌, refl, ◌∙◌, List, [], ◌∷◌, Bool, true,
  false, leb, length, All, Bool-cases, inl, inr, if_true, if_false, if-Has, le→leb, lt→leb_false,
  arith, ◌++◌, if◌then◌else◌,
}
use v34_working.V22bis.Transmit.{carrier_down}
use v34_working.V22bis.Receive.{symbol_acquisition, is_parked}
use v34_working.V22bis.Carrier.{
  Measure, Front, coeff_sets, down_limit, magnitude, integrate, symbol_sync, take_symbol,
  process_half_baud, is_due, insert, proceed, lose, take_sample, v22bis_rx, rx_restart,
  report_status,
}

-- The carrier is not missed for 800 samples in a row, `count` of them before these.
abbrev pub IsBrief : ℕ → List Measure → Type 0
IsBrief count [] = Unit
IsBrief count (m ∷ ms) =
    ((m.is_off ≡ true) → count + 1 < down_limit) × IsBrief (if m.is_off then count + 1 else 0) ms

-- The clock touches neither the carrier nor its count.
abbrev Same : Front → Front → Type 0
Same f f' = (f'.signal_present ≡ f.signal_present) × (f'.carrier_down_count ≡ f.carrier_down_count)

symbol_sync-Same : (b : Bool) (f : Front) → Same f (symbol_sync b f)
unfolding symbol_sync
symbol_sync-Same b f =
    if-Has (Same f) (leb 16 (magnitude (integrate b f))) _ _ (λ _. (refl, refl)) (λ _. (refl, refl))

process_half_baud-Same : (m : Measure) (f : Front) → Same f (process_half_baud m f)
unfolding process_half_baud take_symbol
process_half_baud-Same m f =
    let f' : Front = record f { baud_phase = 1 - f.baud_phase } in
    let f'' = symbol_sync m.positive f' in
    if-Has (Same f) (f.baud_phase == 0) f' (take_symbol m.nearest f'') (λ _. (refl, refl))
      (λ _. symbol_sync-Same m.positive f')

insert-Same : (m : Measure) (f : Front) → Same f (insert m f)
unfolding insert
insert-Same m f =
    let e = lower_by f.eq_put_step coeff_sets in
    let f' : Front = record f { eq_put_step = raise e 80 } in
    if-Has (Same f) (is_due e) (process_half_baud m f') (record f { eq_put_step = e })
      (λ _. process_half_baud-Same m f') (λ _. (refl, refl))

proceed-Same : (m : Measure) (f : Front) → Same f (proceed m f)
unfolding proceed
proceed-Same m f =
    if-Has (Same f) (is_parked f.modem.training) f (insert m f) (λ _. (refl, refl))
      (λ _. insert-Same m f)

-- A sample that is missed, one that is not, and the one that is too many.
take_sample_off :
    (m : Measure) (f : Front)
    → f.signal_present ≡ true
    → m.is_off ≡ true
    → f.carrier_down_count + 1 < down_limit
    → let f' = take_sample m f in
      (f'.signal_present ≡ true) × (f'.carrier_down_count ≡ f.carrier_down_count + 1)
unfolding take_sample lose
take_sample_off m f on off few =
    let f' : Front = record f { carrier_down_count = f.carrier_down_count + 1 } in
    let next : take_sample m f ≡ proceed m f' =
      if_true f.signal_present _ _ on
      ∙ if_true m.is_off _ _ off
      ∙ if_false (leb down_limit (f.carrier_down_count + 1)) _ _
          (lt→leb_false down_limit (f.carrier_down_count + 1) few) in
    let (same, count) = proceed-Same m f' in rw next (same ∙ on, count)

take_sample_on :
    (m : Measure) (f : Front)
    → f.signal_present ≡ true
    → m.is_off ≡ false
    → let f' = take_sample m f in (f'.signal_present ≡ true) × (f'.carrier_down_count ≡ 0)
unfolding take_sample
take_sample_on m f on there =
    let f' : Front = record f { carrier_down_count = 0 } in
    let next : take_sample m f ≡ proceed m f' =
      if_true f.signal_present _ _ on ∙ if_false m.is_off _ _ there in
    let (same, count) = proceed-Same m f' in rw next (same ∙ on, count)

-- What is left of a receiver that has lost the carrier.
pub record IsLost (f f' : Front) : Type 0 where
  pub gone : f'.signal_present ≡ false
  pub anew : f'.modem.training ≡ symbol_acquisition
  pub told : f'.modem.tx.reports ≡ f.modem.tx.reports ++ carrier_down ∷ []
  pub still_sending : f'.modem.tx.training ≡ f.modem.tx.training
  pub same_count : f'.modem.tx.training_count ≡ f.modem.tx.training_count

take_sample-IsLost :
    (m : Measure) (f : Front)
    → f.signal_present ≡ true
    → m.is_off ≡ true
    → f.carrier_down_count + 1 ≡ down_limit
    → IsLost f (take_sample m f)
unfolding take_sample lose rx_restart report_status
take_sample-IsLost m f on off last =
    let restarted = rx_restart f in
    let lost : Front = record restarted { modem = report_status carrier_down restarted.modem } in
    let next : take_sample m f ≡ lost =
      if_true f.signal_present _ _ on
      ∙ if_true m.is_off _ _ off
      ∙ if_true (leb down_limit (f.carrier_down_count + 1)) _ _
          (le→leb down_limit (f.carrier_down_count + 1) (omega arith)) in
    rw next
      (record { gone = refl; anew = refl; told = refl; still_sending = refl; same_count = refl })

v22bis_rx-IsBrief :
    (ms : List Measure) (f : Front)
    → f.signal_present ≡ true
    → IsBrief f.carrier_down_count ms
    → (v22bis_rx ms f).signal_present ≡ true
unfolding v22bis_rx
v22bis_rx-IsBrief [] f on brief = on
v22bis_rx-IsBrief (m ∷ ms) f on (few, brief) = elim (Bool-cases m.is_off) [
  | inl off ↦
      let (on', count) = take_sample_off m f on off (few off) in
      v22bis_rx-IsBrief ms (take_sample m f) on'
        (subst (λ c. IsBrief c ms) (if_true m.is_off _ _ off ∙ sym count) brief)
  | inr there ↦
      let (on', count) = take_sample_on m f on there in
      v22bis_rx-IsBrief ms (take_sample m f) on'
        (subst (λ c. IsBrief c ms) (if_false m.is_off _ _ there ∙ sym count) brief)
]

missed-IsLost :
    (run : List Measure) (m : Measure) (f : Front)
    → f.signal_present ≡ true
    → All (λ m. m.is_off ≡ true) run
    → m.is_off ≡ true
    → f.carrier_down_count + length run + 1 ≡ down_limit
    → IsLost (v22bis_rx run f) (v22bis_rx (run ++ m ∷ []) f)
unfolding v22bis_rx
missed-IsLost [] m f on all off sum = take_sample-IsLost m f on off (omega (arith, sum))
missed-IsLost (x ∷ run) m f on (o, all) off sum =
    let (on', count) = take_sample_off x f on o (omega (arith, sum)) in
    missed-IsLost run m (take_sample x f) on' all off (omega (arith, sum, count))

-- Once there is a carrier, the receiver keeps it while the power is not below the threshold for 800
-- samples in a row, and gives it up with the 800th: it trains anew and reports carrier down, and the
-- transmitter's training goes on where it is.
pub v22bis_rx-IsLost :
    (ms run : List Measure) (m : Measure) (f : Front)
    → f.signal_present ≡ true
    → IsBrief f.carrier_down_count ms
    → All (λ m. m.is_off ≡ true) run
    → m.is_off ≡ true
    → (v22bis_rx ms f).carrier_down_count + length run + 1 ≡ down_limit
    → let f' = v22bis_rx ms f in
      (f'.signal_present ≡ true) × IsLost (v22bis_rx run f') (v22bis_rx (run ++ m ∷ []) f')
v22bis_rx-IsLost ms run m f on brief all off sum =
    let on' = v22bis_rx-IsBrief ms f on brief in
    (on', missed-IsLost run m (v22bis_rx ms f) on' all off sum)
