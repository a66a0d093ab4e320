-- ===== src/V22bis/Carrier/Alternates.antt =====
-- What holds of the receiver and its carrier after any samples.
use v34_working.Base.{
  ◌+◌, ◌-◌, ap, ◌∙◌, raise, lower_by, ◌≡◌, refl, inl, List, [], ◌∷◌, Bool, true, false, leb, ◌==◌,
  if-Has, some, arith,
}
use v34_working.V22bis.Transmit.{carrier_up, carrier_down}
use v34_working.V22bis.Receive.{is_parked}
use v34_working.V22bis.Receive.Sound.{carrier-append, IsSound, baud-IsSound}
use v34_working.V22bis.Carrier.{
  Measure, Front, magnitude, down_limit, report_status, rx_restart, integrate, coeff_sets,
  symbol_sync, take_symbol, process_half_baud, is_due, insert, proceed, lose, take_sample,
  v22bis_rx,
}

-- The reports say of the carrier what the receiver has in `signal_present`.
abbrev pub HasSound : Front → Type 0
HasSound f = IsSound f.signal_present f.modem

symbol_sync-HasSound : (b : Bool) (f : Front) → HasSound f → HasSound (symbol_sync b f)
unfolding symbol_sync
symbol_sync-HasSound b f h =
    if-Has HasSound (leb 16 (magnitude (integrate b f))) _ _ (λ _. h) (λ _. h)

process_half_baud-HasSound :
    (m : Measure) (f : Front) → HasSound f → HasSound (process_half_baud m f)
unfolding process_half_baud take_symbol
process_half_baud-HasSound m f h =
    let f' : Front = record f { baud_phase = 1 - f.baud_phase } in
    let f'' = symbol_sync m.positive f' in
    if-Has HasSound (f.baud_phase == 0) f' (take_symbol m.nearest f'') (λ _. h)
      (λ _.
        baud-IsSound f''.signal_present m.nearest f''.modem (symbol_sync-HasSound m.positive f' h))

insert-HasSound : (m : Measure) (f : Front) → HasSound f → HasSound (insert m f)
unfolding insert
insert-HasSound m f h =
    let e = lower_by f.eq_put_step coeff_sets in
    let f' : Front = record f { eq_put_step = raise e 80 } in
    if-Has HasSound (is_due e) (process_half_baud m f') (record f { eq_put_step = e })
      (λ _. process_half_baud-HasSound m f' h) (λ _. h)

proceed-HasSound : (m : Measure) (f : Front) → HasSound f → HasSound (proceed m f)
unfolding proceed
proceed-HasSound m f h =
    if-Has HasSound (is_parked f.modem.training) f (insert m f) (λ _. h)
      (λ _. insert-HasSound m f h)

lose-HasSound :
    (m : Measure) (f : Front) → f.signal_present ≡ true → HasSound f → HasSound (lose m f)
unfolding lose report_status rx_restart
lose-HasSound m f on h =
    let f' : Front = record f { carrier_down_count = f.carrier_down_count + 1 } in
    if-Has HasSound (leb down_limit (f.carrier_down_count + 1)) _ (proceed m f')
      (λ _. (
        inl refl,
        carrier-append false true f.modem.tx.reports (carrier_down ∷ []) (h.1 ∙ ap some on),
        omega arith,
        refl,
      ))
      (λ _. proceed-HasSound m f' h)

pub take_sample-HasSound : (m : Measure) (f : Front) → HasSound f → HasSound (take_sample m f)
unfolding take_sample report_status
take_sample-HasSound m f h =
    let f' : Front = record f { carrier_down_count = 0 } in
    let heard : Front = record f' {
      signal_present = true;
      modem = report_status carrier_up f.modem;
    } in
    if-Has HasSound f.signal_present _ _
      (λ on.
        if-Has HasSound m.is_off _ _ (λ _. lose-HasSound m f on h) (λ _. proceed-HasSound m f' h))
      (λ off.
        if-Has HasSound m.is_on (proceed m heard) f
          (λ _. proceed-HasSound m heard (
            h.0,
            carrier-append false false f.modem.tx.reports (carrier_up ∷ []) (h.1 ∙ ap some off),
            h.2,
            h.3,
          ))
          (λ _. h))

-- Whatever is measured, a receiver that is sound is so after it: it has agreed on 1200 bit/s, or on
-- 2400 in a modem that is set to 2400; the status handler hears of carrier up and carrier down in
-- turn, and what it heard last is what `signal_present` says; the step of the clock recovery is at
-- most 256, and the receiver is not parked.
pub v22bis_rx-HasSound : (ms : List Measure) (f : Front) → HasSound f → HasSound (v22bis_rx ms f)
unfolding v22bis_rx
v22bis_rx-HasSound [] f h = h
v22bis_rx-HasSound (m ∷ ms) f h =
    v22bis_rx-HasSound ms (take_sample m f) (take_sample-HasSound m f h)
