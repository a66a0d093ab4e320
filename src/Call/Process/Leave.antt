-- ===== src/Call/Process/Leave.antt =====
-- The way from V.8 to a modem (`process_audio` of `src/call/sm_call.c`).
use v34_working.Base.{
  ◌≡◌, refl, sym, subst, Bool, true, false, ◌&&◌, Option, none, some, ◌==◌, Bool-cases, inl, inr,
  arith, if_false,
}
use v34_working.Call.{v22, v34, handshake, v8, is_v8, is_some, Call}
use v34_working.Call.Engines.{Engines}
use v34_working.Call.Process.{
  guard_samples, enter_v22, new_v34, enter_v34, force_v34, without_v34, chosen_v34, leave_v8,
}

module _ {X G : Type 0} (e : Engines X) where
  -- V.34 with the engine that `v34_init` has made.
  abbrev pub RunsV34 : Call X G → Call X G → Type 0
  RunsV34 c d = (d.phase ≡ handshake) × (d.mode ≡ v34) × (is_some d.v34 ≡ true)

  -- V.22bis, with a receiver that is restarted and hears nothing for half a second.
  abbrev pub RunsV22 : Call X G → Call X G → Type 0
  RunsV22 c d =
      (d.phase ≡ handshake)
      × (d.mode ≡ v22)
      × (d.modem ≡ e.v22bis_rx_restart c.modem)
      × (d.rx_guard ≡ guard_samples)

  -- What follows, by three answers: V.8 has agreed on V.34, V.34 is to be forced without that, and
  -- its engine can be made. A call that goes nowhere is as it was, without a V.34.
  abbrev pub Leaves : Bool → Bool → Bool → Call X G → Call X G → Type 0
  Leaves true forced true c d = RunsV34 c d
  Leaves true forced false c d = RunsV22 c d
  Leaves false true true c d = RunsV34 c d
  Leaves false true false c d = d ≡ record c { v34 = none }
  Leaves false false made c d = RunsV22 c d

  -- V.34 is to be forced: V.8 has failed outright, and the call is set to V.34.
  abbrev pub forces : Call X G → Bool
  forces c = c.cfg.use_v34 && (c.v8_ok == 0)

  chosen-Leaves :
      (o : Option X) (forced : Bool) (c : Call X G)
      → Leaves true forced (is_some o) c (chosen_v34 e o c)
  unfolding chosen_v34 without_v34 enter_v34 enter_v22
  chosen-Leaves (some x) forced c = (refl, refl, refl)
  chosen-Leaves none forced c =
      let d : Call X G = record c { v34 = none; v8_ok = 1 } in
      let none_forced : forces d ≡ false = ground arith in
      subst (RunsV22 c) (sym (if_false (forces d) (force_v34 e (new_v34 e d) d) _ none_forced))
        (refl, refl, refl, refl)

  force-Leaves : (o : Option X) (c : Call X G) → Leaves false true (is_some o) c (force_v34 e o c)
  unfolding force_v34 enter_v34
  force-Leaves (some x) c = (refl, refl, refl)
  force-Leaves none c = refl

  unchosen-Leaves :
      (c : Call X G) → Leaves false (forces c) (is_some (new_v34 e c)) c (without_v34 e c)
  unfolding without_v34 enter_v22
  unchosen-Leaves c = elim (Bool-cases (forces c)) [
    | inl forced ↦ rw forced (force-Leaves (new_v34 e c) c)
    | inr not_forced ↦ rw not_forced (refl, refl, refl, refl)
  ]

  -- When V.8 is over, three answers say where the call goes. If V.8 has agreed on V.34, it goes on
  -- as V.34, or as V.22bis behind the guard when the engine of V.34 cannot be made. If V.8 has
  -- failed outright and the call is set to V.34, it goes on as V.34; when the engine cannot be made,
  -- V.22bis does not begin either: nothing is changed but that there is no V.34, so that the call
  -- stays in V.8. Otherwise it goes on as V.22bis behind the guard.
  pub leave_v8_lem :
      (c : Call X G)
      → c.phase ≡ v8
      → c.v8_done ≡ true
      → Leaves (c.v8_ok == 2) (forces c) (is_some (new_v34 e c)) c (leave_v8 e c)
  unfolding leave_v8
  leave_v8_lem c h k =
      let over : is_v8 c.phase && c.v8_done ≡ true = ground arith in
      elim (Bool-cases (c.v8_ok == 2)) [
        | inl agreed ↦ rw (over, agreed) (chosen-Leaves (new_v34 e c) (forces c) c)
        | inr other ↦ rw (over, other) (unchosen-Leaves c)
      ]
