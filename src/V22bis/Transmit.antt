-- ===== src/V22bis/Transmit.antt =====
-- The transmitter of v22bis_tx.c: one symbol at a time, in training (`training_get`) and in data
-- mode (`getbaud`). A symbol is silence or an index into the constellation.
pub mod Schedule
pub mod DataMode
pub mod Table
use v34_working.Base.{
  ℕ, zero, suc, ◌+◌, ◌-◌, ◌*◌, ◌/◌, ◌%◌, List, [], ◌∷◌, ◌++◌, Bool, true, false, Option, none, some,
  leb, ltb, ◌==◌, if◌then◌else◌,
}
use v34_working.V22bis.Scrambler.{Scrambler, restart, scramble}
use v34_working.V22bis.Symbols.{phase_steps, advance}

-- `v22bis_tx_training_t`
pub data Training : Type 0 where
  normal_operation initial_silence initial_timed_silence u11 u0011 s11 timed_s11 s1111 parked :
      Training

-- `v22bis_status_t`
pub data Status : Type 0 where
  training_succeeded training_failed carrier_up carrier_down retrain_occurred : Status

pub data Symbol : Type 0 where
  silence : Symbol
  point : ℕ → Symbol

-- What the transmitter keeps (`tx` of `v22bis_state_t`, and three fields of its owner). `fake` says
-- that `current_get_bit` is `fake_get_bit`; `reports` are the calls of the status handler.
pub record Tx : Type 0 where
  pub calling_party : Bool
  pub negotiated_bit_rate : ℕ
  pub scrambler : Scrambler
  pub training : Training
  pub training_count : ℕ
  pub constellation_state : ℕ
  pub shutdown : ℕ
  pub fake : Bool
  pub reports : List Status

-- ms_to_symbols
abbrev pub ms_to_symbols : ℕ → ℕ
ms_to_symbols t = t * 600 / 1000

-- The transmitter's part of `v22bis_restart`.
unfoldable pub tx_restart : Bool → Tx
unfolding restart
tx_restart calling_party = record {
  calling_party = calling_party;
  negotiated_bit_rate = 1200;
  scrambler = restart;
  training = if calling_party then initial_silence else initial_timed_silence;
  training_count = 0;
  constellation_state = 0;
  shutdown = 0;
  fake = true;
  reports = [];
}

-- Two calls of `scramble(s, 1)`, the first bit the higher one.
unfoldable pub two_ones : Tx → ℕ × Tx
two_ones t =
    let (b₁, s₁) = scramble t.scrambler 1 in
    let (b₂, s₂) = scramble s₁ 1 in (b₁ * 2 + b₂, record t { scrambler = s₂ })

-- Quadrant advance by a dibit, at the inner point of the quadrant.
unfoldable pub advance_by : ℕ → Tx → Symbol × Tx
unfolding advance
advance_by bits t =
    let q = advance t.constellation_state bits in
    (point (q * 4 + 1), record t { constellation_state = q })

-- Data mode begins.
unfoldable pub begin_data : Tx → Tx
begin_data t = record t {
  training_count = 0;
  training = normal_operation;
  fake = false;
  reports = t.reports ++ training_succeeded ∷ [];
}

-- The case V22BIS_TX_TRAINING_S11, and the end of TIMED_S11, which falls through to it.
unfoldable pub send_s11 : Tx → Symbol × Tx
unfolding two_ones advance_by
send_s11 t = let (bits, t') = two_ones t in advance_by bits t'

-- The `if` of TIMED_S11.
unfoldable pub timed_s11_step : Tx → Tx
unfolding begin_data
timed_s11_step t =
    let t' = record t { training_count = t.training_count + 1 } in
    if leb (ms_to_symbols 756) (t.training_count + 1)
    then if t.negotiated_bit_rate == 2400
      then record t' { training_count = 0; training = s1111 }
      else begin_data t'
    else t'

-- U0011, whose dibit alternates with the count.
unfoldable pub send_u0011 : Tx → Symbol × Tx
unfolding advance
send_u0011 t =
    let q = advance t.constellation_state (3 * (t.training_count % 2)) in
    let t' = record t { constellation_state = q; training_count = t.training_count + 1 } in
    (
      point (q * 4 + 1),
      if leb (ms_to_symbols 100) (t.training_count + 1)
          then if t.calling_party
            then record t' { training_count = 0; training = s11 }
            else record t' {
              training_count = ms_to_symbols (756 - (600 - 100));
              training = timed_s11;
            }
          else t',
    )

-- S1111: four scrambled ones a symbol.
unfoldable pub send_s1111 : Tx → Symbol × Tx
unfolding two_ones advance begin_data
send_s1111 t =
    let (bits, t₁) = two_ones t in
    let q = advance t₁.constellation_state bits in
    let (low, t₂) = two_ones (record t₁ { constellation_state = q }) in
    let t₃ = record t₂ { training_count = t₂.training_count + 1 } in
    (
      point (q * 4 + low),
      if leb (ms_to_symbols 200) (t₂.training_count + 1) then begin_data t₃ else t₃,
    )

-- The `switch` of `training_get`.
unfoldable pub training_symbol : Training → Tx → Symbol × Tx
unfolding advance_by send_s11 timed_s11_step send_u0011 send_s1111
training_symbol initial_timed_silence t =
    let t' = record t { training_count = t.training_count + 1; constellation_state = 0 } in
    (
      silence,
      if leb (ms_to_symbols 75) (t.training_count + 1)
          then record t' { training_count = 0; training = u11 }
          else t',
    )
training_symbol initial_silence t = (silence, record t { constellation_state = 0 })
training_symbol u11 t = advance_by 3 t
training_symbol u0011 t = send_u0011 t
training_symbol timed_s11 t = send_s11 (timed_s11_step t)
training_symbol s11 t = send_s11 t
training_symbol s1111 t = send_s1111 t
training_symbol normal_operation t = (silence, t)
training_symbol parked t = (silence, t)

unfoldable pub training_get : Tx → Symbol × Tx
unfolding training_symbol
training_get t = training_symbol t.training t

-- The data to send comes from the owner's callback: `none` is the -1 at its end.
module _ {U : Type 0} (get_bit : U → Option ℕ × U) where
  unfoldable pub scrambled : ℕ → Tx → ℕ × Tx
  scrambled bit t = let (b, s) = scramble t.scrambler bit in (b, record t { scrambler = s })

  -- `get_scrambled_bit`
  unfoldable pub get_scrambled_bit : Tx → U → ℕ × Tx × U
  unfolding scrambled
  get_scrambled_bit t u =
      let (b, u') = if t.fake then (some 1, u) else get_bit u in
      let t' : Tx = elim b [ none ↦ record t { fake = true; shutdown = 1 } | some _ ↦ t ] in
      let bit : ℕ = elim b [ none ↦ 1 | some x ↦ x ] in
      let (out, t'') = scrambled bit t' in (out, t'', u')

  -- Two of them, the first the higher bit.
  unfoldable pub get_dibit : Tx → U → ℕ × Tx × U
  unfolding get_scrambled_bit
  get_dibit t u =
      let (b₁, t₁, u₁) = get_scrambled_bit t u in
      let (b₂, t₂, u₂) = get_scrambled_bit t₁ u₁ in (b₁ * 2 + b₂, t₂, u₂)

  -- The end of `getbaud`.
  unfoldable pub data_symbol : Tx → U → Symbol × Tx × U
  unfolding get_dibit advance
  data_symbol t u =
      let (bits, t₁, u₁) = get_dibit t u in
      let q = advance t₁.constellation_state bits in
      let t₂ = record t₁ { constellation_state = q } in
      let (low, t₃, u₃) = get_dibit t₂ u₁ in
      if t₂.negotiated_bit_rate == 1200
      then (point (q * 4 + 1), t₂, u₁)
      else (point (q * 4 + low), t₃, u₃)

  -- `getbaud` once training is over.
  unfoldable pub data_baud : Tx → U → Symbol × Tx × U
  unfolding data_symbol
  data_baud t u =
      let t' = record t { shutdown = t.shutdown + 1 } in
      if t.shutdown == 0
      then data_symbol t u
      else if ltb 10 (t.shutdown + 1)
      then (silence, t', u)
      else data_symbol t' u

  unfoldable pub dispatch : Training → Tx → U → Symbol × Tx × U
  unfolding data_baud training_get
  dispatch normal_operation t u = data_baud t u
  dispatch _ t u = let (sym, t') = training_get t in (sym, t', u)

  unfoldable pub getbaud : Tx → U → Symbol × Tx × U
  unfolding dispatch
  getbaud t u = dispatch t.training t u
