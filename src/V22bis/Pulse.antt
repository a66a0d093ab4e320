-- ===== src/V22bis/Pulse.antt =====
-- The sample loop of `v22bis_tx` (v22bis_tx.c): when a symbol is fetched, the ring of the last nine
-- symbols, and what each sample is made of. The sums of products that turn this into an amplitude
-- are floating point and are left out.
pub mod Window
pub mod Rate
use v34_working.Base.{
  ℕ, zero, suc, ◌+◌, ◌-◌, ◌*◌, ◌%◌, List, [], ◌∷◌, Bool, true, false, ◌&&◌, not, leb, ltb, ◌==◌,
  update, Option, none, some, u32, if◌then◌else◌,
}
use v34_working.V22bis.Transmit.{Tx, Symbol, silence, point, getbaud, tx_restart}

-- The fields of `tx` that the sample loop keeps. A slot that holds 0 + 0j holds `silence`.
pub record Shaper : Type 0 where
  pub rrc_filter : ℕ → Symbol
  pub rrc_filter_step : ℕ
  pub baud_phase : ℕ
  pub carrier_phase : ℕ
  pub carrier_phase_rate : ℕ
  pub guard_tone_phase : ℕ
  pub guard_tone_phase_rate : ℕ

-- What one amplitude is computed from: the symbols in the filter, oldest first, the set of
-- coefficients, the carrier's phase, and the guard tone's phase while it is added.
pub record Sample : Type 0 where
  pub symbols : List Symbol
  pub set : ℕ
  pub carrier : ℕ
  pub tone : Option ℕ

-- V22BIS_TX_FILTER_STEPS, V22BIS_TX_PHASES, V22BIS_TX_PHASE_STEP
abbrev pub filter_steps : ℕ
filter_steps = 9

abbrev pub phases : ℕ
phases = 40

abbrev pub phase_step : ℕ
phase_step = 3

-- `++step` in the ring.
abbrev pub next_step : ℕ → ℕ
next_step step = if leb filter_steps (step + 1) then 0 else step + 1

-- The `for` loop over the filter: the slots that it reads.
unfoldable pub taps : ℕ → ℕ → (ℕ → Symbol) → List Symbol
taps zero step ring = []
taps (suc left) step ring = ring step ∷ taps left (next_step step) ring

unfoldable pub push : Symbol → Shaper → Shaper
push v s = record s {
  rrc_filter = update s.rrc_filter s.rrc_filter_step v;
  rrc_filter_step = next_step s.rrc_filter_step;
}

abbrev pub is_silence : Symbol → Bool
is_silence silence = true
is_silence (point _) = false

-- A sample, from the filter on.
unfoldable pub shape : Shaper → Sample × Shaper
unfolding taps
shape s =
    let toned =
      not (s.guard_tone_phase_rate == 0) && not (is_silence (s.rrc_filter s.rrc_filter_step)) in
    let carrier' = u32 (s.carrier_phase + s.carrier_phase_rate) in
    let tone' = u32 (s.guard_tone_phase + s.guard_tone_phase_rate) in
    (
      record {
        symbols = taps filter_steps s.rrc_filter_step s.rrc_filter;
        set = phases - 1 - s.baud_phase;
        carrier = s.carrier_phase;
        tone = if toned then some s.guard_tone_phase else none;
      },
      record s {
        carrier_phase = carrier';
        guard_tone_phase = if toned then tone' else s.guard_tone_phase;
      },
    )

-- The transmitter's part of `v22bis_restart`. The rates are 1200/8000 and 2400/8000 of a turn, as
-- the nearest `float`, in units of 2^-32; `guard_tone_phase_rate` is kept.
unfoldable pub shaper_restart : Bool → ℕ → Shaper
shaper_restart calling_party guard_tone_phase_rate = record {
  rrc_filter = λ _. silence;
  rrc_filter_step = 0;
  baud_phase = 0;
  carrier_phase = 0;
  carrier_phase_rate = if calling_party then 10066330 * 64 else 10066330 * 128;
  guard_tone_phase = 0;
  guard_tone_phase_rate = guard_tone_phase_rate;
}

module _ {U : Type 0} (get_bit : U → Option ℕ × U) where
  -- The advance of the symbol clock, and the fetch of a symbol when it comes round.
  unfoldable pub clock : Shaper → Tx → U → Shaper × Tx × U
  unfolding push getbaud
  clock s t u =
      let phase = s.baud_phase + phase_step in
      let (v, t', u') = getbaud get_bit t u in
      if leb phases phase
      then (push v (record s { baud_phase = phase - phases }), t', u')
      else (record s { baud_phase = phase }, t, u)

  -- The loop over the samples.
  unfoldable pub samples : ℕ → Shaper → Tx → U → List Sample × Shaper × Tx × U
  unfolding clock shape
  samples zero s t u = ([], s, t, u)
  samples (suc len) s t u =
      let (s₁, t₁, u₁) = clock s t u in
      let (a, s₂) = shape s₁ in
      let (rest, s₃, t₃, u₃) = samples len s₂ t₁ u₁ in (a ∷ rest, s₃, t₃, u₃)

  -- `v22bis_tx`
  unfoldable pub v22bis_tx : ℕ → Shaper → Tx → U → List Sample × Shaper × Tx × U
  unfolding samples
  v22bis_tx len s t u = if ltb 10 t.shutdown then ([], s, t, u) else samples len s t u
