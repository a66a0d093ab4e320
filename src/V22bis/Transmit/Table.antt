-- ===== src/V22bis/Transmit/Table.antt =====
-- The index into `v22bis_constellation[16]`, in training and in data mode.
use v34_working.Base.{
  ℕ, ◌+◌, ◌*◌, ◌%◌, ◌<◌, ◌≡◌, refl, ◌∙◌, sym, Bool, true, false, Option, none, some, arith, ltb,
  ◌==◌, if◌then◌else◌,
}
use v34_working.V22bis.Scrambler.{Scrambler, scramble}
use v34_working.V22bis.Scrambler.Sync.{taps-IsBit}
use v34_working.V22bis.Symbols.{advance}
use v34_working.V22bis.Symbols.RoundTrip.{advance-lt}
use v34_working.V22bis.Transmit.{
  Tx, Training, Symbol, silence, point, normal_operation, initial_silence, initial_timed_silence,
  u11, u0011, s11, timed_s11, s1111, parked, two_ones, advance_by, begin_data, timed_s11_step,
  send_s11, send_u0011, send_s1111, training_symbol, training_get, get_scrambled_bit, get_dibit,
  data_symbol, data_baud, dispatch, getbaud,
}

-- A symbol that the constellation table has.
abbrev pub InTable : Symbol → Type 0
InTable silence = Unit {0}
InTable (point i) = i < 16

-- A symbol in the table, with a quadrant after it.
record Fits (sym : Symbol) (t : Tx) : Type 0 where
  in_table : InTable sym
  quadrant : t.constellation_state < 4

bit_lt : (s : Scrambler) (b : ℕ) → (scramble s b).0 < 2
unfolding scramble
bit_lt s b = taps-IsBit _ s.reg

two_ones_lt : (t : Tx) → (two_ones t).0 < 4
unfolding two_ones
two_ones_lt t = omega (arith, bit_lt t.scrambler 1, bit_lt (scramble t.scrambler 1).1 1)

quadrant_if :
    (b : Bool) (x y : Tx)
    → x.constellation_state < 4
    → y.constellation_state < 4
    → (if b then x else y).constellation_state < 4
quadrant_if true x y h k = h
quadrant_if false x y h k = k

send_s11-Fits : (t : Tx) → Fits (send_s11 t).0 (send_s11 t).1
unfolding send_s11 advance_by
send_s11-Fits t =
    let lt = advance-lt t.constellation_state (two_ones t).0 in
    record { in_table = omega (arith, lt); quadrant = lt }

send_s1111-Fits : (t : Tx) → Fits (send_s1111 t).0 (send_s1111 t).1
unfolding send_s1111 two_ones begin_data
send_s1111-Fits t =
    let t' = (two_ones t).1 in
    let lt = advance-lt t.constellation_state (two_ones t).0 in
    record { in_table = omega (arith, lt, two_ones_lt t'); quadrant = quadrant_if _ _ _ lt lt }

training_symbol-Fits :
    (s : Training) (t : Tx)
    → t.constellation_state < 4
    → Fits (training_symbol s t).0 (training_symbol s t).1
unfolding training_symbol send_u0011 advance_by
training_symbol-Fits initial_timed_silence t h =
    let low : 0 < 4 = omega arith in record { in_table = tt; quadrant = quadrant_if _ _ _ low low }
training_symbol-Fits initial_silence t h = record { in_table = tt; quadrant = omega arith }
training_symbol-Fits u11 t h =
    let lt = advance-lt t.constellation_state 3 in
    record { in_table = omega (arith, lt); quadrant = lt }
training_symbol-Fits u0011 t h =
    let lt = advance-lt t.constellation_state (3 * (t.training_count % 2)) in
    record {
      in_table = omega (arith, lt);
      quadrant = quadrant_if _ _ _ (quadrant_if t.calling_party _ _ lt lt) lt;
    }
training_symbol-Fits timed_s11 t h = send_s11-Fits (timed_s11_step t)
training_symbol-Fits s11 t h = send_s11-Fits t
training_symbol-Fits s1111 t h = send_s1111-Fits t
training_symbol-Fits normal_operation t h = record { in_table = tt; quadrant = h }
training_symbol-Fits parked t h = record { in_table = tt; quadrant = h }

-- The end of data changes no quadrant.
quadrant_option :
    (b : Option ℕ) (t : Tx)
    → (elim b as (λ _. Tx) [
      | none ↦ record t { fake = true; shutdown = 1 }
      | some _ ↦ t
    ]).constellation_state
      ≡ t.constellation_state
quadrant_option none t = refl
quadrant_option (some _) t = refl

Fits-if {ℓ} :
    {U : Type ℓ} (b : Bool) (x y : Symbol × Tx × U)
    → Fits x.0 x.1
    → Fits y.0 y.1
    → Fits (if b then x else y).0 (if b then x else y).1
Fits-if true x y h k = h
Fits-if false x y h k = k

module _ {U : Type 0} (get_bit : U → Option ℕ × U) where
  get_scrambled_bit_lt :
      (t : Tx) (u : U)
      → let (bit, t', _) = get_scrambled_bit get_bit t u in
        (bit < 2) × (t'.constellation_state ≡ t.constellation_state)
  unfolding get_scrambled_bit
  get_scrambled_bit_lt t u = (bit_lt _ _, quadrant_option _ t)

  get_dibit_lt :
      (t : Tx) (u : U)
      → let (bits, t', _) = get_dibit get_bit t u in
        (bits < 4) × (t'.constellation_state ≡ t.constellation_state)
  unfolding get_dibit
  get_dibit_lt t u =
      let (_, t₁, u₁) = get_scrambled_bit get_bit t u in
      let (l₁, e₁) = get_scrambled_bit_lt t u in
      let (l₂, e₂) = get_scrambled_bit_lt t₁ u₁ in (omega arith, e₂ ∙ e₁)

  data_symbol-Fits : (t : Tx) (u : U) → Fits (data_symbol get_bit t u).0 (data_symbol get_bit t u).1
  unfolding data_symbol
  data_symbol-Fits t u =
      let (bits, t₁, u₁) = get_dibit get_bit t u in
      let lt = advance-lt t₁.constellation_state bits in
      let t₂ = record t₁ { constellation_state = advance t₁.constellation_state bits } in
      let (l, e) = get_dibit_lt t₂ u₁ in
      Fits-if (t₂.negotiated_bit_rate == 1200) _ _
        (record { in_table = omega (arith, lt); quadrant = lt })
        (record { in_table = omega (arith, lt, l); quadrant = omega (arith, lt, e) })

  data_baud-Fits :
      (t : Tx) (u : U)
      → t.constellation_state < 4
      → Fits (data_baud get_bit t u).0 (data_baud get_bit t u).1
  unfolding data_baud
  data_baud-Fits t u h =
      let t' = record t { shutdown = t.shutdown + 1 } in
      Fits-if (t.shutdown == 0) _ _ (data_symbol-Fits t u) (
        Fits-if (ltb 10 (t.shutdown + 1)) (silence, t', u) _
          (record { in_table = tt; quadrant = h }) (data_symbol-Fits t' u))

  dispatch-Fits :
      (s : Training) (t : Tx) (u : U)
      → t.constellation_state < 4
      → s ≡ t.training
      → Fits (dispatch get_bit s t u).0 (dispatch get_bit s t u).1
  unfolding dispatch training_get
  dispatch-Fits normal_operation t u h e = data_baud-Fits t u h
  dispatch-Fits _ t u h e = training_symbol-Fits t.training t h

  -- In training and in data mode, whatever the source of bits, the next symbol has an index below
  -- 16 if it is not silence, and the quadrant stays below 4.
  pub getbaud-InTable :
      (t : Tx) (u : U)
      → t.constellation_state < 4
      → let (sym, t', _) = getbaud get_bit t u in InTable sym × (t'.constellation_state < 4)
  unfolding getbaud
  getbaud-InTable t u h = let f = dispatch-Fits t.training t u h refl in (f.in_table, f.quadrant)
