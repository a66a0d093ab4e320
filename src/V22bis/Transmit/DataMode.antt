-- ===== src/V22bis/Transmit/DataMode.antt =====
-- Data mode from the source of the transmitter to the bits of the receiver.
use v34_working.Base.{
  ℕ, zero, suc, ◌+◌, ◌*◌, ◌/◌, ◌%◌, ◌<◌, ◌≡◌, refl, ap, ap₂, ◌∙◌, sym, subst, List, [], ◌∷◌, ◌++◌,
  true, false, Option, none, some, All, length, arith,
}
use v34_working.V22bis.Scrambler.{Scrambler, scramble, descramble, scramble_all, descramble_all}
use v34_working.V22bis.Scrambler.Sync.{IsBit, InSync, taps-IsBit, descramble_all-scramble_all}
use v34_working.V22bis.Symbols.{Decoder, advance, decode_baud}
use v34_working.V22bis.Symbols.RoundTrip.{raw_bits_of-advance, advance-lt}
use v34_working.V22bis.Transmit.{
  Tx, Symbol, silence, point, normal_operation, data_symbol, data_baud, dispatch, getbaud,
}

-- A source that runs through a list of bits.
abbrev pub from_list : List ℕ → Option ℕ × List ℕ
from_list [] = (none, [])
from_list (b ∷ bs) = (some b, bs)

-- The transmitter is in data mode at 2400 bit/s, and has data.
pub record IsSending (t : Tx) : Type 0 where
  pub trained : t.training ≡ normal_operation
  pub full_rate : t.negotiated_bit_rate ≡ 2400
  pub running : t.shutdown ≡ 0
  pub has_source : t.fake ≡ false

-- The receiver follows the transmitter: same scrambler state, same quadrant, four bits a symbol.
pub record Follows (t : Tx) (d : Decoder) : Type 0 where
  pub in_sync : InSync t.scrambler d.scrambler
  pub same_quadrant : d.constellation_state / 4 ≡ t.constellation_state
  pub quadrant : t.constellation_state < 4
  pub sixteen : d.sixteen_way ≡ true

-- A transmitter that sends, with its constant fields written out.
abbrev sending : Tx → Tx
sending t = record t {
  training = normal_operation;
  negotiated_bit_rate = 2400;
  shutdown = 0;
  fake = false;
}

sending_lem : (t : Tx) → IsSending t → sending t ≡ t
sending_lem t h = λ i. record t {
  training = sym h.trained i;
  negotiated_bit_rate = sym h.full_rate i;
  shutdown = sym h.running i;
  fake = sym h.has_source i;
}

-- The symbol for four bits.
abbrev next_symbol : Tx → ℕ → ℕ → ℕ → ℕ → List ℕ → Symbol × Tx × List ℕ
next_symbol t b₁ b₂ b₃ b₄ bs =
    let (l₁, s₁) = scramble t.scrambler b₁ in
    let (l₂, s₂) = scramble s₁ b₂ in
    let (l₃, s₃) = scramble s₂ b₃ in
    let (l₄, s₄) = scramble s₃ b₄ in
    let q = advance t.constellation_state (l₁ * 2 + l₂) in
    (point (q * 4 + (l₃ * 2 + l₄)), record t { scrambler = s₄; constellation_state = q }, bs)

getbaud_lem :
    (t : Tx) (b₁ b₂ b₃ b₄ : ℕ) (bs : List ℕ)
    → IsSending t
    → getbaud from_list t (b₁ ∷ b₂ ∷ b₃ ∷ b₄ ∷ bs) ≡ next_symbol t b₁ b₂ b₃ b₄ bs
unfolding getbaud dispatch data_baud data_symbol
getbaud_lem t b₁ b₂ b₃ b₄ bs h =
    subst (λ t'. getbaud from_list t' (b₁ ∷ b₂ ∷ b₃ ∷ b₄ ∷ bs) ≡ next_symbol t' b₁ b₂ b₃ b₄ bs)
      (sending_lem t h) refl

descramble_mod : (s : Scrambler) (l l' : ℕ) → l % 2 ≡ l' % 2 → descramble s l ≡ descramble s l'
unfolding descramble
descramble_mod s l l' e = rw e refl

-- Four bits through the descrambler, which reads their low bits.
descramble_four :
    (s : Scrambler) (a b c d a' b' c' d' : ℕ)
    → a % 2 ≡ a' % 2
    → b % 2 ≡ b' % 2
    → c % 2 ≡ c' % 2
    → d % 2 ≡ d' % 2
    → descramble_all s (a ∷ b ∷ c ∷ d ∷ []) ≡ descramble_all s (a' ∷ b' ∷ c' ∷ d' ∷ [])
unfolding descramble_all descramble
descramble_four s a b c d a' b' c' d' e₁ e₂ e₃ e₄ = rw (e₁, e₂, e₃, e₄) refl

-- The receiver takes the four line bits out of the symbol again.
decode_baud_lem :
    (d : Decoder) (q l₁ l₂ l₃ l₄ : ℕ)
    → All IsBit (l₁ ∷ l₂ ∷ l₃ ∷ l₄ ∷ [])
    → q < 4
    → d.constellation_state / 4 ≡ q
    → d.sixteen_way ≡ true
    → let nearest = advance q (l₁ * 2 + l₂) * 4 + (l₃ * 2 + l₄) in
      let (bs, s) = descramble_all d.scrambler (l₁ ∷ l₂ ∷ l₃ ∷ l₄ ∷ []) in
      decode_baud d nearest ≡ (bs, record d { scrambler = s; constellation_state = nearest })
unfolding decode_baud descramble_all
decode_baud_lem d q l₁ l₂ l₃ l₄ (h₁, (h₂, (h₃, (h₄, _)))) hq e six =
    let nearest = advance q (l₁ * 2 + l₂) * 4 + (l₃ * 2 + l₄) in
    let raw =
      raw_bits_of-advance q (l₁ * 2 + l₂) (l₃ * 2 + l₄) d.constellation_state hq (omega arith)
        (omega arith) e in
    let here : (nearest / 2 % 2 ≡ l₃ % 2) × (nearest % 2 % 2 ≡ l₄ % 2) =
      (omega arith, omega arith) in
    rw six (
      ap
        (λ (r : List ℕ × Scrambler).
          (r.0, record d { scrambler = r.1; constellation_state = nearest; sixteen_way = true }))
        (descramble_four d.scrambler _ _ _ _ l₁ l₂ l₃ l₄ (omega (arith, raw)) (omega (arith, raw))
          here.0 here.1))

scramble-IsBit : (s : Scrambler) (b : ℕ) → IsBit (scramble s b).0
unfolding scramble
scramble-IsBit s b = taps-IsBit _ s.reg

-- What the receiver hands on for a symbol that its slicer has read right.
abbrev pub receive : Decoder → Symbol → List ℕ × Decoder
receive d silence = ([], d)
receive d (point nearest) = decode_baud d nearest

-- One symbol: the bits sent are the bits received, and both ends go on in data mode and in step.
pub receive-getbaud :
    (t : Tx) (d : Decoder) (b₁ b₂ b₃ b₄ : ℕ) (rest : List ℕ)
    → All IsBit (b₁ ∷ b₂ ∷ b₃ ∷ b₄ ∷ [])
    → IsSending t
    → Follows t d
    → let (sym, t', left) = getbaud from_list t (b₁ ∷ b₂ ∷ b₃ ∷ b₄ ∷ rest) in
      let (bits, d') = receive d sym in
      (bits ≡ b₁ ∷ b₂ ∷ b₃ ∷ b₄ ∷ []) × (left ≡ rest) × IsSending t' × Follows t' d'
unfolding scramble_all
receive-getbaud t d b₁ b₂ b₃ b₄ rest bits h f =
    let (l₁, s₁) = scramble t.scrambler b₁ in
    let (l₂, s₂) = scramble s₁ b₂ in
    let (l₃, s₃) = scramble s₂ b₃ in
    let (l₄, s₄) = scramble s₃ b₄ in
    let i₁ = scramble-IsBit t.scrambler b₁ in
    let i₂ = scramble-IsBit s₁ b₂ in
    let i₃ = scramble-IsBit s₂ b₃ in
    let i₄ = scramble-IsBit s₃ b₄ in
    let q = t.constellation_state in
    let (same, sync) =
      descramble_all-scramble_all (b₁ ∷ b₂ ∷ b₃ ∷ b₄ ∷ []) t.scrambler d.scrambler bits f.in_sync in
    let decoded =
      decode_baud_lem d q l₁ l₂ l₃ l₄ (i₁, (i₂, (i₃, (i₄, tt)))) f.quadrant f.same_quadrant
        f.sixteen in
    let lt = advance-lt q (l₁ * 2 + l₂) in
    let after : Follows (next_symbol t b₁ b₂ b₃ b₄ rest).1
        (decode_baud d (advance q (l₁ * 2 + l₂) * 4 + (l₃ * 2 + l₄))).1 =
      rw decoded (record {
        in_sync = sync;
        same_quadrant = omega arith;
        quadrant = lt;
        sixteen = f.sixteen;
      }) in
    let sends : IsSending (next_symbol t b₁ b₂ b₃ b₄ rest).1 = record {
      trained = h.trained;
      full_rate = h.full_rate;
      running = h.running;
      has_source = h.has_source;
    } in
    rw (getbaud_lem t b₁ b₂ b₃ b₄ rest h) (ap (λ r. r.0) decoded ∙ same, refl, sends, after)

-- As many symbols as asked for, over a channel that loses none.
abbrev pub exchange : ℕ → Tx → Decoder → List ℕ → List ℕ × Tx × Decoder
exchange zero t d bits = ([], t, d)
exchange (suc n) t d bits =
    let (sym, t', left) = getbaud from_list t bits in
    let (got, d') = receive d sym in
    let (more, t'', d'') = exchange n t' d' left in (got ++ more, t'', d'')

-- At 2400 bit/s, with the receiver in step with the transmitter, n symbols carry the next 4 n bits
-- of the source to the receiver unchanged, and leave both in data mode and in step.
pub exchange_delivers :
    (n : ℕ) (t : Tx) (d : Decoder) (bits : List ℕ)
    → length bits ≡ 4 * n
    → All IsBit bits
    → IsSending t
    → Follows t d
    → let (got, t', d') = exchange n t d bits in (got ≡ bits) × IsSending t' × Follows t' d'
exchange_delivers zero t d [] len all h f = (refl, h, f)
exchange_delivers zero t d (b ∷ bs) len all h f = absurd (omega (arith, len))
exchange_delivers (suc n) t d (b₁ ∷ b₂ ∷ b₃ ∷ b₄ ∷ rest) len (i₁, (i₂, (i₃, (i₄, all)))) h f =
    let (now, left, sends, follows) =
      receive-getbaud t d b₁ b₂ b₃ b₄ rest (i₁, (i₂, (i₃, (i₄, tt)))) h f in
    let (sym', t', _) = getbaud from_list t (b₁ ∷ b₂ ∷ b₃ ∷ b₄ ∷ rest) in
    let d' = (receive d sym').1 in
    let (same, sends', follows') =
      subst
        (λ l.
          let (got, t'', d'') = exchange n t' d' l in
          (got ≡ rest) × IsSending t'' × Follows t'' d'')
        (sym left) (exchange_delivers n t' d' rest (omega (arith, len)) all sends follows) in
    (ap₂ ◌++◌ now same, sends', follows')
exchange_delivers (suc n) t d _ len all h f = absurd (omega (arith, len))
