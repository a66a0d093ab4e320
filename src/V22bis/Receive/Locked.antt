-- ===== src/V22bis/Receive/Locked.antt =====
-- The way from the wait for scrambled ones at 2400 into data mode.
use v34_working.Base.{
  ℕ, ◌+◌, ◌<◌, ◌≡◌, ap, ◌∙◌, List, [], ◌∷◌, leb, ◌==◌, ==_iff, le→leb, lt→leb_false, length, arith,
  if◌then◌else◌, if_true, if_false,
}
use v34_working.V22bis.Symbols.{Decoder, decode_baudx}
use v34_working.V22bis.Receive.{
  Modem, RxTraining, normal_operation, wait_for_scrambled_ones_at_2400, decode, wait_2400, keep,
  dispatch, baud, receive,
}

-- Every symbol decodes to four ones.
abbrev pub AllOnes : Decoder → List ℕ → Type 0
AllOnes d [] = Unit
AllOnes d (x ∷ xs) = ((decode_baudx d x).0 ≡ 15) × AllOnes (decode_baudx d x).1 xs

-- The receiver after one more symbol of four ones.
abbrev counted : ℕ → Modem → RxTraining → Modem
counted x m stage = record m {
  decoder = (decode_baudx m.decoder x).1;
  pattern_repeats = m.pattern_repeats + 1;
  training = stage;
  last_raw_bits = 0;
}

baud-ones :
    (x : ℕ) (m : Modem)
    → m.training ≡ wait_for_scrambled_ones_at_2400
    → (decode_baudx m.decoder x).0 ≡ 15
    → baud x m
      ≡ counted x m (if leb 9 (m.pattern_repeats + 1) then normal_operation else m.training)
unfolding baud dispatch wait_2400 decode
baud-ones x m t e =
    ap (λ stage. dispatch stage x m) t
    ∙ ap (keep 0) (
        if_true ((decode_baudx m.decoder x).0 == 15) _ _
          ((==_iff (decode_baudx m.decoder x).0 15).1 e))

-- Up to the eighth symbol the receiver waits and counts; with the ninth it is in data mode.
receive_ones :
    (xs : List ℕ) (m : Modem)
    → m.training ≡ wait_for_scrambled_ones_at_2400
    → AllOnes m.decoder xs
    → 0 < length xs
    → m.pattern_repeats + length xs ≡ 9
    → (receive xs m).training ≡ normal_operation
unfolding receive
receive_ones [] m t h pos sum = absurd (omega arith)
receive_ones (x ∷ []) m t h pos sum =
    ap (λ (m' : Modem). m'.training) (baud-ones x m t h.0)
    ∙ if_true (leb 9 (m.pattern_repeats + 1)) _ _ (le→leb 9 (m.pattern_repeats + 1) (omega arith))
receive_ones (x ∷ y ∷ ys) m t h pos sum =
    let still : baud x m ≡ counted x m m.training =
      baud-ones x m t h.0
      ∙ ap (counted x m) (
          if_false (leb 9 (m.pattern_repeats + 1)) _ _
            (lt→leb_false 9 (m.pattern_repeats + 1) (omega (arith, sum)))) in
    ap (λ m'. (receive (y ∷ ys) m').training) still
    ∙ receive_ones (y ∷ ys) (counted x m m.training) t h.1 (omega arith) (omega (arith, sum))

-- A receiver that begins to wait for scrambled ones at 2400 is in data mode after nine symbols that
-- decode to four ones each.
pub receive-AllOnes :
    (xs : List ℕ) (m : Modem)
    → m.training ≡ wait_for_scrambled_ones_at_2400
    → m.pattern_repeats ≡ 0
    → length xs ≡ 9
    → AllOnes m.decoder xs
    → (receive xs m).training ≡ normal_operation
receive-AllOnes xs m t z len h = receive_ones xs m t h (omega arith) (omega arith)
