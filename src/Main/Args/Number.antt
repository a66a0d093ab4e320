-- ===== src/Main/Args/Number.antt =====
-- `atoi` of a number on the command line, as `%d` prints it.
use v34_working.Base.{
  ℕ, zero, suc, ◌+◌, ◌-◌, ◌/◌, ◌%◌, ◌^◌, ◌<◌, ◌≡◌, refl, sym, ap, ◌∙◌, List, [], ◌∷◌, ◌++◌, false,
  ltb, min, ◌==◌, pos, All, Bool-cases, inl, inr, append-nil, arith, if_true, if_false, digits, dec,
  dec_from, skip_space, digits-dec_from, skip_space-dec_from,
}
use v34_working.Main.Args.{positive, atoi_sign, atoi_int}

-- A printed number is made of digits.
abbrev AreDigits : List ℕ → Type 0
AreDigits cs = All (λ c. (d : ℕ) × (c ≡ 48 + d) × (d < 10)) cs

AreDigits-append : (cs : List ℕ) (d : ℕ) → AreDigits cs → d < 10 → AreDigits (cs ++ (48 + d) ∷ [])
AreDigits-append [] d all h = ((d, refl, h), tt)
AreDigits-append (c ∷ cs) d (one, all) h = (one, AreDigits-append cs d all h)

dec_from-AreDigits : (more n : ℕ) → AreDigits (dec_from more n)
unfolding dec_from
dec_from-AreDigits zero n = ((n % 10, refl, omega arith), tt)
dec_from-AreDigits (suc more) n = elim (Bool-cases (ltb n 10)) [
  | inl small ↦ rw small ((n, refl, ground arith), tt)
  | inr large ↦ rw large (
      AreDigits-append (dec_from more (n / 10)) (n % 10) (dec_from-AreDigits more (n / 10))
        (omega arith))
]

-- No digit is a colon.
AreDigits-colon : (cs : List ℕ) → AreDigits cs → All (λ c. (c == 58) ≡ false) cs
AreDigits-colon [] all = tt
AreDigits-colon (c ∷ cs) ((d, e, h), all) = (ground arith, AreDigits-colon cs all)

pub dec-colon : (n : ℕ) → All (λ c. (c == 58) ≡ false) (dec n)
unfolding dec
dec-colon n = AreDigits-colon (dec_from 9 n) (dec_from-AreDigits 9 n)

-- A number without a sign.
atoi_sign_lem : (cs : List ℕ) → AreDigits cs → atoi_sign cs ≡ positive (digits 0 cs).0
unfolding atoi_sign digits
atoi_sign_lem [] all = refl
atoi_sign_lem (c ∷ cs) ((d, e, h), all) =
    if_false (c == 45) _ _ (ground arith) ∙ if_false (c == 43) _ _ (ground arith)

positive_lem : (n : ℕ) → n < 10 ^ 9 → positive n ≡ pos n
positive_lem n h =
    let same : min n (2 ^ 63 - 1) % 2 ^ 32 ≡ n = omega arith in
    rw same (if_true (ltb n (2 ^ 31)) _ _ (ground arith))

skip_space-dec : (n : ℕ) → skip_space (dec n) ≡ dec n
unfolding dec
skip_space-dec n =
    ap skip_space (sym (append-nil (dec_from 9 n)))
    ∙ skip_space-dec_from 9 n []
    ∙ append-nil (dec_from 9 n)

digits-dec : (n : ℕ) → n < 10 ^ 9 → (digits 0 (dec n)).0 ≡ n
unfolding dec digits
digits-dec n h =
    ap (λ cs. (digits 0 cs).0) (sym (append-nil (dec_from 9 n)))
    ∙ ap (λ r. r.0) (digits-dec_from 9 n [] (omega arith))

-- Fewer than ten digits fit an `int`, and are read as the number that they print.
pub atoi_int-dec : (n : ℕ) → n < 10 ^ 9 → atoi_int (dec n) ≡ pos n
unfolding atoi_int dec
atoi_int-dec n h =
    ap atoi_sign (skip_space-dec n)
    ∙ atoi_sign_lem (dec n) (dec_from-AreDigits 9 n)
    ∙ ap positive (digits-dec n h)
    ∙ positive_lem n h
