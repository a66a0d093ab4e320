-- ===== src/Base/Decimal.antt =====
-- Numbers that are printed by `%d`, as `atoi` reads them back.
use Prim.Native.Nat.{ℕ, zero, suc, ◌+◌, ◌-◌, ◌*◌, ◌/◌, ◌%◌, ◌^◌, ◌<◌}
use mathlib.Core.Path.{◌≡◌, refl, sym, ap, ◌∙◌}
use mathlib.Core.Logic.{inl, inr}
use mathlib.Core.Bool.{◌&&◌, false}
use mathlib.Core.List.{List, [], ◌∷◌, ◌++◌, append_assoc}
use native.Mathlib.Omega.{arith}
use v34_working.Base.Tests.{◌==◌, ltb, leb, if_true, if_false, Bool-cases}
use v34_working.Base.Strings.{skip_space, skip_plus, digits, atoi, dec, dec_from}

digits-digit :
    (k d : ℕ) (rest : List ℕ) → d < 10 → digits k ((48 + d) ∷ rest) ≡ digits (k * 10 + d) rest
unfolding digits
digits-digit k d rest h =
    let e : 48 + d - 48 ≡ d = omega arith in
    if_true (leb 48 (48 + d) && leb (48 + d) 57) _ _ (ground arith)
    ∙ ap (λ x. digits (k * 10 + x) rest) e

-- A number with one digit more than this.
abbrev pub HasDigits : ℕ → ℕ → Type 0
HasDigits zero n = n < 10
HasDigits (suc more) n = HasDigits more (n / 10)

-- A number that is printed is read back.
pub digits-dec_from :
    (more n : ℕ) (rest : List ℕ)
    → HasDigits more n
    → digits 0 (dec_from more n ++ rest) ≡ digits n rest
unfolding dec_from
digits-dec_from zero n rest h =
    let e : 0 * 10 + n % 10 ≡ n = omega arith in
    digits-digit 0 (n % 10) rest (omega arith) ∙ ap (λ x. digits x rest) e
digits-dec_from (suc more) n rest h = elim (Bool-cases (ltb n 10)) [
  | inl small ↦
      (let e : 0 * 10 + n ≡ n = omega arith in
        rw small (digits-digit 0 n rest (ground arith) ∙ ap (λ x. digits x rest) e))
  | inr large ↦
      (let front = dec_from more (n / 10) in
        let e : n / 10 * 10 + n % 10 ≡ n = omega arith in
        rw large (
          ap (digits 0) (append_assoc front ((48 + n % 10) ∷ []) rest)
          ∙ digits-dec_from more (n / 10) ((48 + n % 10) ∷ rest) h
          ∙ digits-digit (n / 10) (n % 10) rest (omega arith)
          ∙ ap (λ x. digits x rest) e))
]

skip_space-digit : (d : ℕ) (rest : List ℕ) → d < 10 → skip_space ((48 + d) ∷ rest) ≡ (48 + d) ∷ rest
unfolding skip_space
skip_space-digit d rest h = ground arith

-- A number begins with no space.
pub skip_space-dec_from :
    (more n : ℕ) (rest : List ℕ) → skip_space (dec_from more n ++ rest) ≡ dec_from more n ++ rest
unfolding dec_from
skip_space-dec_from zero n rest = skip_space-digit (n % 10) rest (omega arith)
skip_space-dec_from (suc more) n rest = elim (Bool-cases (ltb n 10)) [
  | inl small ↦ rw small (skip_space-digit n rest (ground arith))
  | inr large ↦
      (let front = dec_from more (n / 10) in
        let e = append_assoc front ((48 + n % 10) ∷ []) rest in
        rw large
          (ap skip_space e ∙ skip_space-dec_from more (n / 10) ((48 + n % 10) ∷ rest) ∙ sym e))
]

-- And with no sign.
skip_plus-dec_from :
    (more n : ℕ) (rest : List ℕ) → skip_plus (dec_from more n ++ rest) ≡ dec_from more n ++ rest
unfolding dec_from skip_plus
skip_plus-dec_from zero n rest = if_false (48 + n % 10 == 43) _ _ (ground arith)
skip_plus-dec_from (suc more) n rest = elim (Bool-cases (ltb n 10)) [
  | inl small ↦ rw small (if_false (48 + n == 43) _ _ (ground arith))
  | inr large ↦
      (let front = dec_from more (n / 10) in
        let e = append_assoc front ((48 + n % 10) ∷ []) rest in
        rw large (ap skip_plus e ∙ skip_plus-dec_from more (n / 10) ((48 + n % 10) ∷ rest) ∙ sym e))
]

digits-stop :
    (n c : ℕ) (rest : List ℕ) → leb 48 c && leb c 57 ≡ false → digits n (c ∷ rest) ≡ (n, c ∷ rest)
unfolding digits
digits-stop n c rest e = if_false (leb 48 c && leb c 57) _ _ e

atoi-dec_from :
    (more n c : ℕ) (rest : List ℕ)
    → HasDigits more n
    → leb 48 c && leb c 57 ≡ false
    → atoi (dec_from more n ++ c ∷ rest) ≡ n
unfolding atoi
atoi-dec_from more n c rest h e =
    ap (λ t. (digits 0 (skip_plus t)).0) (skip_space-dec_from more n (c ∷ rest))
    ∙ ap (λ t. (digits 0 t).0) (skip_plus-dec_from more n (c ∷ rest))
    ∙ ap (λ p. p.0) (digits-dec_from more n (c ∷ rest) h ∙ digits-stop n c rest e)

-- `atoi` of what `%d` prints, before something that is no digit.
pub atoi-dec :
    (n c : ℕ) (rest : List ℕ)
    → n < 10 ^ 9
    → leb 48 c && leb c 57 ≡ false
    → atoi (dec n ++ c ∷ rest) ≡ n
unfolding dec
atoi-dec n c rest h e = atoi-dec_from 9 n c rest (omega arith) e

-- A space before the number is skipped.
pub atoi_space : (cs : List ℕ) → atoi (32 ∷ cs) ≡ atoi cs
unfolding atoi
atoi_space cs = refl
