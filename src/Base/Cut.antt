-- ===== src/Base/Cut.antt =====
-- Prefixes and suffixes of lists.
use Prim.Native.Nat.{ℕ, zero, suc, ◌+◌, ◌-◌, ◌≤◌, min}
use mathlib.Core.Path.{◌≡◌, refl, ap, ◌∙◌}
use mathlib.Core.List.{List, [], ◌∷◌, ◌++◌}
use native.Mathlib.Omega.{arith}
use v34_working.Base.Lists.{length, take, drop}

module _ {ℓ} {A : Type ℓ} where
  pub take-append_le : (k : ℕ) (xs ys : List A) → k ≤ length xs → take k (xs ++ ys) ≡ take k xs
  take-append_le zero xs ys h = refl
  take-append_le (suc k) [] ys h = absurd (omega arith)
  take-append_le (suc k) (x ∷ xs) ys h = ap (λ l. x ∷ l) (take-append_le k xs ys (omega arith))

  pub drop-append_le :
      (k : ℕ) (xs ys : List A) → k ≤ length xs → drop k (xs ++ ys) ≡ drop k xs ++ ys
  drop-append_le zero xs ys h = refl
  drop-append_le (suc k) [] ys h = absurd (omega arith)
  drop-append_le (suc k) (x ∷ xs) ys h = drop-append_le k xs ys (omega arith)

  pub drop-drop : (n k m : ℕ) (xs : List A) → m ≡ n + k → drop k (drop n xs) ≡ drop m xs
  drop-drop zero k m xs e = let e' : k ≡ m = omega arith in ap (λ j. drop j xs) e'
  drop-drop (suc n) k zero xs e = absurd (omega arith)
  drop-drop (suc n) zero (suc m) [] e = refl
  drop-drop (suc n) (suc k) (suc m) [] e = refl
  drop-drop (suc n) k (suc m) (x ∷ xs) e = drop-drop n k m xs (omega arith)

  pub take-append-take :
      (n k m : ℕ) (xs : List A) → m ≡ n + k → take n xs ++ take k (drop n xs) ≡ take m xs
  take-append-take zero k m xs e = let e' : k ≡ m = omega arith in ap (λ j. take j xs) e'
  take-append-take (suc n) k zero xs e = absurd (omega arith)
  take-append-take (suc n) zero (suc m) [] e = refl
  take-append-take (suc n) (suc k) (suc m) [] e = refl
  take-append-take (suc n) k (suc m) (x ∷ xs) e =
      ap (λ l. x ∷ l) (take-append-take n k m xs (omega arith))

  pub take-all : (n : ℕ) (xs : List A) → length xs ≤ n → take n xs ≡ xs
  take-all zero [] h = refl
  take-all zero (x ∷ xs) h = absurd (omega arith)
  take-all (suc n) [] h = refl
  take-all (suc n) (x ∷ xs) h = ap (λ l. x ∷ l) (take-all n xs (omega arith))

  pub drop-all : (n : ℕ) (xs : List A) → length xs ≤ n → drop n xs ≡ []
  drop-all zero [] h = refl
  drop-all zero (x ∷ xs) h = absurd (omega arith)
  drop-all (suc n) [] h = refl
  drop-all (suc n) (x ∷ xs) h = drop-all n xs (omega arith)

  pub take-take : (n m : ℕ) (xs : List A) → n ≤ m → take n (take m xs) ≡ take n xs
  take-take zero m xs h = refl
  take-take (suc n) zero xs h = absurd (omega arith)
  take-take (suc n) (suc m) [] h = refl
  take-take (suc n) (suc m) (x ∷ xs) h = ap (λ l. x ∷ l) (take-take n m xs (omega arith))

  pub take-min : (n : ℕ) (xs : List A) → take (min (length xs) n) xs ≡ take n xs
  take-min zero xs = let e : min (length xs) 0 ≡ 0 = omega arith in ap (λ k. take k xs) e
  take-min (suc n) [] = let e : min 0 (suc n) ≡ 0 = omega arith in ap (λ k. take {A = A} k []) e
  take-min (suc n) (x ∷ xs) =
      let e : min (suc (length xs)) (suc n) ≡ suc (min (length xs) n) = omega arith in
      ap (λ k. take k (x ∷ xs)) e ∙ ap (λ l. x ∷ l) (take-min n xs)

  pub drop_of_take_nil : (k : ℕ) (xs : List A) → take k xs ≡ [] → drop k xs ≡ xs
  drop_of_take_nil zero xs e = refl
  drop_of_take_nil (suc k) [] e = refl
  drop_of_take_nil (suc k) (x ∷ xs) e = cc

  -- Two ways to cut a list at the same place are the same.
  pub append_split :
      (xs xs' ys ys' : List A)
      → length xs ≡ length xs'
      → xs ++ ys ≡ xs' ++ ys'
      → (xs ≡ xs') × (ys ≡ ys')
  append_split [] [] ys ys' e h = (refl, h)
  append_split [] (x' ∷ xs') ys ys' e h = absurd (omega arith)
  append_split (x ∷ xs) [] ys ys' e h = absurd (omega arith)
  append_split (x ∷ xs) (x' ∷ xs') ys ys' e h =
      let heads : x ≡ x' = cc in
      let tails : xs ++ ys ≡ xs' ++ ys' = cc in
      let (p, q) = append_split xs xs' ys ys' (omega arith) tails in (cc, q)

  pub drop-append_ge :
      (n : ℕ) (xs ys : List A) → length xs ≤ n → drop n (xs ++ ys) ≡ drop (n - length xs) ys
  drop-append_ge n [] ys h = let e : n ≡ n - 0 = omega arith in ap (λ k. drop k ys) e
  drop-append_ge zero (x ∷ xs) ys h = absurd (omega arith)
  drop-append_ge (suc n) (x ∷ xs) ys h =
      let e : n - length xs ≡ suc n - suc (length xs) = omega arith in
      drop-append_ge n xs ys (omega arith) ∙ ap (λ k. drop k ys) e
