-- ===== src/Ppp/Relay/Window.antt =====
-- Cutting and filling a stretch of the shim's buffer.
use v34_working.Base.{
  ℕ, zero, suc, ◌+◌, ◌-◌, ◌≤◌, ◌<◌, ◌≡◌, refl, ap, ap₂, ◌∙◌, List, [], ◌∷◌, ◌++◌, length, update,
  arith,
}
use v34_working.Ppp.Relay.{copy, window}

copy_below : (bytes : ℕ → ℕ) (at j : ℕ) (xs : List ℕ) → j < at → copy bytes at xs j ≡ bytes j
unfolding copy
copy_below bytes at j [] h = refl
copy_below bytes at j (x ∷ xs) h =
    copy_below (update bytes at x) (at + 1) j xs (omega arith) ∙ ground arith

pub window-copy :
    (bytes : ℕ → ℕ) (at : ℕ) (xs : List ℕ) → window (copy bytes at xs) at (length xs) ≡ xs
unfolding copy
window-copy bytes at [] = refl
window-copy bytes at (x ∷ xs) =
    ap₂ ◌∷◌ (copy_below (update bytes at x) (at + 1) at xs (omega arith) ∙ ground arith)
      (window-copy (update bytes at x) (at + 1) xs)

pub window_split :
    (bytes : ℕ → ℕ) (r at n : ℕ)
    → r ≤ n
    → window bytes at n ≡ window bytes at r ++ window bytes (at + r) (n - r)
window_split bytes zero at n h =
    let e : at + 0 ≡ at = omega arith in let e' : n - 0 ≡ n = omega arith in rw (e, e') refl
window_split bytes (suc r) at zero h = absurd (omega arith)
window_split bytes (suc r) at (suc n) h =
    let e : at + suc r ≡ at + 1 + r = omega arith in
    let e' : suc n - suc r ≡ n - r = omega arith in
    rw (e, e') (ap (λ l. bytes at ∷ l) (window_split bytes r (at + 1) n (omega arith)))
