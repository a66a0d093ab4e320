-- ===== src/V22bis/Scrambler/Acquire.antt =====
-- A descrambler that starts anywhere.
use native.Mathlib.Nat.{pow-suc, div-add-mod}
use v34_working.Base.{
  ℕ, zero, suc, ◌+◌, ◌-◌, ◌*◌, ◌%◌, ◌^◌, ◌≤◌, ◌≡◌, refl, ap, ◌∙◌, sym, List, [], ◌∷◌, All, length,
  u32, arith,
}
use v34_working.V22bis.Scrambler.{
  Scrambler, run_length, scramble, descramble, scramble_all, descramble_all,
}
use v34_working.V22bis.Scrambler.Sync.{IsBit, InSync, taps-IsBit}

-- The register after line bits.
abbrev shifted : ℕ → List ℕ → ℕ
shifted reg [] = reg
shifted reg (l ∷ ls) = shifted (u32 (reg * 2 + l)) ls

-- Line bits as a number, the first one highest.
abbrev value : List ℕ → ℕ
value [] = 0
value (l ∷ ls) = l * 2 ^ length ls + value ls

shifted-value :
    (ls : List ℕ) (reg : ℕ) → shifted reg ls % 2 ^ 17 ≡ (reg * 2 ^ length ls + value ls) % 2 ^ 17
shifted-value [] reg = omega arith
shifted-value (l ∷ ls) reg = omega (
  arith,
  shifted-value ls (u32 (reg * 2 + l)),
  pow-suc 2 (length ls),
  ap (λ (t : ℕ). reg * t) (pow-suc 2 (length ls)),
  ap (λ (t : ℕ). t * 2 ^ length ls) (div-add-mod (reg * 2 + l) (2 ^ 32)),
)

pow_split : (k m n : ℕ) → n ≡ m + k → 2 ^ n ≡ 2 ^ m * 2 ^ k
pow_split zero m n e = let e' : n ≡ m = omega arith in rw e' (omega arith)
pow_split (suc k) m zero e = absurd (omega arith)
pow_split (suc k) m (suc n) e = omega (
  arith,
  pow-suc 2 n,
  pow-suc 2 k,
  pow_split k m n (omega arith),
  ap (λ (t : ℕ). 2 ^ m * t) (pow-suc 2 k),
)

-- Seventeen line bits push out whatever the register held.
shifted_agree :
    (ls : List ℕ) (r r' : ℕ) → 17 ≤ length ls → shifted r ls % 2 ^ 17 ≡ shifted r' ls % 2 ^ 17
shifted_agree ls r r' long =
    let m = length ls - 17 in
    let split = pow_split 17 m (length ls) (omega arith) in
    omega (
      arith,
      shifted-value ls r,
      shifted-value ls r',
      ap (λ (t : ℕ). r * t) split,
      ap (λ (t : ℕ). r' * t) split,
    )

reg-scramble_all :
    (bs : List ℕ) (s : Scrambler)
    → let (line, s') = scramble_all s bs in
      (s'.reg ≡ shifted s.reg line) × All IsBit line × (length line ≡ length bs)
unfolding scramble_all scramble
reg-scramble_all [] s = (refl, tt, refl)
reg-scramble_all (b ∷ bs) s =
    let (r, a, n) = reg-scramble_all bs (scramble s b).1 in (r, (taps-IsBit _ s.reg, a), ap suc n)

reg-descramble_all :
    (ls : List ℕ) (s : Scrambler) → All IsBit ls → (descramble_all s ls).1.reg ≡ shifted s.reg ls
unfolding descramble_all descramble
reg-descramble_all [] s h = refl
reg-descramble_all (l ∷ ls) s h =
    let same : l % 2 ≡ l = omega (arith, h.0) in
    reg-descramble_all ls (descramble s l).1 h.1 ∙ ap (λ x. shifted (u32 (s.reg * 2 + x)) ls) same

-- A zero on the line ends a run of ones at both ends.
scramble_zero :
    (s : Scrambler) (b : ℕ)
    → (scramble s b).0 ≡ 0
    → ((scramble s b).1.count ≡ 0) × ((scramble s b).1.reg ≡ u32 (s.reg * 2))
unfolding scramble run_length
scramble_zero s b e = ground arith

descramble_zero :
    (s : Scrambler) → ((descramble s 0).1.count ≡ 0) × ((descramble s 0).1.reg ≡ u32 (s.reg * 2))
unfolding descramble run_length
descramble_zero s = ground arith

-- A descrambler in any state whatever is in step with the scrambler once seventeen line bits have
-- passed and a zero follows them.
pub InSync-acquired :
    (bs : List ℕ) (b : ℕ) (tx rx : Scrambler)
    → 17 ≤ length bs
    → (scramble (scramble_all tx bs).1 b).0 ≡ 0
    → let (line, tx') = scramble_all tx bs in
      let (l, tx'') = scramble tx' b in InSync tx'' (descramble (descramble_all rx line).1 l).1
InSync-acquired bs b tx rx long e =
    let (line, tx') = scramble_all tx bs in
    let (r, bits, n) = reg-scramble_all bs tx in
    let (c, g) = scramble_zero tx' b e in
    let (c', g') = descramble_zero (descramble_all rx line).1 in
    rw e (record {
      same_reg = omega (
        arith,
        r,
        n,
        reg-descramble_all line rx bits,
        shifted_agree line tx.reg rx.reg (omega arith),
        g,
        g',
      );
      same_count = c ∙ sym c';
    })
