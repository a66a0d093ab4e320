-- ===== src/Bbs/Text/CaseFree.antt =====
-- The case of a name in `password_hash`.
use v34_working.Base.{
  lower, ℕ, ◌*◌, u64, bit_xor, ◌≡◌, refl, ap, ◌∙◌, List, [], ◌∷◌, Bool, true, false, ◌&&◌, ◌==◌,
  ==_iff, arith,
}
use v34_working.Bbs.Text.{same_word, mix_name, password_hash}

both : (a b : Bool) → (a && b) ≡ true → (a ≡ true) × (b ≡ true)
both true b h = (refl, h)
both false b h = absurd (ground arith)

mix_name-same_word :
    (bs cs : List ℕ) (h : ℕ) → same_word bs cs ≡ true → mix_name h bs ≡ mix_name h cs
unfolding mix_name same_word
mix_name-same_word [] [] h e = refl
mix_name-same_word [] (c ∷ cs) h e = absurd (ground arith)
mix_name-same_word (b ∷ bs) [] h e = absurd (ground arith)
mix_name-same_word (b ∷ bs) (c ∷ cs) h e =
    let (here, later) = both (lower b == lower c) (same_word bs cs) e in
    let same : lower b ≡ lower c = (==_iff (lower b) (lower c)).0 here in
    ap (λ (x : ℕ). mix_name (u64 (bit_xor h x * 1099511628211)) bs) same
    ∙ mix_name-same_word bs cs _ later

-- Names that differ in case only give the same hash with the same password.
pub password_hash-same_word :
    (name name' pass : List ℕ)
    → same_word name name' ≡ true
    → password_hash name pass ≡ password_hash name' pass
unfolding password_hash
password_hash-same_word name name' pass e =
    rw (mix_name-same_word name name' 1469598103934665603 e) refl
