-- ===== src/Bbs/Text.antt =====
-- Text as the session reads it: C strings as lists of characters, and the password hash.
pub mod CaseFree
use v34_working.Base.{
  is_space, lower, skip_space, ℕ, zero, suc, ◌+◌, ◌*◌, ◌%◌, ◌^◌, List, [], ◌∷◌, Bool, true, false,
  ◌&&◌, ◌||◌, ltb, leb, ◌==◌, u64, bit_xor, if◌then◌else◌,
}

-- `strcasecmp` against zero
unfoldable pub same_word : List ℕ → List ℕ → Bool
same_word [] [] = true
same_word [] (c ∷ cs) = false
same_word (b ∷ bs) [] = false
same_word (b ∷ bs) (c ∷ cs) = (lower b == lower c) && same_word bs cs

-- `*line`, with the 0 that ends it.
abbrev pub first_char : List ℕ → ℕ
first_char [] = 0
first_char (c ∷ cs) = c

-- The first character is a letter, in lower or upper case.
abbrev pub begins : ℕ → ℕ → List ℕ → Bool
begins small capital line = (first_char line == small) || (first_char line == capital)

-- One round of the FNV hash.
abbrev mix : ℕ → ℕ → ℕ
mix h c = u64 (bit_xor h c * 1099511628211)

-- The two loops of `password_hash`.
unfoldable pub mix_name : ℕ → List ℕ → ℕ
mix_name h [] = h
mix_name h (c ∷ cs) = mix_name (mix h (lower c)) cs

unfoldable pub mix_password : ℕ → List ℕ → ℕ
mix_password h [] = h
mix_password h (c ∷ cs) = mix_password (mix h c) cs

-- `password_hash`
unfoldable pub password_hash : List ℕ → List ℕ → ℕ
unfolding mix_name mix_password
password_hash user pass = mix_password (mix (mix_name 1469598103934665603 user) 0x5a) pass
