-- ===== src/Ppp/Spawn/Fits.antt =====
-- The command line of pppd stays inside its arrays.
use v34_working.Base.{
  ℕ, ◌+◌, ◌-◌, ◌≤◌, ◌<◌, List, [], ◌∷◌, ◌++◌, Bool, true, false, Option, none, some, length,
  length-append, length-take, codes, dec, arith,
}
use v34_working.Ppp.Spawn.{
  Config, shim_fd, argv_size, shim_cmd_size, ip_spec_size, shim_cmd, ip_spec, option_words,
  auth_words, argv,
}

length-option_words : (name : List ℕ) (o : Option (List ℕ)) → length (option_words name o) ≤ 2
unfolding option_words
length-option_words name none = omega arith
length-option_words name (some []) = omega arith
length-option_words name (some (c ∷ cs)) = omega arith

length-auth_words : (auth : Bool) → length (auth_words auth) ≤ 3
unfolding auth_words
length-auth_words true = omega arith
length-auth_words false = omega arith

-- An optional part in front of the rest.
append-length_le :
    {A : Type 0} (xs ys : List A) (n k : ℕ)
    → length xs ≤ n
    → length ys ≤ k
    → length (xs ++ ys) ≤ n + k
append-length_le xs ys n k h i = omega (arith, length-append xs ys)

option_le :
    (name : List ℕ) (o : Option (List ℕ)) (rest : List (List ℕ)) (k : ℕ)
    → length rest ≤ k
    → length (option_words name o ++ rest) ≤ 2 + k
option_le name o rest k h =
    append-length_le (option_words name o) rest 2 k (length-option_words name o) h

-- Whatever is configured, the words and the NULL after them fit `argv`, and the two words that are
-- put together fit their buffers with the 0 at their end.
pub argv_lem :
    (cfg : Config)
    → (length (argv cfg) + 1 ≤ argv_size)
      × (length (shim_cmd cfg) < shim_cmd_size)
      × (length (ip_spec cfg) < ip_spec_size)
unfolding argv shim_cmd ip_spec
argv_lem cfg =
    let down =
      option_le (codes "ip-down-script") cfg.ip_down_script (ip_spec cfg ∷ []) 1 (omega arith) in
    let up = option_le (codes "ip-up-script") cfg.ip_up_script _ 3 down in
    let second = option_le (codes "ms-dns") cfg.dns2 _ 5 up in
    let first = option_le (codes "ms-dns") cfg.dns1 _ 7 second in
    let rest = append-length_le (auth_words cfg.auth) _ 3 9 (length-auth_words cfg.auth) first in
    (
      omega (arith, rest),
      omega (
        arith,
        length-take (shim_cmd_size - 1) (cfg.shim_exe ++ (codes " --shim " ++ dec shim_fd)),
      ),
      omega (arith, length-take (ip_spec_size - 1) (cfg.local_ip ++ 58 ∷ cfg.peer_ip)),
    )
