-- ===== src/Main/Args.antt =====
-- The loop over the command line, which `main` of sm_daemon.c and of sm_sip_main.c have alike: an
-- option takes the next word as its value, or stands alone.
pub mod Laws
pub mod Number
use v34_working.Base.{
  ℕ, List, [], ◌∷◌, Bool, true, false, ◌&&◌, ◌==◌, Option, none, some, ℤ, pos, negsuc, ◌-◌, ◌^◌,
  ◌%◌, ltb, min, skip_space, digits, if◌then◌else◌,
}

-- What a word of the command line is.
pub data Kind (K F : Type 0) : Type 0 where
  takes : K → Kind K F
  sets : F → Kind K F
  help unknown : Kind K F

-- The program runs with these options, or exits with this status.
pub data Verdict (O : Type 0) : Type 0 where
  run : O → Verdict O
  stop : ℕ → Verdict O

-- `strcmp` against zero
unfoldable pub same : List ℕ → List ℕ → Bool
same [] [] = true
same [] (c ∷ cs) = false
same (b ∷ bs) [] = false
same (b ∷ bs) (c ∷ cs) = (b == c) && same bs cs

-- The chain of comparisons, as the list of what a word is compared with.
module _ {K F : Type 0} where
  unfoldable pub look_up : List (List ℕ × Kind K F) → List ℕ → Kind K F
  unfolding same
  look_up [] word = unknown
  look_up ((name, kind) ∷ more) word =
      let rest = look_up more word in if same word name then kind else rest

-- The low 32 bits of a number as an `int`.
abbrev pub to_int : ℕ → ℤ
to_int n = let low = n % 2 ^ 32 in if ltb low (2 ^ 31) then pos low else negsuc (2 ^ 32 - 1 - low)

-- `atoi` is `strtol`, which stops at the ends of a `long` of 64 bits, cut to an `int`.
abbrev pub positive : ℕ → ℤ
positive n = to_int (min n (2 ^ 63 - 1))

abbrev pub negative : ℕ → ℤ
negative n = to_int (2 ^ 32 - min n (2 ^ 63) % 2 ^ 32)

unfoldable pub atoi_sign : List ℕ → ℤ
unfolding digits
atoi_sign [] = pos 0
atoi_sign (c ∷ cs) =
    if c == 45
    then negative (digits 0 cs).0
    else if c == 43
    then positive (digits 0 cs).0
    else positive (digits 0 (c ∷ cs)).0

unfoldable pub atoi_int : List ℕ → ℤ
unfolding skip_space atoi_sign
atoi_int cs = atoi_sign (skip_space cs)

module _ {O : Type 0} where
  -- A value that is refused ends the program.
  abbrev pub or_stop : (O → Verdict O) → Option O → Verdict O
  or_stop next none = stop 2
  or_stop next (some o) = next o

module _ {K F O : Type 0} where
  -- What one word leads to: its option waits for a value, or is set, or the program ends.
  abbrev pub on_word : (K → Verdict O) → (F → Verdict O) → Kind K F → Verdict O
  on_word wait set (takes k) = wait k
  on_word wait set (sets f) = set f
  on_word wait set help = stop 0
  on_word wait set unknown = stop 2

module _ {K F O : Type 0} (kind : List ℕ → Kind K F) (set_value : K → List ℕ → O → Option O)
    (set_flag : F → O → O) where
  -- The `for` loop. The second argument is the option that waits for its value; with no word left
  -- for it, it is an unknown option.
  unfoldable pub parse_loop : List (List ℕ) → Option K → O → Verdict O
  parse_loop [] none o = run o
  parse_loop [] (some k) o = stop 2
  parse_loop (word ∷ words) (some k) o = or_stop (parse_loop words none) (set_value k word o)
  parse_loop (word ∷ words) none o =
      on_word (λ k. parse_loop words (some k) o) (λ f. parse_loop words none (set_flag f o))
        (kind word)
