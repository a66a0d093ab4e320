-- ===== src/Base/Strings.antt =====
-- Text as C reads it: lists of characters, and what the C library does with them.
use Prim.Native.Nat.{ℕ, zero, suc, ◌+◌, ◌-◌, ◌*◌, ◌/◌, ◌%◌}
use mathlib.Core.Bool.{Bool, ◌&&◌, ◌||◌}
use mathlib.Core.Option.{Option, none, some}
use mathlib.Core.List.{List, [], ◌∷◌, ◌++◌}
use Prim.Native.Char.{code}
use Prim.Native.String.{String}
use v34_working.Base.Tests.{ltb, leb, ◌==◌, if◌then◌else◌}

-- The characters of an ASCII text
abbrev pub codes : String → List ℕ
codes String.[] = []
codes (String.◌∷◌ c s) = code c ∷ codes s

-- `isspace` in the C locale
abbrev pub is_space : ℕ → Bool
is_space c = (c == 32) || (leb 9 c && leb c 13)

-- `tolower` in the C locale
abbrev pub lower : ℕ → ℕ
lower c = if leb 65 c && leb c 90 then c + 32 else c

-- What follows the spaces at the head of a text.
unfoldable pub skip_space : List ℕ → List ℕ
skip_space [] = []
skip_space (c ∷ cs) = let rest = skip_space cs in if is_space c then rest else c ∷ cs

-- The digits of a number, and what follows it.
unfoldable pub digits : ℕ → List ℕ → ℕ × List ℕ
digits n [] = (n, [])
digits n (c ∷ cs) =
    let rest = digits (n * 10 + (c - 48)) cs in if leb 48 c && leb c 57 then rest else (n, c ∷ cs)

-- The text begins with these characters: what follows them.
unfoldable pub strip : List ℕ → List ℕ → Option (List ℕ)
strip [] cs = some cs
strip (p ∷ ps) [] = none
strip (p ∷ ps) (c ∷ cs) = let rest = strip ps cs in if p == c then rest else none

abbrev pub or_else {ℓ} : {A : Type ℓ} → Option A → Option A → Option A
or_else none b = b
or_else (some a) b = some a

-- `strstr` in a text without a 0, and what follows the characters that it finds.
unfoldable pub find : List ℕ → List ℕ → Option (List ℕ)
unfolding strip
find ps [] = strip ps []
find ps (c ∷ cs) = let later = find ps cs in or_else (strip ps (c ∷ cs)) later

-- A plus sign may stand before a number.
unfoldable pub skip_plus : List ℕ → List ℕ
skip_plus [] = []
skip_plus (c ∷ cs) = if c == 43 then cs else c ∷ cs

-- `atoi` of a number that fits an `int`. One that is not positive is 0.
unfoldable pub atoi : List ℕ → ℕ
unfolding skip_space skip_plus digits
atoi cs = (digits 0 (skip_plus (skip_space cs))).0

-- `%d` of a number that is not negative, with one round for each digit but the last.
unfoldable pub dec_from : ℕ → ℕ → List ℕ
dec_from zero n = (48 + n % 10) ∷ []
dec_from (suc more) n =
    let front = dec_from more (n / 10) in
    if ltb n 10 then (48 + n) ∷ [] else front ++ (48 + n % 10) ∷ []

-- An `int` has ten digits at most.
unfoldable pub dec : ℕ → List ℕ
unfolding dec_from
dec n = dec_from 9 n
