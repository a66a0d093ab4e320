-- ===== src/Doors/Hangman.antt =====
-- Hangman (`src/bbs/doors/hangman.c`).
pub mod Fair
use v34_working.Base.{
  ℕ, zero, suc, ◌+◌, ◌-◌, ◌*◌, ◌/◌, ◌%◌, ◌^◌, Bool, true, false, not, ◌&&◌, ◌||◌, List, [], ◌∷◌,
  ◌++◌, leb, ◌==◌, u32, if◌then◌else◌,
}

-- `text` holds the word and, from 64 on, the letters that have been tried; `values[0]` is `misses`,
-- `state` is 1 while the caller guesses. `wins` is the one of the data base.
pub record Board : Type 0 where
  pub word : List ℕ
  pub tried : List ℕ
  pub misses : ℕ
  pub guessing : Bool
  pub wins : ℕ
  pub rng : ℕ
  pub left : Bool

-- `words`, by index
unfoldable pub word_at : ℕ → List ℕ
word_at zero = 67 ∷ 65 ∷ 82 ∷ 82 ∷ 73 ∷ 69 ∷ 82 ∷ []
word_at (suc zero) = 80 ∷ 65 ∷ 67 ∷ 75 ∷ 69 ∷ 84 ∷ []
word_at (suc (suc zero)) = 77 ∷ 79 ∷ 68 ∷ 69 ∷ 77 ∷ []
word_at (suc (suc (suc zero))) = 84 ∷ 69 ∷ 82 ∷ 77 ∷ 73 ∷ 78 ∷ 65 ∷ 76 ∷ []
word_at (suc (suc (suc (suc zero)))) = 71 ∷ 65 ∷ 76 ∷ 65 ∷ 88 ∷ 89 ∷ []
word_at (suc (suc (suc (suc (suc n))))) = 83 ∷ 73 ∷ 71 ∷ 78 ∷ 65 ∷ 76 ∷ []

-- `strchr` for a character that is not 0
unfoldable pub has : List ℕ → ℕ → Bool
has [] c = false
has (x ∷ xs) c = (x == c) || has xs c

-- `won`: every letter of the word has been tried.
unfoldable pub solved : List ℕ → List ℕ → Bool
unfolding has
solved [] tried = true
solved (c ∷ cs) tried = has tried c && solved cs tried

-- `draw`, of which the text is left out
unfoldable pub draw : Board → Board
unfolding solved
draw b = if solved b.word b.tried then record b { wins = b.wins + 1; guessing = false } else b

-- The step of the generator
abbrev pub next_rng : ℕ → ℕ
next_rng rng = u32 (rng * 1103515245 + 12345)

-- `open_game`
unfoldable pub open_game : Board → Board
unfolding word_at draw
open_game b = draw (record b {
  rng = next_rng b.rng;
  word = word_at (next_rng b.rng / 2 ^ 16 % 6);
  tried = [];
  misses = 0;
  guessing = true;
})

-- `toupper` of ASCII
abbrev pub upper : ℕ → ℕ
upper c = if leb 97 c && leb c 122 then c - 32 else c

-- A letter that is not tried yet is kept, and counted when the word does not have it.
unfoldable pub guess : ℕ → Board → Board
unfolding has
guess c b =
    if (leb 65 c && leb c 90) && not (has b.tried c)
    then record b {
      tried = b.tried ++ c ∷ [];
      misses = if has b.word c then b.misses else b.misses + 1;
    }
    else b

-- The end of `input`
unfoldable pub judge : Board → Board
unfolding draw
judge b = if leb 6 b.misses then record b { guessing = false } else draw b

-- `input`, on the first character of a line.
unfoldable pub input : ℕ → Board → Board
unfolding open_game guess judge
input key b =
    if (key == 113) || (key == 81)
    then record b { left = true }
    else if b.guessing
    then judge (guess (upper key) b)
    else open_game b

-- The lines of a visit.
unfoldable pub play : List ℕ → Board → Board
unfolding input
play [] b = b
play (k ∷ ks) b = play ks (input k b)

-- The context of the game before it is entered.
abbrev pub seated : ℕ → ℕ → Board
seated rng wins = record {
  word = [];
  tried = [];
  misses = 0;
  guessing = false;
  wins = wins;
  rng = rng;
  left = false;
}

unfoldable pub enter : ℕ → ℕ → Board
unfolding open_game
enter rng wins = open_game (seated rng wins)
