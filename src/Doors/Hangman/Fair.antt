-- ===== src/Doors/Hangman/Fair.antt =====
-- The count of the misses, and the room for the letters.
use v34_working.Base.{
  ℕ, zero, suc, ◌+◌, ◌/◌, ◌%◌, ◌^◌, ◌≤◌, ◌<◌, ◌≡◌, refl, List, [], ◌∷◌, ◌++◌, Bool, true, false,
  not, ◌&&◌, ◌||◌, leb, ◌==◌, if◌then◌else◌, if-Has, length, arith,
}
use v34_working.Doors.Hangman.{
  Board, word_at, has, solved, draw, next_rng, open_game, upper, guess, judge, input, play, seated,
  enter,
}

abbrev pub one_if : Bool → ℕ
one_if true = 1
one_if false = 0

-- How often a letter has been tried, and how many tries the word has.
unfoldable pub times : ℕ → List ℕ → ℕ
times c [] = 0
times c (x ∷ xs) = one_if (x == c) + times c xs

unfoldable pub hits : List ℕ → List ℕ → ℕ
unfolding has
hits word [] = 0
hits word (x ∷ xs) = one_if (has word x) + hits word xs

pub record IsFair (b : Board) : Type 0 where
  pub counted : length b.tried ≡ b.misses + hits b.word b.tried
  pub once : (c : ℕ) → times c b.tried ≤ 1
  pub limit : b.misses ≤ 6
  pub short : length b.word ≤ 8
  pub unsolved : b.guessing ≡ true → (b.misses < 6) × (solved b.word b.tried ≡ false)

times-snoc : (c x : ℕ) (xs : List ℕ) → times c (xs ++ x ∷ []) ≡ times c xs + one_if (x == c)
unfolding times
times-snoc c x [] = omega arith
times-snoc c x (y ∷ ys) = omega (arith, times-snoc c x ys)

hits-snoc :
    (word : List ℕ) (x : ℕ) (xs : List ℕ)
    → hits word (xs ++ x ∷ []) ≡ hits word xs + one_if (has word x)
unfolding hits
hits-snoc word x [] = omega arith
hits-snoc word x (y ∷ ys) = omega (arith, hits-snoc word x ys)

length-snoc : (x : ℕ) (xs : List ℕ) → length (xs ++ x ∷ []) ≡ length xs + 1
length-snoc x [] = refl
length-snoc x (y ∷ ys) = omega (arith, length-snoc x ys)

-- A letter that has not been tried has been tried no time.
times-absent : (c : ℕ) (xs : List ℕ) → has xs c ≡ false → times c xs ≡ 0
unfolding times has
times-absent c [] e = refl
times-absent c (x ∷ xs) e = ground (arith, times-absent c xs)

-- A word has no more hits than letters when no letter is tried twice.
hits-cons : (w : ℕ) (ws xs : List ℕ) → hits (w ∷ ws) xs ≤ times w xs + hits ws xs
unfolding hits times has
hits-cons w ws [] = omega arith
hits-cons w ws (x ∷ xs) = ground (arith, hits-cons w ws xs)

hits-nil : (xs : List ℕ) → hits [] xs ≡ 0
unfolding hits has
hits-nil [] = refl
hits-nil (x ∷ xs) = omega (arith, hits-nil xs)

hits-length : (word xs : List ℕ) → ((c : ℕ) → times c xs ≤ 1) → hits word xs ≤ length word
hits-length [] xs h = omega (arith, hits-nil xs)
hits-length (w ∷ ws) xs h = omega (arith, hits-cons w ws xs, h w, hits-length ws xs h)

-- What holds before the board is drawn.
record IsCounted (b : Board) : Type 0 where
  all : length b.tried ≡ b.misses + hits b.word b.tried
  one : (c : ℕ) → times c b.tried ≤ 1
  few : b.misses ≤ 6
  fits : length b.word ≤ 8

over-IsFair :
    (b : Board) (wins : ℕ) → IsCounted b → IsFair (record b { wins = wins; guessing = false })
over-IsFair b wins k = record {
  counted = k.all;
  once = k.one;
  limit = k.few;
  short = k.fits;
  unsolved = λ e. absurd (ground (arith, e));
}

draw-IsFair : (b : Board) → IsCounted b → b.misses < 6 → IsFair (draw b)
unfolding draw
draw-IsFair b k few =
    if-Has IsFair (solved b.word b.tried) (record b { wins = b.wins + 1; guessing = false }) b
      (λ _. over-IsFair b (b.wins + 1) k)
      (λ e. record {
        counted = k.all;
        once = k.one;
        limit = k.few;
        short = k.fits;
        unsolved = λ _. (few, e);
      })

length-word_at : (n : ℕ) → length (word_at n) ≤ 8
unfolding word_at
length-word_at zero = omega arith
length-word_at (suc zero) = omega arith
length-word_at (suc (suc zero)) = omega arith
length-word_at (suc (suc (suc zero))) = omega arith
length-word_at (suc (suc (suc (suc zero)))) = omega arith
length-word_at (suc (suc (suc (suc (suc n))))) = omega arith

open_game-IsFair : (b : Board) → IsFair (open_game b)
unfolding open_game hits times
open_game-IsFair b =
    draw-IsFair
      (record b {
        rng = next_rng b.rng;
        word = word_at (next_rng b.rng / 2 ^ 16 % 6);
        tried = [];
        misses = 0;
        guessing = true;
      })
      (record {
        all = refl;
        one = λ c. omega arith;
        few = omega arith;
        fits = length-word_at (next_rng b.rng / 2 ^ 16 % 6);
      })
      (omega arith)

once-snoc : (x c : ℕ) (xs : List ℕ) → has xs x ≡ false → times c xs ≤ 1 → times c (xs ++ x ∷ []) ≤ 1
once-snoc x c xs new one = grind (arith, times-snoc c x xs, times-absent x xs new)

guess-IsCounted : (c : ℕ) (b : Board) → IsFair b → b.guessing ≡ true → IsCounted (guess c b)
unfolding guess
guess-IsCounted c b f g =
    if-Has IsCounted ((leb 65 c && leb c 90) && not (has b.tried c))
      (record b {
        tried = b.tried ++ c ∷ [];
        misses = if has b.word c then b.misses else b.misses + 1;
      })
      b
      (λ e. record {
        all = ground (arith, f.counted, length-snoc c b.tried, hits-snoc b.word c b.tried);
        one = λ d. once-snoc c d b.tried (ground (arith, e)) (f.once d);
        few = ground (arith, f.unsolved g);
        fits = f.short;
      })
      (λ _. record { all = f.counted; one = f.once; few = f.limit; fits = f.short })

judge-IsFair : (b : Board) → IsCounted b → IsFair (judge b)
unfolding judge
judge-IsFair b k =
    if-Has IsFair (leb 6 b.misses) (record b { guessing = false }) (draw b)
      (λ _. over-IsFair b b.wins k) (λ e. draw-IsFair b k (ground (arith, e)))

input-IsFair : (key : ℕ) (b : Board) → IsFair b → IsFair (input key b)
unfolding input
input-IsFair key b f =
    if-Has IsFair ((key == 113) || (key == 81)) (record b { left = true }) _
      (λ _. record {
        counted = f.counted;
        once = f.once;
        limit = f.limit;
        short = f.short;
        unsolved = f.unsolved;
      })
      (λ _.
        if-Has IsFair b.guessing (judge (guess (upper key) b)) (open_game b)
          (λ e. judge-IsFair (guess (upper key) b) (guess-IsCounted (upper key) b f e))
          (λ _. open_game-IsFair b))

play-Fair : (keys : List ℕ) (b : Board) → IsFair b → IsFair (play keys b)
unfolding play
play-Fair [] b f = f
play-Fair (k ∷ ks) b f = play-Fair ks (input k b) (input-IsFair k b f)

tried-fits : (b : Board) → IsFair b → length b.tried ≤ 14
tried-fits b f = omega (arith, f.counted, f.limit, f.short, hits-length b.word b.tried f.once)

-- Whatever the generator and the lines are: between two lines no letter stands twice among those that
-- have been tried, which are at most 14, so that they fit behind the word; the misses are those of them
-- that the word does not have, at most 6; and while the caller guesses there are fewer, and a letter
-- of the word is still to be found.
pub play-IsFair :
    (keys : List ℕ) (rng wins : ℕ)
    → let b = play keys (enter rng wins) in IsFair b × (length b.tried ≤ 14)
unfolding enter
play-IsFair keys rng wins =
    let b = play keys (enter rng wins) in
    let f = play-Fair keys (enter rng wins) (open_game-IsFair (seated rng wins)) in
    (f, tried-fits b f)
