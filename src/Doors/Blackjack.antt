-- ===== src/Doors/Blackjack.antt =====
-- Blackjack (`src/bbs/doors/blackjack.c`).
pub mod Dealt
use v34_working.Base.{
  ℕ, zero, suc, ◌+◌, ◌*◌, ◌/◌, ◌%◌, ◌^◌, Bool, ◌||◌, Option, none, some, List, [], ◌∷◌, ltb, ◌==◌,
  u32, if◌then◌else◌, ℤ, pos, raise, lower_by,
}

-- The values of the game: the balance, the caller's hand and the dealer's; the generator; the balance
-- of the data base, when it has one; and whether the game has returned to the menu.
pub record Table : Type 0 where
  pub credits : ℤ
  pub hand : ℕ
  pub dealer : ℕ
  pub rng : ℕ
  pub saved : Option ℤ
  pub left : Bool

-- The step of the generator, and the card that it shows.
abbrev pub next_rng : ℕ → ℕ
next_rng rng = u32 (rng * 1664525 + 1013904223)

unfoldable pub card : ℕ → ℕ × ℕ
card rng = (1 + next_rng rng / 2 ^ 16 % 10, next_rng rng)

-- `load_int` with its fallback
unfoldable pub load : Option ℤ → ℤ
load none = pos 1000
load (some n) = n

-- `open_game`
unfoldable pub open_game : Table → Table
unfolding card load
open_game t =
    let (a, r1) = card t.rng in
    let (b, r2) = card r1 in
    let (d, r3) = card r2 in record t { credits = load t.saved; hand = a + b; dealer = d; rng = r3 }

-- The end of a hand: the balance is kept, and the next hand is dealt.
unfoldable pub settle : ℤ → Table → Table
unfolding open_game
settle credits t = open_game (record t { credits = credits; saved = some credits })

-- `case` h
unfoldable pub hit : Table → Table
unfolding card settle
hit t =
    let (c, r) = card t.rng in
    let t' = record t { hand = t.hand + c; rng = r } in
    if ltb 21 t'.hand then settle (lower_by t.credits 25) t' else t'

-- The dealer's cards below 17, on fuel: each is worth one at least.
unfoldable pub draws : ℕ → ℕ × ℕ → ℕ × ℕ
unfolding card
draws zero (dealer, rng) = (dealer, rng)
draws (suc fuel) (dealer, rng) =
    let more = draws fuel (dealer + (card rng).0, (card rng).1) in
    if ltb dealer 17 then more else (dealer, rng)

abbrev pub dealer_fuel : ℕ
dealer_fuel = 17

-- What the comparison of the hands makes of the balance.
unfoldable pub pay : ℕ → ℕ → ℤ → ℤ
pay hand dealer credits =
    if ltb 21 dealer || ltb dealer hand
    then raise credits 25
    else if ltb hand dealer
    then lower_by credits 25
    else credits

-- `case` s
unfoldable pub stand : Table → Table
unfolding draws pay settle
stand t =
    let (dealer, rng) = draws dealer_fuel (t.dealer, t.rng) in
    settle (pay t.hand dealer t.credits) (record t { dealer = dealer; rng = rng })

-- `input`, on the first character of a line.
unfoldable pub input : ℕ → Table → Table
unfolding hit stand
input key t =
    if (key == 113) || (key == 81)
    then record t { left = Bool.true }
    else if (key == 104) || (key == 72)
    then hit t
    else if (key == 115) || (key == 83)
    then stand t
    else t

-- The lines of a visit.
unfoldable pub play : List ℕ → Table → Table
unfolding input
play [] t = t
play (k ∷ ks) t = play ks (input k t)

-- The context of the game before it is entered, on what the data base has.
abbrev pub seated : ℕ → Option ℤ → Table
seated rng saved = record {
  credits = pos 0;
  hand = 0;
  dealer = 0;
  rng = rng;
  saved = saved;
  left = Bool.false;
}

unfoldable pub enter : ℕ → Option ℤ → Table
unfolding open_game
enter rng saved = open_game (seated rng saved)
