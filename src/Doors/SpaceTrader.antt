-- ===== src/Doors/SpaceTrader.antt =====
-- Orbit Merchant (`src/bbs/doors/space_trader.c`).
pub mod Fair
use v34_working.Base.{
  ℕ, zero, suc, ◌+◌, ◌-◌, ◌*◌, ◌/◌, ◌%◌, ◌^◌, Bool, ◌&&◌, ◌||◌, List, [], ◌∷◌, ltb, leb, ◌==◌, u32,
  if◌then◌else◌,
}

-- What the game keeps: `values[0]` to `values[2]`, the same in the data base, its generator, and
-- whether it has returned to the menu.
pub record Game : Type 0 where
  pub credits : ℕ
  pub cargo : ℕ
  pub port : ℕ
  pub rng : ℕ
  pub saved : ℕ × ℕ × ℕ
  pub left : Bool

-- A letter in either case, given as both codes.
abbrev is : ℕ → ℕ → ℕ → Bool
is lower upper key = (key == lower) || (key == upper)

-- The price of ore at a port.
abbrev pub price : ℕ → ℕ
price port = 18 + port % 17

unfoldable pub save : Game → Game
save g = record g { saved = (g.credits, g.cargo, g.port) }

-- `open_game`, on the values that the data base has or that stand in for them.
unfoldable pub open_game : ℕ → ℕ × ℕ × ℕ → Game
open_game rng (credits, cargo, port) = record {
  credits = credits;
  cargo = cargo;
  port = port;
  rng = rng;
  saved = (credits, cargo, port);
  left = Bool.false;
}

-- The step of the generator, an `unsigned`.
abbrev pub next_rng : ℕ → ℕ
next_rng rng = u32 (rng * 1664525 + 1013904223)

-- The `if` of `input`.
unfoldable pub trade : ℕ → Game → Game
trade key g =
    if is 98 66 key && (ltb g.cargo 20 && leb (price g.port) g.credits)
    then record g { credits = g.credits - price g.port; cargo = g.cargo + 1 }
    else if is 115 83 key && ltb 0 g.cargo
    then record g { credits = g.credits + price g.port; cargo = g.cargo - 1 }
    else if is 106 74 key
    then record g { rng = next_rng g.rng; port = 1 + next_rng g.rng / 2 ^ 16 % 12 }
    else g

-- `input`
unfoldable pub input : ℕ → Game → Game
unfolding save trade
input key g = if is 113 81 key then record (save g) { left = Bool.true } else save (trade key g)

-- The lines of a visit.
unfoldable pub play : List ℕ → Game → Game
unfolding input
play [] g = g
play (k ∷ ks) g = play ks (input k g)
