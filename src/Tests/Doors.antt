-- ===== src/Tests/Doors.antt =====
-- Visits to the games.
use v34_working.Base.{ℕ, ◌≤◌, ◌≡◌, List, [], ◌∷◌, none, arith}
use v34_working.Doors.SpaceTrader
use v34_working.Doors.SpaceTrader.{price}
use v34_working.Doors.SpaceTrader.Fair.{play-open_game}
use v34_working.Doors.Blackjack
use v34_working.Doors.Blackjack.Dealt.{IsDealt, play-IsDealt}
use v34_working.Doors.Dungeon
use v34_working.Doors.Dungeon.Alive.{IsAlive, play-newcomer}

-- Buy, jump, sell, quit.
abbrev trip : List ℕ
trip = 98 ∷ 106 ∷ 115 ∷ 113 ∷ []

play-open_game_example :
    let g = SpaceTrader.play trip (SpaceTrader.open_game 7 (500, 0, 1)) in
    (g.cargo ≤ 20) × (1 ≤ g.port) × (g.port ≤ 12) × (g.saved ≡ (g.credits, g.cargo, g.port))
play-open_game_example = play-open_game trip 7 500 0 1 (omega arith) (omega arith) (omega arith)

-- Explore twice, rest, quit.
play-newcomer_example : IsAlive (Dungeon.play (101 ∷ 101 ∷ 114 ∷ 113 ∷ []) (Dungeon.newcomer 7))
play-newcomer_example = play-newcomer (101 ∷ 101 ∷ 114 ∷ 113 ∷ []) 7

-- Hit twice, stand, quit.
abbrev hands : List ℕ
hands = 104 ∷ 72 ∷ 115 ∷ 113 ∷ []

play-IsDealt_example : IsDealt (Blackjack.play hands (Blackjack.enter 7 none))
play-IsDealt_example = play-IsDealt hands 7 none
