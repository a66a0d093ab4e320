-- ===== src/Doors/SpaceTrader/Fair.antt =====
-- What the merchant keeps and saves.
use v34_working.Base.{
  ℕ, ◌+◌, ◌-◌, ◌*◌, ◌≤◌, ◌<◌, ◌≡◌, refl, ap, List, [], ◌∷◌, Bool, true, false, Bool-cases, inl, inr,
  if_true, if_false, zero, suc, ◌∙◌, ◌&&◌, ◌||◌, ltb, leb, ◌==◌, arith, if◌then◌else◌,
}
use v34_working.Doors.SpaceTrader.{Game, price, save, open_game, trade, input, play}

pub record IsFair (g : Game) : Type 0 where
  pub hold : g.cargo ≤ 20
  pub port_low : 1 ≤ g.port
  pub port_high : g.port ≤ 12

pub record IsSaved (g : Game) : Type 0 where
  pub in_step : g.saved ≡ (g.credits, g.cargo, g.port)

trade-IsFair : (key : ℕ) (g : Game) → IsFair g → IsFair (trade key g)
unfolding trade
trade-IsFair key g f = ground arith

-- In range and saved.
abbrev IsKept : Game → Type 0
IsKept g = IsFair g × IsSaved g

save-IsKept : (g : Game) → IsFair g → IsKept (save g)
unfolding save
save-IsKept g f = (
  record { hold = f.hold; port_low = f.port_low; port_high = f.port_high },
  record { in_step = refl },
)

if-IsKept : (b : Bool) (x y : Game) → IsKept x → IsKept y → IsKept (if b then x else y)
if-IsKept true x y h k = h
if-IsKept false x y h k = k

input-IsKept : (key : ℕ) (g : Game) → IsFair g → IsKept (input key g)
unfolding input
input-IsKept key g f =
    let (f', s) = save-IsKept g f in
    if-IsKept ((key == 113) || (key == 81)) _ _
      (
        record { hold = f'.hold; port_low = f'.port_low; port_high = f'.port_high },
        record { in_step = s.in_step },
      )
      (save-IsKept (trade key g) (trade-IsFair key g f))

play-IsKept : (keys : List ℕ) (g : Game) → IsKept g → IsKept (play keys g)
unfolding play
play-IsKept [] g h = h
play-IsKept (k ∷ ks) g h = play-IsKept ks (input k g) (input-IsKept k g h.0)

open_game-IsSaved : (rng credits cargo port : ℕ) → IsSaved (open_game rng (credits, cargo, port))
unfolding open_game
open_game-IsSaved rng credits cargo port = record { in_step = refl }

-- A visit that opens with at most 20 ore at one of the ports 1 to 12 keeps to these bounds
-- whatever lines come in, and after each line the data base has what the game has.
pub play-open_game :
    (keys : List ℕ) (rng credits cargo port : ℕ)
    → cargo ≤ 20
    → 1 ≤ port
    → port ≤ 12
    → let g = play keys (open_game rng (credits, cargo, port)) in
      (g.cargo ≤ 20) × (1 ≤ g.port) × (g.port ≤ 12) × (g.saved ≡ (g.credits, g.cargo, g.port))
unfolding open_game
play-open_game keys rng credits cargo port hc hl hh =
    let start = open_game rng (credits, cargo, port) in
    let (f, s) = play-IsKept keys start (
      record { hold = hc; port_low = hl; port_high = hh },
      open_game-IsSaved rng credits cargo port,
    ) in
    (f.hold, f.port_low, f.port_high, s.in_step)

abbrev worth : ℕ → Game → ℕ
worth p g = g.credits + g.cargo * p

buy-worth :
    (p credits cargo : ℕ) → p ≤ credits → credits - p + (cargo + 1) * p ≡ credits + cargo * p
buy-worth p credits cargo h = omega arith

sell-worth : (p credits cargo : ℕ) → 0 < cargo → credits + p + (cargo - 1) * p ≡ credits + cargo * p
sell-worth p credits zero h = absurd (omega arith)
sell-worth p credits (suc cargo) h =
    let e : suc cargo - 1 ≡ cargo = omega arith in rw e (omega arith)

trade-worth : (key : ℕ) (g : Game) → worth (price g.port) (trade key g) ≡ worth (price g.port) g
unfolding trade
trade-worth key g =
    worth_if ((key == 98 || key == 66) && (ltb g.cargo 20 && leb (price g.port) g.credits)) _ _
      (λ b. buy-worth (price g.port) g.credits g.cargo (ground (arith, b)))
      (λ _.
        worth_if ((key == 115 || key == 83) && ltb 0 g.cargo) _ _
          (λ s. sell-worth (price g.port) g.credits g.cargo (ground (arith, s)))
          (λ _. worth_if (key == 106 || key == 74) _ g (λ _. refl) (λ _. refl)))
  where
    worth_if :
        (b : Bool) (x y : Game)
        → (b ≡ true → worth (price g.port) x ≡ worth (price g.port) g)
        → (b ≡ false → worth (price g.port) y ≡ worth (price g.port) g)
        → worth (price g.port) (if b then x else y) ≡ worth (price g.port) g
    worth_if true x y h k = h refl
    worth_if false x y h k = k refl

-- A line neither makes nor loses money: what the credits and the hold are worth together, at the
-- price of the port that the line is given at, is the same after it.
pub input-worth :
    (key : ℕ) (g : Game)
    → let g' = input key g in
      g'.credits + g'.cargo * price g.port ≡ g.credits + g.cargo * price g.port
unfolding input save
input-worth key g = elim (Bool-cases (key == 113 || key == 81)) [
  | inl quits ↦ ap (worth (price g.port)) (if_true (key == 113 || key == 81) _ _ quits)
  | inr stays ↦
      ap (worth (price g.port)) (if_false (key == 113 || key == 81) _ _ stays) ∙ trade-worth key g
]
