-- ===== src/Doors/Dungeon/Alive.antt =====
-- The hit points and the levels of the hero.
use v34_working.Base.{
  ℕ, ◌+◌, ◌*◌, ◌≤◌, ◌<◌, ◌≡◌, refl, List, [], ◌∷◌, Bool, true, false, ◌||◌, ◌==◌, u32, arith,
  if◌then◌else◌,
}
use v34_working.Doors.Dungeon.{
  Hero, newcomer, full_hp, save, rest, fight, promote, explore, input, play,
}

pub record IsAlive (h : Hero) : Type 0 where
  pub hp_low : 0 < h.hp
  pub hp_high : h.hp ≤ full_hp h.level
  pub level_low : 1 ≤ h.level
  pub promoted : h.xp < h.level * 50

-- In a fight the points may pass what the level allows.
record Fought (h : Hero) : Type 0 where
  low : 0 < h.hp
  high : h.hp ≤ full_hp h.level
  one : 1 ≤ h.level
  within : h.xp < (h.level + 1) * 50

rest-IsAlive : (key : ℕ) (h : Hero) → IsAlive h → IsAlive (rest key h)
unfolding rest
rest-IsAlive key h a = ground arith

fight-Fought : (h : Hero) → IsAlive h → Fought (fight h)
unfolding fight
fight-Fought h a = ground arith

promote-IsAlive : (h : Hero) → Fought h → IsAlive (promote h)
unfolding promote
promote-IsAlive h f = ground arith

if-IsAlive : (b : Bool) (x y : Hero) → IsAlive x → IsAlive y → IsAlive (if b then x else y)
if-IsAlive true x y h k = h
if-IsAlive false x y h k = k

same-IsAlive :
    (h h' : Hero) → IsAlive h → h'.hp ≡ h.hp → h'.level ≡ h.level → h'.xp ≡ h.xp → IsAlive h'
same-IsAlive h h' a e e' e'' = record {
  hp_low = omega (arith, a.hp_low);
  hp_high = omega (arith, a.hp_high);
  level_low = omega (arith, a.level_low);
  promoted = omega (arith, a.promoted);
}

explore-IsAlive : (key : ℕ) (h : Hero) → IsAlive h → IsAlive (explore key h)
unfolding explore
explore-IsAlive key h a =
    let h' : Hero = record h { rng = u32 (h.rng * 1103515245 + 12345) } in
    if-IsAlive ((key == 101) || (key == 69)) _ h
      (promote-IsAlive (fight h') (fight-Fought h' (same-IsAlive h h' a refl refl refl))) a

input-IsAlive : (key : ℕ) (h : Hero) → IsAlive h → IsAlive (input key h)
unfolding input save
input-IsAlive key h a =
    let h' = explore key (rest key h) in
    if-IsAlive ((key == 113) || (key == 81)) _ _ (same-IsAlive h _ a refl refl refl)
      (same-IsAlive h' _ (explore-IsAlive key (rest key h) (rest-IsAlive key h a)) refl refl refl)

play-IsAlive : (keys : List ℕ) (h : Hero) → IsAlive h → IsAlive (play keys h)
unfolding play
play-IsAlive [] h a = a
play-IsAlive (k ∷ ks) h a = play-IsAlive ks (input k h) (input-IsAlive k h a)

-- A new player's hero, after any lines, has at least one hit point and no more than a rest gives at
-- its level, and fewer points than its level is left with: a line never earns two levels.
pub play-newcomer : (keys : List ℕ) (rng : ℕ) → IsAlive (play keys (newcomer rng))
unfolding newcomer
play-newcomer keys rng = play-IsAlive keys (newcomer rng) (record {
  hp_low = omega arith;
  hp_high = omega arith;
  level_low = omega arith;
  promoted = omega arith;
})
