-- ===== src/Doors/Dungeon.antt =====
-- Ember Depths (`src/bbs/doors/dungeon.c`).
pub mod Alive
use v34_working.Base.{
  ℕ, ◌+◌, ◌-◌, ◌*◌, ◌/◌, ◌%◌, ◌^◌, Bool, ◌||◌, List, [], ◌∷◌, leb, ◌==◌, u32, if◌then◌else◌,
}

-- `values[0]` to `values[3]`, the same in the data base, and the generator.
pub record Hero : Type 0 where
  pub level : ℕ
  pub xp : ℕ
  pub hp : ℕ
  pub gold : ℕ
  pub rng : ℕ
  pub saved : ℕ × ℕ × ℕ × ℕ
  pub left : Bool

unfoldable pub save : Hero → Hero
save h = record h { saved = (h.level, h.xp, h.hp, h.gold) }

-- A new player, with what `load_int` falls back on.
unfoldable pub newcomer : ℕ → Hero
newcomer rng = record {
  level = 1;
  xp = 0;
  hp = 20;
  gold = 0;
  rng = rng;
  saved = (1, 0, 20, 0);
  left = Bool.false;
}

abbrev pub full_hp : ℕ → ℕ
full_hp level = 20 + level * 3

-- `case 'r'`
unfoldable pub rest : ℕ → Hero → Hero
rest key h = if (key == 114) || (key == 82) then record h { hp = full_hp h.level } else h

-- The fight, with the generator stepped.
unfoldable pub fight : Hero → Hero
fight h =
    let hit = 1 + h.rng / 2 ^ 16 % 8 in
    let gain = 4 + h.rng / 2 ^ 20 % 12 in
    if leb h.hp hit
    then record h { hp = full_hp h.level; gold = h.gold / 2 }
    else record h { hp = h.hp - hit; xp = h.xp + gain; gold = h.gold + gain / 2 }

unfoldable pub promote : Hero → Hero
promote h = if leb (h.level * 50) h.xp then record h { level = h.level + 1 } else h

-- `case 'e'`
unfoldable pub explore : ℕ → Hero → Hero
unfolding fight promote
explore key h =
    if (key == 101) || (key == 69)
    then promote (fight (record h { rng = u32 (h.rng * 1103515245 + 12345) }))
    else h

-- `input`
unfoldable pub input : ℕ → Hero → Hero
unfolding save rest explore
input key h =
    if (key == 113) || (key == 81)
    then record (save h) { left = Bool.true }
    else save (explore key (rest key h))

-- The lines of a visit.
unfoldable pub play : List ℕ → Hero → Hero
unfolding input
play [] h = h
play (k ∷ ks) h = play ks (input k h)
