-- ===== src/Doors.antt =====
-- The games of `src/bbs/doors`, as steps on the values that they keep. A game is given the first
-- character of a line; what it writes to the terminal is left out.
pub mod SpaceTrader
pub mod Dungeon
pub mod Blackjack
pub mod Hangman
