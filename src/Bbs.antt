-- ===== src/Bbs.antt =====
-- The bulletin board of `src/bbs/bbs.c`: its text helpers, its session and its line editor.
pub mod Text
pub mod Session
pub mod Feed
pub mod Tick
