-- ===== src/Main.antt =====
-- `src/main`: the command lines of the two programs, and the daemon's loop over its callers.
pub mod Args
pub mod Daemon
pub mod Bridge
pub mod Serve
