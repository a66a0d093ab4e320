-- ===== src/Ppp.antt =====
-- `src/ppp`: the shim between a PPP daemon and the modem, and how the daemon is started.
pub mod Relay
pub mod Spawn
