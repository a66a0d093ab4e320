-- ===== src/V22bis.antt =====
-- `src/modem/v22bis`: the V.22bis modem's bits, symbols and training.
pub mod Scrambler
pub mod Symbols
pub mod Transmit
pub mod Receive
pub mod Pulse
pub mod Carrier
