-- ===== src/Serial.antt =====
-- `src/serial`: asynchronous framing over a bit pipe.
pub mod Queue
pub mod Deframer
pub mod Link
