-- ===== src/Sip.antt =====
-- `src/sip`: the media path of the SIP agent, and the call that its request handlers keep.
pub mod Text
pub mod Ulaw
pub mod Rtp
pub mod Media
pub mod Clock
pub mod Call
pub mod Parse
pub mod Loop
pub mod Response
