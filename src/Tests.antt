-- ===== src/Tests.antt =====
-- The theorems at work on concrete inputs.
mod Serial
mod AudioSocket
mod Line
mod V22bis
mod Samples
mod Ppp
mod Sip
mod SipText
mod SipResponse
mod Doors
mod Bbs
mod Call
mod Main
