-- ===== src/Sip/Rtp/RoundTrip.antt =====
-- The parser on the packets that the agent itself sends.
use v34_working.Base.{
  ℕ, ◌+◌, ◌-◌, ◌≤◌, ◌<◌, ◌≡◌, refl, ap, ◌∙◌, List, [], ◌∷◌, ◌++◌, map, true, false, ltb, leb, min,
  length, length-take, take, take-all, arith, if_true, if_false, le→leb, lt→leb_false, ge→ltb,
}
use v34_working.Sip.Ulaw.{decode, encode}
use v34_working.Sip.Rtp.{
  audio, max_payload, header, packet, finish, unpad, body, extension, process_rtp,
}
use v34_working.Sip.Rtp.Inside.{length-map}

-- The packet with its payload coded.
process_rtp-header :
    (seq ts ssrc : ℕ) (payload : List ℕ)
    → 0 < length payload
    → length payload ≤ max_payload
    → process_rtp (header seq ts ssrc ++ payload) ≡ audio (map decode payload)
unfolding process_rtp extension body unpad finish
process_rtp-header seq ts ssrc payload pos fits =
    let pkt = header seq ts ssrc ++ payload in
    let long : ltb (length pkt) 12 ≡ false = ge→ltb (length pkt) 12 (omega arith) in
    let some_left : leb (length pkt - 12) 0 ≡ false =
      lt→leb_false (length pkt - 12) 0 (omega arith) in
    let n = min (length pkt - 12) max_payload in
    let room : leb (12 + n) (length pkt) ≡ true = le→leb (12 + n) (length pkt) (omega arith) in
    let all : n ≡ length payload = omega arith in
    if_false (ltb (length pkt) 12) _ _ long
    ∙ if_false (ltb (length pkt) 12) _ _ long
    ∙ if_false (leb (length pkt - 12) 0) _ _ some_left
    ∙ if_true (leb (12 + n) (length pkt)) _ _ room
    ∙ ap (λ (k : ℕ). audio (map decode (take k payload))) all
    ∙ ap (λ l. audio (map decode l)) (take-all (length payload) payload (omega arith))

map-map : (xs : List ℕ) → map decode (map encode xs) ≡ map (λ x. decode (encode x)) xs
map-map [] = refl
map-map (x ∷ xs) = ap (λ l. decode (encode x) ∷ l) (map-map xs)

-- A packet that `feed_daemon` sends for a frame with samples, whatever its number, time stamp and
-- source, is one that `process_rtp` queues: each sample coded and decoded, and no more than 1024.
pub process_rtp-packet :
    (seq ts ssrc : ℕ) (samples : List ℕ)
    → 0 < length samples
    → process_rtp (packet seq ts ssrc samples)
      ≡ audio (map (λ x. decode (encode x)) (take max_payload samples))
unfolding packet
process_rtp-packet seq ts ssrc samples pos =
    let sent = take max_payload samples in
    let same = length-map encode sent in
    let cut = length-take max_payload samples in
    process_rtp-header seq ts ssrc (map encode sent) (omega (arith, same, cut))
      (omega (arith, same, cut))
    ∙ ap audio (map-map sent)
