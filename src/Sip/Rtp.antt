-- ===== src/Sip/Rtp.antt =====
-- RTP packets of `src/sip/sm_sip.c`: the parser (`process_rtp`) and the packets that `feed_daemon`
-- builds. A packet is its bytes, and every access to it can miss.
pub mod Inside
pub mod RoundTrip
use v34_working.Base.{
  ℕ, zero, suc, ◌+◌, ◌-◌, ◌*◌, ◌/◌, ◌%◌, ◌^◌, List, [], ◌∷◌, ◌++◌, map, Bool, true, false, ◌&&◌,
  not, Option, none, some, ltb, leb, ◌==◌, min, length, take, drop, if◌then◌else◌,
}
use v34_working.Sip.Ulaw.{decode, encode}

-- SM_SIP_RTP_MAXPAY
abbrev pub max_payload : ℕ
max_payload = 1024

-- What `process_rtp` does: it returns -1, it returns 0 for another payload type, or it queues the
-- samples. `overread` is an access beyond the packet.
pub data Parsed : Type 0 where
  rejected ignored overread : Parsed
  audio : List ℕ → Parsed

abbrev pub get_elem? : List ℕ → ℕ → Option ℕ
get_elem? [] i = none
get_elem? (x ∷ xs) zero = some x
get_elem? (x ∷ xs) (suc i) = get_elem? xs i

-- A read of the packet.
abbrev pub with_byte : List ℕ → ℕ → (ℕ → Parsed) → Parsed
with_byte pkt i next = elim (get_elem? pkt i) [ none ↦ overread | some b ↦ next b ]

-- The bytes from `start` on, if all `n` of them are there.
abbrev pub with_bytes : List ℕ → ℕ → ℕ → (List ℕ → Parsed) → Parsed
with_bytes pkt start n next =
    if leb (start + n) (length pkt) then next (take n (drop start pkt)) else overread

-- The end of `process_rtp`, for a payload of positive length.
unfoldable pub finish : List ℕ → ℕ → ℕ → ℕ → Parsed
unfolding decode
finish pkt pt hdr_len payload_len =
    if not (pt == 0)
    then ignored
    else with_bytes pkt hdr_len (min payload_len max_payload)
        (λ payload. audio (map decode payload))

-- The padding: its length is the last byte. A length that is not positive is rejected.
unfoldable pub unpad : List ℕ → Bool → ℕ → ℕ → Parsed
unfolding finish
unpad pkt has_pad pt hdr_len =
    let payload_len = length pkt - hdr_len in
    if has_pad && ltb 0 payload_len
    then with_byte pkt (hdr_len + (payload_len - 1))
        (λ pad. if leb payload_len pad then rejected else finish pkt pt hdr_len (payload_len - pad))
    else if leb payload_len 0
    then rejected
    else finish pkt pt hdr_len payload_len

-- The end of the header is within the packet, or the packet is rejected.
unfoldable pub body : List ℕ → Bool → ℕ → ℕ → Parsed
unfolding unpad
body pkt has_pad pt hdr_len =
    if ltb (length pkt) hdr_len then rejected else unpad pkt has_pad pt hdr_len

-- The header extension.
unfoldable pub extension : List ℕ → Bool → Bool → ℕ → ℕ → Parsed
unfolding body
extension pkt has_ext has_pad pt hdr_len =
    if has_ext
    then if ltb (length pkt) (hdr_len + 4)
      then rejected
      else with_byte pkt (hdr_len + 2) (λ hi.
        with_byte pkt (hdr_len + 3)
          (λ lo. body pkt has_pad pt (hdr_len + (4 + (hi * 256 + lo) * 4))))
    else body pkt has_pad pt hdr_len

-- `process_rtp`
unfoldable pub process_rtp : List ℕ → Parsed
unfolding extension
process_rtp pkt =
    if ltb (length pkt) 12
    then rejected
    else with_byte pkt 0 (λ b₀. with_byte pkt 1 (λ b₁.
      if not (b₀ / 64 == 2)
      then rejected
      else extension pkt (b₀ / 16 % 2 == 1) (b₀ / 32 % 2 == 1) (b₁ % 128) (12 + b₀ % 16 * 4)))

-- The twelve header bytes that `feed_daemon` writes.
abbrev pub header : ℕ → ℕ → ℕ → List ℕ
header seq ts ssrc =
    0x80
    ∷ 0
    ∷ seq / 2 ^ 8 % 256
    ∷ seq % 256
    ∷ ts / 2 ^ 24 % 256
    ∷ ts / 2 ^ 16 % 256
    ∷ ts / 2 ^ 8 % 256
    ∷ ts % 256
    ∷ ssrc / 2 ^ 24 % 256
    ∷ ssrc / 2 ^ 16 % 256
    ∷ ssrc / 2 ^ 8 % 256
    ∷ ssrc % 256
    ∷ []

-- The packet for the samples of one frame of the daemon.
unfoldable pub packet : ℕ → ℕ → ℕ → List ℕ → List ℕ
unfolding encode
packet seq ts ssrc samples = header seq ts ssrc ++ map encode (take max_payload samples)
