-- ===== src/Sip/Rtp/Inside.antt =====
-- The accesses of `process_rtp` to the packet, and the frames that it queues.
use v34_working.Base.{
  ℕ, zero, suc, ◌+◌, ◌-◌, ◌*◌, ◌/◌, ◌%◌, ◌≤◌, ◌<◌, ◌≡◌, refl, ap, ◌∙◌, List, [], ◌∷◌, map, Bool,
  true, false, ◌&&◌, not, ltb, leb, ◌==◌, min, length, length-take, length-drop, take, drop, arith,
  if◌then◌else◌, le→leb,
}
use v34_working.Sip.Ulaw.{decode}
use v34_working.Sip.Rtp.{
  Parsed, rejected, ignored, overread, audio, max_payload, with_byte, finish, unpad, body,
  extension, process_rtp,
}

-- No access beyond a packet of this length, and between 1 and 1024 samples.
abbrev pub Within : ℕ → Parsed → Type 0
Within len overread = ⊥
Within len (audio xs) = (0 < length xs) × (length xs ≤ max_payload) × (length xs + 12 ≤ len)
Within len _ = Unit

if-Within :
    (len : ℕ) (b : Bool) (x y : Parsed)
    → (b ≡ true → Within len x)
    → (b ≡ false → Within len y)
    → Within len (if b then x else y)
if-Within len true x y h k = h refl
if-Within len false x y h k = k refl

with_byte-Within :
    (len : ℕ) (pkt : List ℕ) (i : ℕ) (next : ℕ → Parsed)
    → i < length pkt
    → ((b : ℕ) → Within len (next b))
    → Within len (with_byte pkt i next)
with_byte-Within len [] i next h k = absurd (omega arith)
with_byte-Within len (x ∷ xs) zero next h k = k x
with_byte-Within len (x ∷ xs) (suc i) next h k = with_byte-Within len xs i next (omega arith) k

pub length-map : (f : ℕ → ℕ) (xs : List ℕ) → length (map f xs) ≡ length xs
length-map f [] = refl
length-map f (x ∷ xs) = ap suc (length-map f xs)

ltb-false : (a b : ℕ) → ltb a b ≡ false → b ≤ a
ltb-false a b h = ground arith

finish-Within :
    (pkt : List ℕ) (pt hdr_len payload_len : ℕ)
    → 12 ≤ hdr_len
    → 0 < payload_len
    → hdr_len + payload_len ≤ length pkt
    → Within (length pkt) (finish pkt pt hdr_len payload_len)
unfolding finish
finish-Within pkt pt hdr_len payload_len header pos fits =
    let n = min payload_len max_payload in
    let room : leb (hdr_len + n) (length pkt) ≡ true = le→leb _ _ (omega arith) in
    let len : length (map decode (take n (drop hdr_len pkt))) ≡ n =
      length-map decode (take n (drop hdr_len pkt))
      ∙ omega (arith, length-take n (drop hdr_len pkt), length-drop hdr_len pkt) in
    if-Within (length pkt) (not (pt == 0)) ignored _ (λ _. tt)
      (λ _.
        if-Within (length pkt) (leb (hdr_len + n) (length pkt)) _ overread
          (λ _. (omega (arith, len), omega (arith, len), omega (arith, len)))
          (λ no_room. absurd (ground (arith, room, no_room))))

unpad-Within :
    (pkt : List ℕ) (has_pad : Bool) (pt hdr_len : ℕ)
    → 12 ≤ hdr_len
    → hdr_len ≤ length pkt
    → Within (length pkt) (unpad pkt has_pad pt hdr_len)
unfolding unpad
unpad-Within pkt has_pad pt hdr_len header inside =
    let n = length pkt - hdr_len in
    let no_pad =
      if-Within (length pkt) (leb n 0) rejected (finish pkt pt hdr_len n) (λ _. tt)
        (λ pos. finish-Within pkt pt hdr_len n header (ground (arith, pos)) (omega arith)) in
    if-Within (length pkt) (has_pad && ltb 0 n) _ _
      (λ padded.
        let pos : 0 < n = ground (arith, padded) in
        with_byte-Within (length pkt) pkt (hdr_len + (n - 1)) _ (omega arith) (λ pad.
          if-Within (length pkt) (leb n pad) rejected _ (λ _. tt)
            (λ left.
              let less : pad < n = ground (arith, left) in
              finish-Within pkt pt hdr_len (n - pad) header (omega arith) (omega arith))))
      (λ _. no_pad)

body-Within :
    (pkt : List ℕ) (has_pad : Bool) (pt hdr_len : ℕ)
    → 12 ≤ hdr_len
    → Within (length pkt) (body pkt has_pad pt hdr_len)
unfolding body
body-Within pkt has_pad pt hdr_len header =
    if-Within (length pkt) (ltb (length pkt) hdr_len) rejected _ (λ _. tt)
      (λ inside. unpad-Within pkt has_pad pt hdr_len header (ltb-false (length pkt) hdr_len inside))

extension-Within :
    (pkt : List ℕ) (has_ext has_pad : Bool) (pt hdr_len : ℕ)
    → 12 ≤ hdr_len
    → Within (length pkt) (extension pkt has_ext has_pad pt hdr_len)
unfolding extension
extension-Within pkt has_ext has_pad pt hdr_len header =
    if-Within (length pkt) has_ext _ _
      (λ _.
        if-Within (length pkt) (ltb (length pkt) (hdr_len + 4)) rejected _ (λ _. tt)
          (λ long.
            let room = ltb-false (length pkt) (hdr_len + 4) long in
            with_byte-Within (length pkt) pkt (hdr_len + 2) _ (omega arith) (λ hi.
              with_byte-Within (length pkt) pkt (hdr_len + 3) _ (omega arith) (λ lo.
                body-Within pkt has_pad pt (hdr_len + (4 + (hi * 256 + lo) * 4)) (omega arith)))))
      (λ _. body-Within pkt has_pad pt hdr_len header)

-- Whatever the bytes of a packet, and however long, `process_rtp` reads none beyond its end, and if
-- it queues samples there are between 1 and 1024 of them, no more than the packet has bytes behind
-- the fixed header.
pub process_rtp-Within : (pkt : List ℕ) → Within (length pkt) (process_rtp pkt)
unfolding process_rtp
process_rtp-Within pkt =
    if-Within (length pkt) (ltb (length pkt) 12) rejected _ (λ _. tt)
      (λ long.
        let room = ltb-false (length pkt) 12 long in
        with_byte-Within (length pkt) pkt 0 _ (omega arith) (λ b₀.
          with_byte-Within (length pkt) pkt 1 _ (omega arith) (λ b₁.
            if-Within (length pkt) (not (b₀ / 64 == 2)) rejected _ (λ _. tt)
              (λ _.
                extension-Within pkt (b₀ / 16 % 2 == 1) (b₀ / 32 % 2 == 1) (b₁ % 128)
                  (12 + b₀ % 16 * 4) (omega arith)))))
