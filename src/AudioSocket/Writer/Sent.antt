-- ===== src/AudioSocket/Writer/Sent.antt =====
-- What `sm_ast_write` puts on the wire.
use v34_working.Base.{
  ℕ, suc, ◌/◌, ◌%◌, ◌^◌, ◌≤◌, ◌<◌, ◌≡◌, refl, sym, ap, ◌∙◌, List, [], ◌∷◌, ◌++◌, ltb, length, take,
  drop, append_assoc, append-nil, subst, take-append-drop, arith, if_true, if_false, dec_lt, ◌⊎◌,
  inl, inr, lt→ltb, ge→ltb,
}
use v34_working.AudioSocket.Net.{Net, Poll}
use v34_working.AudioSocket.Writer.{
  Written, written, failed, waiting, send_loop, send_all, head, write_payload, write,
}
use v34_working.AudioSocket.Reader.Resume.{wire}

-- A run of sends puts a first part of the bytes on the wire, and all of them if it reports success.
abbrev pub Sends : List ℕ → List ℕ → Written → List ℕ → Type 0
Sends bs before written after = after ≡ before ++ bs
Sends bs before _ after =
    (put : List ℕ) × (left : List ℕ) × (bs ≡ put ++ left) × (after ≡ before ++ put)

-- The sends of what is left, after a first part.
Sends-after :
    (first rest before after : List ℕ) (w : Written)
    → Sends rest (before ++ first) w after
    → Sends (first ++ rest) before w after
Sends-after first rest before after written s = s ∙ append_assoc before first rest
Sends-after first rest before after failed (put, left, e, s) = (
  first ++ put,
  left,
  ap (λ l. first ++ l) e ∙ sym (append_assoc first put left),
  s ∙ append_assoc before first put,
)
Sends-after first rest before after waiting (put, left, e, s) = (
  first ++ put,
  left,
  ap (λ l. first ++ l) e ∙ sym (append_assoc first put left),
  s ∙ append_assoc before first put,
)

send_loop-Sends :
    (bs before : List ℕ) (ps : List Poll)
    → let (w, after, _) = send_loop bs before ps in Sends bs before w after
unfolding send_loop
send_loop-Sends [] before ps = sym (append-nil before)
send_loop-Sends (b ∷ bs) before [] = ([], b ∷ bs, refl, sym (append-nil before))
send_loop-Sends (b ∷ bs) before (Poll.again ∷ ps) = send_loop-Sends (b ∷ bs) before ps
send_loop-Sends (b ∷ bs) before (Poll.timed_out ∷ ps) = ([], b ∷ bs, refl, sym (append-nil before))
send_loop-Sends (b ∷ bs) before (Poll.broken ∷ ps) = ([], b ∷ bs, refl, sym (append-nil before))
send_loop-Sends (b ∷ bs) before (Poll.ready n ∷ ps) =
    let first = take (suc n) (b ∷ bs) in
    let rest = drop (suc n) (b ∷ bs) in
    let (w, after, _) = send_loop rest (before ++ first) ps in
    subst (λ l. Sends l before w after) (take-append-drop (suc n) (b ∷ bs))
      (Sends-after first rest before after w (send_loop-Sends rest (before ++ first) ps))

send_all-Sends :
    (bs : List ℕ) (net : Net) → let (w, net') = send_all bs net in Sends bs net.sent w net'.sent
unfolding send_all
send_all-Sends bs net = send_loop-Sends bs net.sent net.polls

write_payload-Sends :
    (first payload before : List ℕ) (w : Written) (net : Net)
    → Sends first before w net.sent
    → let (w', net') = write_payload payload (w, net) in
      Sends (first ++ payload) before w' net'.sent
unfolding write_payload
write_payload-Sends first [] before written net s =
    s ∙ ap (λ l. before ++ l) (sym (append-nil first))
write_payload-Sends first (p ∷ ps) before written net s =
    let e : write_payload (p ∷ ps) (written, net) ≡ send_all (p ∷ ps) net =
      if_true (ltb 0 (length (p ∷ ps))) _ _ (lt→ltb 0 (length (p ∷ ps)) (omega arith)) in
    let (w, net') = send_all (p ∷ ps) net in
    subst (λ r. Sends (first ++ p ∷ ps) before r.0 r.1.sent) (sym e)
      (Sends-after first (p ∷ ps) before net'.sent w
        (subst (λ l. Sends (p ∷ ps) l w net'.sent) s (send_all-Sends (p ∷ ps) net)))
write_payload-Sends first payload before failed net (put, left, e, s) =
    (put, left ++ payload, ap (λ l. l ++ payload) e ∙ append_assoc put left payload, s)
write_payload-Sends first payload before waiting net (put, left, e, s) =
    (put, left ++ payload, ap (λ l. l ++ payload) e ∙ append_assoc put left payload, s)

-- A message that fits its length field goes onto the wire as kind, length and payload, whole if
-- the write reports success and else a first part of it, however the sends cut it; one that is too
-- long is refused and sends nothing.
pub write-Sends :
    (kind : ℕ) (payload : List ℕ) (net : Net)
    → (let (w, net') = write kind payload net in
        (length payload < 2 ^ 16) × Sends (wire kind payload) net.sent w net'.sent)
      ⊎ ((2 ^ 16 ≤ length payload) × (write kind payload net ≡ (failed, net)))
unfolding write
write-Sends kind payload net = elim (dec_lt (length payload) (2 ^ 16)) [
  | yes h ↦ inl (h, fitting h)
  | no h ↦ inr (omega arith, too_long (omega arith))
]
  where
    same_head : length payload < 2 ^ 16 → head kind (length payload) ++ payload ≡ wire kind payload
    same_head h =
        let e : length payload / 2 ^ 8 % 256 ≡ length payload / 256 = omega arith in
        ap (λ hi. kind ∷ hi ∷ length payload % 256 ∷ payload) e

    body : Written × Net
    body = write_payload payload (send_all (head kind (length payload)) net)

    fitting :
        length payload < 2 ^ 16
        → Sends
            (wire kind payload)
            net.sent
            (write kind payload net).0
            (write kind payload net).1.sent
    fitting h =
        let e : write kind payload net ≡ body =
          if_false (ltb 0xFFFF (length payload)) _ _
            (ge→ltb 0xFFFF (length payload) (omega arith)) in
        subst (λ r. Sends (wire kind payload) net.sent r.0 r.1.sent) (sym e)
          (subst (λ l. Sends l net.sent body.0 body.1.sent) (same_head h)
            (write_payload-Sends (head kind (length payload)) payload net.sent
              (send_all (head kind (length payload)) net).0
              (send_all (head kind (length payload)) net).1
              (send_all-Sends (head kind (length payload)) net)))

    too_long : 2 ^ 16 ≤ length payload → write kind payload net ≡ (failed, net)
    too_long h = if_true _ _ _ (lt→ltb 0xFFFF (length payload) (omega arith))
