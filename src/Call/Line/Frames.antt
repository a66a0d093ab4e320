-- ===== src/Call/Line/Frames.antt =====
-- Audio frames as messages on the wire.
use v34_working.Base.{
  ℕ, ◌*◌, ◌^◌, ◌≤◌, ◌<◌, ◌≡◌, refl, sym, ap, ap₂, ◌∙◌, subst, List, [], ◌∷◌, ◌++◌, append_assoc,
  append-nil, All, length, arith, ◌⊎◌, inl, inr,
}
use v34_working.AudioSocket.Net.{Net}
use v34_working.AudioSocket.Writer.{
  Written, written, failed, waiting, sample_bytes, write, write_audio,
}
use v34_working.AudioSocket.Writer.Sent.{Sends, write-Sends}
use v34_working.AudioSocket.Reader.Resume.{wire}
use v34_working.Call.Run.{to_samples}
use v34_working.Call.Line.{go_on, send_frames}

-- Samples of 16 bits, as many as a message may hold.
abbrev pub IsFrame : List ℕ → Type 0
IsFrame f = All (λ x. x < 2 ^ 16) f × (length f ≤ 2048)

pub length-sample_bytes : (f : List ℕ) → length (sample_bytes f) ≡ 2 * length f
length-sample_bytes [] = refl
length-sample_bytes (x ∷ xs) = omega (arith, length-sample_bytes xs)

-- The bytes of samples give the samples back.
pub to_samples-sample_bytes :
    (f : List ℕ) → All (λ x. x < 2 ^ 16) f → to_samples (sample_bytes f) ≡ f
to_samples-sample_bytes [] all = refl
to_samples-sample_bytes (x ∷ xs) (h, all) =
    ap₂ (λ y l. y ∷ l) (omega arith) (to_samples-sample_bytes xs all)

-- Frames as messages of the stream.
abbrev pub wires : List (List ℕ) → List ℕ
wires [] = []
wires (f ∷ fs) = wire 0x10 (sample_bytes f) ++ wires fs

-- A frame that is reported as written is on the wire.
write_audio-written :
    (f : List ℕ) (net net' : Net)
    → write_audio f net ≡ (written, net')
    → net'.sent ≡ net.sent ++ wire 0x10 (sample_bytes f)
unfolding write_audio
write_audio-written f net net' e = whole (write-Sends 0x10 (sample_bytes f) net)
  where
    whole :
        ((length (sample_bytes f) < 2 ^ 16)
            × Sends
                (wire 0x10 (sample_bytes f))
                net.sent
                (write 0x10 (sample_bytes f) net).0
                (write 0x10 (sample_bytes f) net).1.sent)
          ⊎ ((2 ^ 16 ≤ length (sample_bytes f)) × (write 0x10 (sample_bytes f) net ≡ (failed, net)))
        → net'.sent ≡ net.sent ++ wire 0x10 (sample_bytes f)
    whole (inl (h, s)) = subst (λ r. Sends (wire 0x10 (sample_bytes f)) net.sent r.0 r.1.sent) e s
    whole (inr (h, refused)) = cc (e, refused)

go_on-written :
    (next : Net → Written × Net) (r : Written × Net) (net' : Net)
    → go_on next r ≡ (written, net')
    → (r.0 ≡ written) × (next r.1 ≡ (written, net'))
unfolding go_on
go_on-written next (written, net) net' e = (refl, e)
go_on-written next (failed, net) net' e = cc
go_on-written next (waiting, net) net' e = cc

pub send_frames-wires :
    (fs : List (List ℕ)) (net net' : Net)
    → send_frames fs net ≡ (written, net')
    → net'.sent ≡ net.sent ++ wires fs
unfolding send_frames
send_frames-wires [] net net' e = ap (λ r. r.1.sent) (sym e) ∙ sym (append-nil net.sent)
send_frames-wires (f ∷ fs) net net' e =
    let (w, rest) = go_on-written (send_frames fs) (write_audio f net) net' e in
    let first =
      write_audio-written f net (write_audio f net).1 (ap (λ w. (w, (write_audio f net).1)) w) in
    send_frames-wires fs (write_audio f net).1 net' rest
    ∙ ap (λ l. l ++ wires fs) first
    ∙ append_assoc net.sent (wire 0x10 (sample_bytes f)) (wires fs)
