-- ===== src/Sip/Media/Play.antt =====
-- The pump of `src/sip/sm_sip.c` over a whole call, as a queue of frames.
use v34_working.Base.{
  ℕ, ◌≤◌, ◌≡◌, refl, sym, ap, ap₂, ◌∙◌, inl, inr, List, [], ◌∷◌, ◌++◌, ◌==◌, length, take,
  replicate, All, arith, if-Has,
}
use v34_working.Sip.Rtp.{max_payload}
use v34_working.Sip.Media.{Pump, begin, store, enqueue_rx, next_frame}
use v34_working.Sip.Media.Fifo.{contents, IsValid, make_room, enqueue_rx_lem, next_frame-Ticks}

-- A packet brings samples, or the clock ticks.
pub data Act : Type 0 where
  arrives : List ℕ → Act
  clock : Act

-- The frames that the daemon gets from a pump.
abbrev pub run : List Act → Pump → List (List ℕ)
run [] p = []
run (arrives pcm ∷ acts) p = run acts (enqueue_rx p pcm)
run (clock ∷ acts) p = let (frame, p') = next_frame p in frame ∷ run acts p'

-- A queue of frames, and the length of the frame that came in last.
abbrev Line : Type 0
Line = List (List ℕ) × ℕ

abbrev pub join : List ℕ → Line → Line
join [] line = line
join (x ∷ xs) (fs, n) =
    let frame = take max_payload (x ∷ xs) in (make_room fs ++ frame ∷ [], length frame)

abbrev pub serve : Line → List ℕ × Line
serve ([], n) = (replicate n 0, ([], n))
serve (f ∷ fs, n) = (f, (fs, n))

-- The frames that come out of such a queue.
abbrev pub plan : List Act → Line → List (List ℕ)
plan [] line = []
plan (arrives pcm ∷ acts) line = plan acts (join pcm line)
plan (clock ∷ acts) line = let (frame, line') = serve line in frame ∷ plan acts line'

-- A pump as such a queue.
abbrev line_of : Pump → Line
line_of p = (contents p, p.tick_ns)

enqueue_rx-join :
    (p : Pump) (pcm : List ℕ)
    → IsValid p
    → (line_of (enqueue_rx p pcm) ≡ join pcm (line_of p)) × IsValid (enqueue_rx p pcm)
unfolding enqueue_rx store
enqueue_rx-join p [] v = (refl, v)
enqueue_rx-join p (x ∷ xs) v =
    let (joined, v') = enqueue_rx_lem p (x ∷ xs) v (omega arith) in
    (ap (λ fs. (fs, length (take max_payload (x ∷ xs)))) joined, v')

next_frame-tick_ns : (p : Pump) → (next_frame p).1.tick_ns ≡ p.tick_ns
unfolding next_frame
next_frame-tick_ns p =
    if-Has {A = List ℕ × Pump} (λ r. r.1.tick_ns ≡ p.tick_ns) (p.head == p.tail) _ _ (λ _. refl)
      (λ _. refl)

-- A frame, and the queue that is left.
abbrev pair : ℕ → List ℕ → List (List ℕ) → List ℕ × Line
pair n f fs = (f, (fs, n))

next_frame-serve :
    (p : Pump)
    → IsValid p
    → let (frame, p') = next_frame p in
      ((frame, line_of p') ≡ serve (line_of p)) × (length frame ≤ max_payload) × IsValid p'
next_frame-serve p v =
    let (frame, p') = next_frame p in
    let (came, fits, v') = next_frame-Ticks p v in
    let same : (frame, line_of p') ≡ (frame, (contents p', p.tick_ns)) =
      ap (λ n. (frame, (contents p', n))) (next_frame-tick_ns p) in
    (
      same ∙ elim came [
        | inl (empty, silent, left) ↦
            ap₂ (pair p.tick_ns) silent left ∙ sym (ap (λ fs. serve (fs, p.tick_ns)) empty)
        | inr oldest ↦ sym (ap (λ fs. serve (fs, p.tick_ns)) oldest)
      ],
      fits,
      v',
    )

abbrev Fit : List (List ℕ) → Type 0
Fit fs = All (λ f. length f ≤ max_payload) fs

run-plan :
    (acts : List Act) (p : Pump)
    → IsValid p
    → (run acts p ≡ plan acts (line_of p)) × Fit (run acts p)
run-plan [] p v = (refl, tt)
run-plan (arrives pcm ∷ acts) p v =
    let (joined, v') = enqueue_rx-join p pcm v in
    let (same, fits) = run-plan acts (enqueue_rx p pcm) v' in (same ∙ ap (plan acts) joined, fits)
run-plan (clock ∷ acts) p v =
    let (frame, p') = next_frame p in
    let (served, fit, v') = next_frame-serve p v in
    let (same, fits) = run-plan acts p' v' in
    (
      ap (λ fs. frame ∷ fs) same ∙ ap {A = List ℕ × Line} (λ r. r.0 ∷ plan acts r.1) served,
      (fit, fits),
    )

begin-IsValid : (p : Pump) → IsValid p → IsValid (begin p)
unfolding begin
begin-IsValid p v = record {
  head_slot = omega arith;
  tail_slot = omega arith;
  frames = v.frames;
  silence = omega arith;
}

-- From the beginning of a call on, with whatever an earlier one left in the slots, the daemon gets
-- the frames of a queue, whatever the order of packets and ticks: the samples of a packet, cut to
-- 1024, wait at its end, and push the oldest frame out when 31 wait already; each tick takes the
-- oldest frame, or gives as much silence as the frame that came in last has samples, 160 before the
-- first. No frame has more than 1024 samples.
pub run-begin :
    (acts : List Act) (p : Pump)
    → IsValid p
    → (run acts (begin p) ≡ plan acts ([], 160))
      × All (λ f. length f ≤ max_payload) (run acts (begin p))
unfolding begin
run-begin acts p v = run-plan acts (begin p) (begin-IsValid p v)
