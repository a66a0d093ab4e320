-- ===== src/Call/Line/Carries.antt =====
-- Audio over the connection, however the sends and the reads cut it.
use v34_working.Base.{
  ℕ, suc, ◌+◌, ◌*◌, ◌≤◌, ◌≡◌, refl, false, sym, ap, ◌∙◌, subst, List, [], ◌∷◌, ◌++◌, All, length,
  take, take-all, arith, inl, inr,
}
use v34_working.AudioSocket.Net.{Net, Poll}
use v34_working.AudioSocket.Writer.{written, sample_bytes}
use v34_working.AudioSocket.Reader.{
  Socket, Outcome, message, timeout, failed as read_failed, pending, overread, max_payload, read,
  init,
}
use v34_working.AudioSocket.Reader.Header.{IsEarly}
use v34_working.AudioSocket.Reader.Progress.{IsReady, read_completes}
use v34_working.AudioSocket.Reader.Resume.{Holds, Reads, read-Reads}
use v34_working.Call.Run.{to_samples}
use v34_working.Call.Line.{send_frames, after_read, read_frames}
use v34_working.Call.Line.Frames.{
  IsFrame, length-sample_bytes, to_samples-sample_bytes, wires, send_frames-wires,
}

-- The reader stands within the first of the frames that are still to come.
abbrev Stands : List (List ℕ) → Socket → Net → Type 0
Stands [] s net = Unit {0}
Stands (f ∷ fs) s net = Holds 0x10 (sample_bytes f) (wires fs) s net

-- Behind a message, the next one comes.
Stands-next :
    (fs : List (List ℕ)) (s : Socket) (net : Net)
    → s.rx_pending ≡ false
    → s.rxhead ≡ []
    → net.incoming ≡ wires fs
    → Stands fs s net
Stands-next [] s net idle empty at = tt
Stands-next (f ∷ fs) s net idle empty at =
    inl (record { idle = idle; position = rw empty at; partial = omega (arith, ap length empty) })

-- A first part of a list.
abbrev pub Begins : List (List ℕ) → List (List ℕ) → Type 0
Begins got all = (rest : List (List ℕ)) × (all ≡ got ++ rest)

Begins-cons : (f : List ℕ) (got all : List (List ℕ)) → Begins got all → Begins (f ∷ got) (f ∷ all)
Begins-cons f got all (rest, e) = (rest, ap (λ l. f ∷ l) e)

-- The samples of a frame's message.
to_samples-read : (f : List ℕ) → IsFrame f → to_samples (take max_payload (sample_bytes f)) ≡ f
to_samples-read f k =
    ap to_samples
      (take-all max_payload (sample_bytes f) (omega (arith, length-sample_bytes f, k.1)))
    ∙ to_samples-sample_bytes f k.0

-- A read that ends early is followed by another.
after_read-early :
    (more : ℕ → List (List ℕ)) (n : ℕ) (o : Outcome)
    → IsEarly o
    → after_read more n o ≡ more (suc n)
unfolding after_read
after_read-early more n (message kind bytes len) e = absurd e
after_read-early more n timeout e = refl
after_read-early more n read_failed e = refl
after_read-early more n pending e = refl
after_read-early more n overread e = refl

after_read-message :
    (more : ℕ → List (List ℕ)) (n : ℕ) (f : List ℕ) (o : Outcome)
    → IsFrame f
    → o ≡ message 0x10 (take max_payload (sample_bytes f)) (length (sample_bytes f))
    → after_read more n o ≡ f ∷ more n
unfolding after_read
after_read-message more n f o k e =
    ap (after_read more n) e ∙ ap (λ x. x ∷ more n) (to_samples-read f k)

after_read-Begins :
    (more : ℕ → List (List ℕ)) (f : List ℕ) (fs : List (List ℕ)) (o : Outcome) (s : Socket)
    (net : Net)
    → IsFrame f
    → Reads max_payload 0x10 (sample_bytes f) (wires fs) (o, s, net)
    → (Stands (f ∷ fs) s net → Begins (more (suc (length fs))) (f ∷ fs))
    → (Stands fs s net → Begins (more (length fs)) fs)
    → Begins (after_read more (length fs) o) (f ∷ fs)
after_read-Begins more f fs o s net k (inl (early, holds)) again next =
    subst (λ l. Begins l (f ∷ fs)) (sym (after_read-early more (length fs) o early)) (again holds)
after_read-Begins more f fs o s net k (inr (e, idle, empty, at)) again next =
    subst (λ l. Begins l (f ∷ fs)) (sym (after_read-message more (length fs) f o k e))
      (Begins-cons f (more (length fs)) fs (next (Stands-next fs s net idle empty at)))

-- The polls of a round are no part of where the reader stands.
Holds-polls :
    (f rest : List ℕ) (s : Socket) (net : Net) (ps : List Poll)
    → Holds 0x10 (sample_bytes f) rest s net
    → Holds 0x10 (sample_bytes f) rest s (record net { polls = ps })
Holds-polls f rest s net ps (inl a) =
    inl (record { idle = a.idle; position = a.position; partial = a.partial })
Holds-polls f rest s net ps (inr a) = inr (record {
  busy = a.busy;
  same_kind = a.same_kind;
  whole = a.whole;
  partial = a.partial;
  kept = a.kept;
  position = a.position;
})

read_frames-Begins :
    (rounds : List (List Poll)) (fs : List (List ℕ)) (s : Socket) (net : Net)
    → All IsFrame fs
    → Stands fs s net
    → Begins (read_frames rounds (length fs) s net) fs
unfolding read_frames
read_frames-Begins [] fs s net all st = (fs, refl)
read_frames-Begins (ps ∷ rounds) [] s net all st = ([], refl)
read_frames-Begins (ps ∷ rounds) (f ∷ fs) s net (k, all) st =
    let (o, s', net') = read max_payload s (record net { polls = ps }) in
    after_read-Begins (λ n. read_frames rounds n s' net') f fs o s' net' k
      (read-Reads max_payload 0x10 (sample_bytes f) (wires fs) s (record net { polls = ps })
        (omega arith) (Holds-polls f (wires fs) s net ps st))
      (λ again. read_frames-Begins rounds (f ∷ fs) s' net' (k, all) again)
      (λ next. read_frames-Begins rounds fs s' net' all next)

-- There is a round for each frame, whose polls hand over bytes and are as many as its message has.
abbrev pub AreSteady : List (List ℕ) → List (List Poll) → Type 0
AreSteady [] rounds = Unit {0}
AreSteady (f ∷ fs) [] = ⊥
AreSteady (f ∷ fs) (ps ∷ rounds) =
    All IsReady ps × (3 + 2 * length f ≤ length ps) × AreSteady fs rounds

-- A read that completes its message leaves the reader before the next one.
behind :
    (f rest : List ℕ) (o : Outcome) (s : Socket) (net : Net)
    → o ≡ message 0x10 (take max_payload (sample_bytes f)) (length (sample_bytes f))
    → Reads max_payload 0x10 (sample_bytes f) rest (o, s, net)
    → (s.rx_pending ≡ false) × (s.rxhead ≡ []) × (net.incoming ≡ rest)
behind f rest o s net e (inl (early, h)) = absurd (subst IsEarly e early)
behind f rest o s net e (inr (e', idle, empty, at)) = (idle, empty, at)

read_frames_lem :
    (rounds : List (List Poll)) (fs : List (List ℕ)) (s : Socket) (net : Net)
    → All IsFrame fs
    → AreSteady fs rounds
    → s.rx_pending ≡ false
    → s.rxhead ≡ []
    → net.incoming ≡ wires fs
    → read_frames rounds (length fs) s net ≡ fs
unfolding read_frames
read_frames_lem [] [] s net all steady idle empty at = refl
read_frames_lem (ps ∷ rounds) [] s net all steady idle empty at = refl
read_frames_lem [] (f ∷ fs) s net all steady idle empty at = absurd steady
read_frames_lem (ps ∷ rounds) (f ∷ fs) s net (k, all) (flow, many, steady) idle empty at =
    let net₁ = record net { polls = ps } in
    let (o, s', net') = read max_payload s net₁ in
    let bytes = sample_bytes f in
    let (done, _) =
      read_completes max_payload 0x10 bytes (wires fs) s net₁ (omega arith) idle empty at
        (flow, omega (arith, many, length-sample_bytes f)) in
    let (idle', empty', at') = behind f (wires fs) o s' net' done (
      read-Reads max_payload 0x10 bytes (wires fs) s net₁ (omega arith)
        (Stands-next (f ∷ fs) s net₁ idle empty at)) in
    after_read-message (λ n. read_frames rounds n s' net') (length fs) f o k done
    ∙ ap (λ l. f ∷ l) (read_frames_lem rounds fs s' net' all steady idle' empty' at')

-- The agent has written frames with success on a fresh connection, and the call reads from it.
module _ (fs : List (List ℕ)) (sender sender' receiver : Net) (rounds : List (List Poll))
    (all : All IsFrame fs) (fresh : sender.sent ≡ [])
    (e : send_frames fs sender ≡ (written, sender'))
    (joined : receiver.incoming ≡ sender'.sent) where
  arrived : receiver.incoming ≡ wires fs
  arrived = joined ∙ send_frames-wires fs sender sender' e ∙ ap (λ l. l ++ wires fs) fresh

  -- Audio frames of 16-bit samples, at most 2048 of them in each, that the agent has written with
  -- success come to the call whole and in order, however the sends cut them: what the call has
  -- read after some rounds of `sm_ast_read`, with timeouts and short reads in any place, is a first
  -- part of them.
  pub read_frames-send_frames : Begins (read_frames rounds (length fs) init receiver) fs
  unfolding init
  read_frames-send_frames =
      read_frames-Begins rounds fs init receiver all
        (Stands-next fs init receiver refl refl arrived)

  -- When there is a round of `sm_ast_read` for each of the frames that the agent has written with
  -- success, whose polls hand over bytes and are as many as the frame's message has bytes, the call
  -- has read exactly those frames: 16-bit samples, at most 2048 in each.
  pub read_frames-AreSteady :
      AreSteady fs rounds → read_frames rounds (length fs) init receiver ≡ fs
  unfolding init
  read_frames-AreSteady steady =
      read_frames_lem rounds fs init receiver all steady refl refl arrived
