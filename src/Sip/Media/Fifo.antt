-- ===== src/Sip/Media/Fifo.antt =====
-- The ring of slots as a queue of frames.
use v34_working.Base.{
  ℕ, zero, suc, ◌+◌, ◌-◌, ◌%◌, ◌≤◌, ◌<◌, ◌≡◌, ◌≢◌, refl, sym, ap, ap₂, ◌∙◌, subst, ◌⊎◌, inl, inr,
  List, [], ◌∷◌, ◌++◌, ◌==◌, ==_iff, length, length-take, take, drop, replicate, update, arith,
  if◌then◌else◌, if_true, if_false, ℕ_discrete,
}
use v34_working.Sip.Rtp.{max_payload}
use v34_working.Sip.Media.{slots, Pump, store, enqueue_rx, next_frame}

-- `n` slots from one on.
abbrev window : (ℕ → List ℕ) → ℕ → ℕ → List (List ℕ)
window rxq t zero = []
window rxq t (suc n) = rxq t ∷ window rxq ((t + 1) % slots) n

abbrev pub count : Pump → ℕ
count p = (p.head + slots - p.tail) % slots

-- The frames that wait, oldest first.
abbrev pub contents : Pump → List (List ℕ)
contents p = window p.rxq p.tail (count p)

-- The indices are in range, and every frame fits the buffer that it is copied to.
pub record IsValid (p : Pump) : Type 0 where
  pub head_slot : p.head < slots
  pub tail_slot : p.tail < slots
  pub frames : (i : ℕ) → length (p.rxq i) ≤ max_payload
  pub silence : p.tick_ns ≤ max_payload

window-update :
    (rxq : ℕ → List ℕ) (f : List ℕ) (t n i : ℕ)
    → n < slots
    → t < slots
    → i ≡ (t + n) % slots
    → window (update rxq i f) t (suc n) ≡ window rxq t n ++ f ∷ []
window-update rxq f t zero i h ht e = ground arith
window-update rxq f t (suc n) i h ht e =
    ap₂ ◌∷◌ (ground arith)
      (window-update rxq f ((t + 1) % slots) n i (omega arith) (omega arith) (omega arith))

-- What room for one more frame costs.
abbrev pub make_room : List (List ℕ) → List (List ℕ)
make_room fs = if length fs == 31 then drop 1 fs else fs

length-window : (rxq : ℕ → List ℕ) (t n : ℕ) → length (window rxq t n) ≡ n
length-window rxq t zero = refl
length-window rxq t (suc n) = ap suc (length-window rxq ((t + 1) % slots) n)

update-fits :
    (rxq : ℕ → List ℕ) (f : List ℕ) (i : ℕ)
    → ((j : ℕ) → length (rxq j) ≤ max_payload)
    → length f ≤ max_payload
    → (j : ℕ) → length (update rxq i f j) ≤ max_payload
update-fits rxq f i h hf j = elim (ℕ_discrete j i) [
  | yes e ↦ subst (λ g. length g ≤ max_payload) (sym (if_true (j == i) _ _ ((==_iff j i).1 e))) hf
  | no ne ↦ subst (λ g. length g ≤ max_payload) (sym (if_false (j == i) _ _ (ground arith))) (h j)
]

-- The queue with its oldest frame given up, and with a frame in the next slot.
abbrev freed : Pump → Pump
freed p = record p { tail = (p.tail + 1) % slots; drops = p.drops + 1 }

abbrev filled : Pump → List ℕ → Pump → Pump
filled p f p' = record p' {
  rxq = update p.rxq p.head f;
  head = (p.head + 1) % slots;
  tick_ns = length f;
}

store_full :
    (p : Pump) (f : List ℕ) → (p.head + 1) % slots ≡ p.tail → store p f ≡ filled p f (freed p)
unfolding store
store_full p f e = ap (filled p f) (
    if_true ((p.head + 1) % slots == p.tail) (freed p) p
      ((==_iff ((p.head + 1) % slots) p.tail).1 e))

store_room : (p : Pump) (f : List ℕ) → (p.head + 1) % slots ≢ p.tail → store p f ≡ filled p f p
unfolding store
store_room p f ne =
    ap (filled p f) (if_false ((p.head + 1) % slots == p.tail) (freed p) p (ground arith))

contents_full :
    (p : Pump) (f : List ℕ)
    → IsValid p
    → count p ≡ 31
    → contents (store p f) ≡ drop 1 (contents p) ++ f ∷ []
contents_full p f v full =
    let behind = (p.tail + 1) % slots in
    let kept : count (filled p f (freed p)) ≡ 31 = omega (arith, v.head_slot, v.tail_slot) in
    ap contents (store_full p f (omega (arith, v.head_slot, v.tail_slot)))
    ∙ ap (window (update p.rxq p.head f) behind) kept
    ∙ window-update p.rxq f behind 30 p.head (omega arith) (omega arith)
        (omega (arith, v.head_slot, v.tail_slot))
    ∙ ap (λ fs. drop 1 fs ++ f ∷ []) (ap (window p.rxq p.tail) (sym full))

contents_room :
    (p : Pump) (f : List ℕ) → IsValid p → count p < 31 → contents (store p f) ≡ contents p ++ f ∷ []
contents_room p f v room =
    let more : count (filled p f p) ≡ suc (count p) = omega (arith, v.head_slot, v.tail_slot) in
    ap contents (store_room p f (omega (arith, v.head_slot, v.tail_slot)))
    ∙ ap (window (update p.rxq p.head f) p.tail) more
    ∙ window-update p.rxq f p.tail (count p) p.head (omega arith) v.tail_slot
        (omega (arith, v.head_slot, v.tail_slot))

filled-IsValid :
    (p p' : Pump) (f : List ℕ)
    → IsValid p
    → p'.tail < slots
    → length f ≤ max_payload
    → IsValid (filled p f p')
filled-IsValid p p' f v h fits = record {
  head_slot = omega arith;
  tail_slot = h;
  frames = update-fits p.rxq f p.head v.frames fits;
  silence = fits;
}

store-IsValid : (p : Pump) (f : List ℕ) → IsValid p → length f ≤ max_payload → IsValid (store p f)
store-IsValid p f v fits = elim (ℕ_discrete ((p.head + 1) % slots) p.tail) [
  | yes e ↦
      subst IsValid (sym (store_full p f e)) (filled-IsValid p (freed p) f v (omega arith) fits)
  | no ne ↦ subst IsValid (sym (store_room p f ne)) (filled-IsValid p p f v v.tail_slot fits)
]

store-contents :
    (p : Pump) (f : List ℕ) → IsValid p → contents (store p f) ≡ make_room (contents p) ++ f ∷ []
store-contents p f v =
    let len = length-window p.rxq p.tail (count p) in
    elim (ℕ_discrete (count p) 31) [
      | yes e ↦
          contents_full p f v e
          ∙ ap (λ fs. fs ++ f ∷ [])
              (sym (
                if_true (length (contents p) == 31) _ _
                  ((==_iff (length (contents p)) 31).1 (len ∙ e))))
      | no ne ↦
          contents_room p f v (omega arith)
          ∙ ap (λ fs. fs ++ f ∷ [])
              (sym (if_false (length (contents p) == 31) _ _ (ground (arith, len))))
    ]

-- A frame with samples, cut to 1024, goes to the end of a valid queue, and only if 31 frames wait
-- already is the oldest given up. The queue stays valid.
pub enqueue_rx_lem :
    (p : Pump) (pcm : List ℕ)
    → IsValid p
    → 0 < length pcm
    → (contents (enqueue_rx p pcm) ≡ make_room (contents p) ++ take max_payload pcm ∷ [])
      × IsValid (enqueue_rx p pcm)
unfolding enqueue_rx
enqueue_rx_lem p [] v pos = absurd (omega arith)
enqueue_rx_lem p (x ∷ xs) v pos =
    let f = take max_payload (x ∷ xs) in
    (store-contents p f v, store-IsValid p f v (omega (arith, length-take max_payload (x ∷ xs))))

length-replicate_zero : (n : ℕ) → length {A = ℕ} (replicate n 0) ≡ n
length-replicate_zero zero = refl
length-replicate_zero (suc n) = ap suc (length-replicate_zero n)

-- What a tick of a pump may give.
abbrev pub Ticks : Pump → List ℕ × Pump → Type 0
Ticks p (frame, p') =
    (((contents p ≡ []) × (frame ≡ replicate p.tick_ns 0) × (contents p' ≡ []))
      ⊎ (contents p ≡ frame ∷ contents p'))
    × (length frame ≤ max_payload)
    × IsValid p'

-- On each tick of a valid pump the daemon gets the oldest frame that waits, which leaves the
-- queue, or, when none waits, as much silence as the last frame had samples. Either fits the buffer
-- of 1024 samples, and the queue stays valid.
pub next_frame-Ticks : (p : Pump) → IsValid p → Ticks p (next_frame p)
unfolding next_frame
next_frame-Ticks p v = elim (ℕ_discrete p.head p.tail) [
  | yes e ↦
      let zero_left : count p ≡ 0 = omega (arith, v.head_slot, v.tail_slot) in
      let empty = ap (window p.rxq p.tail) zero_left in
      subst (Ticks p)
        (sym (
          if_true (p.head == p.tail)
            (replicate p.tick_ns 0, record p { underruns = p.underruns + 1 })
            (p.rxq p.tail, record p { tail = (p.tail + 1) % slots }) ((==_iff p.head p.tail).1 e)))
        (
          inl (empty, refl, empty),
          omega (arith, length-replicate_zero p.tick_ns, v.silence),
          record {
            head_slot = v.head_slot;
            tail_slot = v.tail_slot;
            frames = v.frames;
            silence = v.silence;
          },
        )
  | no ne ↦
      let p' : Pump = record p { tail = (p.tail + 1) % slots } in
      let one_less : count p ≡ suc (count p') = omega (arith, v.head_slot, v.tail_slot) in
      subst (Ticks p)
        (sym (
          if_false (p.head == p.tail)
            (replicate p.tick_ns 0, record p { underruns = p.underruns + 1 }) (p.rxq p.tail, p')
            (ground arith)))
        (
          inr (ap (window p.rxq p.tail) one_less),
          v.frames p.tail,
          record {
            head_slot = v.head_slot;
            tail_slot = omega arith;
            frames = v.frames;
            silence = v.silence;
          },
        )
]
