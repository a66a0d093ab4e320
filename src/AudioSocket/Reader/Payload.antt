-- ===== src/AudioSocket/Reader/Payload.antt =====
-- Phase 2 of `sm_ast_read`: the payload put together from partial reads.
use v34_working.Base.{
  dec_lt, lt→ltb, ge→ltb, ℕ, zero, suc, ◌+◌, ◌-◌, ◌≤◌, ◌<◌, ◌≡◌, ap, ◌∙◌, List, ◌++◌, true, none,
  some, min, length, take, drop, arith, take-append_le, drop-append_le, drop-drop, take-append-take,
  length-take, length-drop,
}
use v34_working.AudioSocket.Net.{Net}
use v34_working.AudioSocket.Reader.{Socket, Run, max_payload, want, store, payload_loop}
use v34_working.AudioSocket.Reader.Header.{recv_into-Receives, after_recv_rule, IsEarly}

-- The payload bytes taken so far, of which `rxbuf` keeps what it can hold.
pub record AtPayload (kind : ℕ) (payload rest : List ℕ) (s : Socket) (net : Net) : Type 0 where
  pub busy : s.rx_pending ≡ true
  pub same_kind : s.rx_kind ≡ kind
  pub whole : s.rx_expected ≡ length payload
  pub partial : s.rxlen ≤ length payload
  pub kept : s.rxbuf ≡ take (min s.rxlen max_payload) payload
  pub position : net.incoming ≡ drop s.rxlen payload ++ rest

AtPayload-still :
    (kind : ℕ) (payload rest : List ℕ) (s : Socket) (net net' : Net)
    → AtPayload kind payload rest s net
    → net'.incoming ≡ net.incoming
    → AtPayload kind payload rest s net'
AtPayload-still kind payload rest s net net' a e = record {
  busy = a.busy;
  same_kind = a.same_kind;
  whole = a.whole;
  partial = a.partial;
  kept = a.kept;
  position = e ∙ a.position;
}

pub want-le : (s : Socket) → want s ≤ s.rx_expected - s.rxlen
want-le s = ground arith

want_room : (s : Socket) → s.rxlen < max_payload → want s ≤ max_payload - s.rxlen
want_room s h = ground arith

kept-store :
    (payload : List ℕ) (s : Socket) (bs : List ℕ) (k : ℕ)
    → s.rxbuf ≡ take (min s.rxlen max_payload) payload
    → bs ≡ take k (drop s.rxlen payload)
    → length bs ≡ k
    → k ≤ want s
    → (store s bs).rxbuf ≡ take (min (store s bs).rxlen max_payload) payload
kept-store payload s bs k kept e size h = elim (dec_lt s.rxlen max_payload) [
  | yes room ↦
      let below : min s.rxlen max_payload ≡ s.rxlen = omega arith in
      let buf : s.rxbuf ≡ take s.rxlen payload = rw below at kept in
      rw (lt→ltb s.rxlen max_payload room, buf, e)
        (take-append-take s.rxlen k _ payload
          (omega (arith, want_room s room, length-take k (drop s.rxlen payload), ap length e)))
  | no full ↦
      let same : min s.rxlen max_payload ≡ min (s.rxlen + length bs) max_payload = omega arith in
      rw (ge→ltb s.rxlen max_payload (omega arith), ← same) kept
]

pub AtPayload-advance :
    (kind : ℕ) (payload rest : List ℕ) (s : Socket) (net net' : Net) (bs : List ℕ) (k : ℕ)
    → AtPayload kind payload rest s net
    → k ≤ want s
    → bs ≡ take k net.incoming
    → net'.incoming ≡ drop k net.incoming
    → AtPayload kind payload rest (store s bs) net'
AtPayload-advance kind payload rest s net net' bs k a h e left = record {
  busy = a.busy;
  same_kind = a.same_kind;
  whole = a.whole;
  partial = omega (arith, size, a.partial, a.whole, want-le s);
  kept = kept-store payload s bs k a.kept taken size h;
  position =
      left
      ∙ ap (drop k) a.position
      ∙ drop-append_le k (drop s.rxlen payload) rest fits
      ∙ ap (λ l. l ++ rest)
          (drop-drop s.rxlen k (s.rxlen + length bs) payload (omega (arith, size)));
}
  where
    fits : k ≤ length (drop s.rxlen payload)
    fits = omega (arith, length-drop s.rxlen payload, want-le s, a.whole)

    taken : bs ≡ take k (drop s.rxlen payload)
    taken = e ∙ ap (take k) a.position ∙ take-append_le k (drop s.rxlen payload) rest fits

    size : length bs ≡ k
    size = omega (arith, ap length taken, length-take k (drop s.rxlen payload), fits)

abbrev pub PayloadRun : ℕ → List ℕ → List ℕ → Run → Type 0
PayloadRun kind payload rest (none, s, net) =
    AtPayload kind payload rest s net × (s.rxlen ≡ length payload)
PayloadRun kind payload rest (some o, s, net) = IsEarly o × AtPayload kind payload rest s net

pub payload_loop-PayloadRun :
    (fuel kind : ℕ) (payload rest : List ℕ) (s : Socket) (net : Net)
    → AtPayload kind payload rest s net
    → length payload ≤ s.rxlen + fuel
    → PayloadRun kind payload rest (payload_loop fuel s net)
unfolding payload_loop
payload_loop-PayloadRun zero kind payload rest s net a enough = (a, omega (arith, a.partial))
payload_loop-PayloadRun (suc fuel) kind payload rest s net a enough =
    elim (dec_lt s.rxlen s.rx_expected) [
      | no done ↦
          rw (ge→ltb s.rxlen s.rx_expected (omega arith)) (a, omega (arith, a.partial, a.whole))
      | yes more ↦ rw (lt→ltb s.rxlen s.rx_expected more) (
          after_recv_rule (PayloadRun kind payload rest) _ s (want s) net.incoming _ _
            (recv_into-Receives (want s) net)
            (λ o early left. (early, AtPayload-still kind payload rest s net _ a left))
            (λ bs k h e pos left.
              payload_loop-PayloadRun fuel kind payload rest (store s bs) _
                (AtPayload-advance kind payload rest s net _ bs k a h e left) (omega arith)))
    ]
