-- ===== src/AudioSocket/Reader/Progress.antt =====
-- The ends of the loops of `sm_ast_read`.
use v34_working.Base.{
  ℕ, zero, suc, ◌+◌, ◌-◌, ◌≤◌, ◌<◌, ◌≡◌, refl, sym, ap, subst, inl, inr, List, [], ◌∷◌, ◌++◌, Bool,
  true, false, none, some, All, ltb, min, length, take, drop, arith, length-take, length-append,
  length-drop, if_true, if_false, dec_lt, lt→ltb, ge→ltb, if◌then◌else◌,
}
use v34_working.AudioSocket.Net.{
  Net, Got, bytes, none_yet, closed, waiting, Poll, recv_loop, recv_into, received,
}
use v34_working.AudioSocket.Reader.{
  Socket, Outcome, message, overread, Run, max_payload, after_recv, header_loop, parse_header, want,
  store, payload_loop, finish, after_payload, read_payload, after_header, read,
}
use v34_working.AudioSocket.Reader.Header.{
  IsEarly, AtHeader, HeaderRun, AtHeader-advance, header_loop-HeaderRun,
}
use v34_working.AudioSocket.Reader.Payload.{AtPayload, AtPayload-advance}
use v34_working.AudioSocket.Reader.Resume.{wire, Reads, read-Reads, parse_header-AtPayload}

abbrev pub IsReady : Poll → Type 0
IsReady (Poll.ready n) = Unit
IsReady _ = ⊥

-- At least `n` more polls, all of which hand over bytes.
abbrev pub Flows : ℕ → Net → Type 0
Flows n net = All IsReady net.polls × (n ≤ length net.polls)

-- A read of something from a stream that flows succeeds and uses one poll.
abbrev Gives : ℕ → ℕ → Net → Got × Net → Type 0
Gives n wanted net (bytes bs, net') =
    (k : ℕ) × (k ≤ wanted)
    × (bs ≡ take k net.incoming)
    × (0 < length bs)
    × (net'.incoming ≡ drop k net.incoming)
    × Flows n net'
Gives n wanted net (_, net') = ⊥

received-Gives :
    (n wanted k : ℕ) (net net' : Net) (taken : List ℕ)
    → k ≤ wanted
    → taken ≡ take k net.incoming
    → 0 < length taken
    → net'.incoming ≡ drop k net.incoming
    → Flows n net'
    → Gives n wanted net (received taken, net')
received-Gives n wanted k net net' [] h e pos left f = absurd (omega arith)
received-Gives n wanted k net net' (b ∷ bs) h e pos left f = (k, h, e, pos, left, f)

recv_into-Gives :
    (n wanted : ℕ) (incoming sent : List ℕ) (ps : List Poll)
    → let net : Net = record { incoming = incoming; sent = sent; polls = ps } in
      0 < wanted
      → 0 < length incoming
      → Flows (suc n) net
      → Gives n wanted net (recv_into wanted net)
unfolding recv_into recv_loop
recv_into-Gives n wanted incoming sent [] w i f = absurd (omega (arith, f.1))
recv_into-Gives n wanted incoming sent (Poll.ready m ∷ ps) w i f =
    received-Gives n wanted (min wanted (suc m))
      (record { incoming = incoming; sent = sent; polls = Poll.ready m ∷ ps })
      (record { incoming = drop (min wanted (suc m)) incoming; sent = sent; polls = ps })
      (take (min wanted (suc m)) incoming) (omega arith) refl
      (omega (arith, length-take (min wanted (suc m)) incoming)) refl (f.0.1, omega (arith, f.1))
recv_into-Gives n wanted incoming sent (Poll.again ∷ ps) w i f = absurd f.0.0
recv_into-Gives n wanted incoming sent (Poll.timed_out ∷ ps) w i f = absurd f.0.0
recv_into-Gives n wanted incoming sent (Poll.broken ∷ ps) w i f = absurd f.0.0

after_recv_gives :
    (P : Run → Type 0) (next : List ℕ → Net → Run) (s : Socket) (n wanted : ℕ) (net : Net)
    (r : Got × Net)
    → Gives n wanted net r
    → ((bs : List ℕ) (k : ℕ) (net' : Net)
        → k ≤ wanted
        → bs ≡ take k net.incoming
        → 0 < length bs
        → net'.incoming ≡ drop k net.incoming
        → Flows n net'
        → P (next bs net'))
    → P (after_recv next s r)
unfolding after_recv
after_recv_gives P next s n wanted net (bytes bs, net') (k, h, e, pos, left, f) more =
    more bs k net' h e pos left f
after_recv_gives P next s n wanted net (none_yet, net') g more = absurd g
after_recv_gives P next s n wanted net (closed, net') g more = absurd g
after_recv_gives P next s n wanted net (waiting, net') g more = absurd g

-- A loop that came to its end with `n` polls to spare.
abbrev Ends : ℕ → Run → Type 0
Ends n (none, s, net) = Flows n net
Ends n (some o, s, net) = ⊥

pub Flows-mono : (n m : ℕ) (net : Net) → n ≤ m → Flows m net → Flows n net
Flows-mono n m net h f = (f.0, omega (arith, f.1))

header_loop-Ends :
    (fuel n : ℕ) (full : List ℕ) (s : Socket) (net : Net)
    → AtHeader full s net
    → 3 ≤ length full
    → Flows (fuel + n) net
    → Ends n (header_loop fuel s net)
unfolding header_loop
header_loop-Ends zero n full s net a long f = Flows-mono n (0 + n) net (omega arith) f
header_loop-Ends (suc fuel) n full s net a long f = elim (dec_lt (length s.rxhead) 3) [
  | no done ↦
      subst (Ends n) (sym (if_false _ _ _ (ge→ltb (length s.rxhead) 3 (omega arith))))
        (Flows-mono n (suc fuel + n) net (omega arith) f)
  | yes more ↦ subst (Ends n) (sym (if_true _ _ _ (lt→ltb (length s.rxhead) 3 more))) (
      after_recv_gives (Ends n) _ s (fuel + n) (3 - length s.rxhead) net _
        (recv_into-Gives (fuel + n) (3 - length s.rxhead) net.incoming net.sent net.polls
          (omega arith) (omega (arith, length-append s.rxhead net.incoming, ap length a.position))
          (Flows-mono _ _ net (omega arith) f))
        (λ bs k net' h e pos left f'.
          header_loop-Ends fuel n full _ net' (AtHeader-advance full s net net' bs k a h e left)
            long f'))
]

want_pos : (s : Socket) → s.rxlen < s.rx_expected → 0 < want s
want_pos s h = ground arith

payload_loop-Ends :
    (fuel kind : ℕ) (payload rest : List ℕ) (s : Socket) (net : Net)
    → AtPayload kind payload rest s net
    → Flows fuel net
    → Ends 0 (payload_loop fuel s net)
unfolding payload_loop
payload_loop-Ends zero kind payload rest s net a f = f
payload_loop-Ends (suc fuel) kind payload rest s net a f = elim (dec_lt s.rxlen s.rx_expected) [
  | no done ↦
      subst (Ends 0) (sym (if_false _ _ _ (ge→ltb s.rxlen s.rx_expected (omega arith))))
        (Flows-mono 0 (suc fuel) net (omega arith) f)
  | yes more ↦ subst (Ends 0) (sym (if_true _ _ _ (lt→ltb s.rxlen s.rx_expected more))) (
      after_recv_gives (Ends 0) _ s fuel (want s) net _
        (recv_into-Gives fuel (want s) net.incoming net.sent net.polls (want_pos s more)
          (omega (
            arith,
            ap length a.position,
            length-append (drop s.rxlen payload) rest,
            length-drop s.rxlen payload,
            a.whole,
          ))
          f)
        (λ bs k net' h e pos left f'.
          payload_loop-Ends fuel kind payload rest (store s bs) net'
            (AtPayload-advance kind payload rest s net net' bs k a h e left) f'))
]

abbrev IsMessage : Outcome × Socket × Net → Type 0
IsMessage (o, s, net) = ¬ IsEarly o

not-IsEarly :
    (b : Bool) (kind : ℕ) (payload : List ℕ) (n : ℕ)
    → ¬ IsEarly (if b then overread else message kind payload n)
not-IsEarly true kind payload n h = h
not-IsEarly false kind payload n h = h

after_payload-IsMessage : (buf_len : ℕ) (r : Run) → Ends 0 r → IsMessage (after_payload buf_len r)
unfolding after_payload finish
after_payload-IsMessage buf_len (none, s, net) e =
    not-IsEarly (ltb max_payload (min s.rx_expected buf_len)) s.rx_kind _ s.rx_expected
after_payload-IsMessage buf_len (some o, s, net) e = absurd e

after_header-IsMessage :
    (buf_len kind : ℕ) (payload rest : List ℕ) (r : Run)
    → HeaderRun (wire kind payload ++ rest) r
    → Ends (length payload) r
    → IsMessage (after_header buf_len r)
unfolding after_header read_payload
after_header-IsMessage buf_len kind payload rest (none, s, net) (a, full) f =
    let a' = parse_header-AtPayload kind payload rest s net a full in
    after_payload-IsMessage buf_len _ (
      payload_loop-Ends ((parse_header s).rx_expected - (parse_header s).rxlen) kind payload rest
        (parse_header s) net a'
        (Flows-mono ((parse_header s).rx_expected - (parse_header s).rxlen) (length payload) net
          (omega (arith, a'.whole)) f))
after_header-IsMessage buf_len kind payload rest (some o, s, net) r e = absurd e

-- A read that starts at a message, with a buffer of at most `rxbuf`, completes the message if the
-- coming polls all hand over bytes and are at least as many as the message has bytes.
pub read_completes :
    (buf_len kind : ℕ) (payload rest : List ℕ) (s : Socket) (net : Net)
    → buf_len ≤ max_payload
    → s.rx_pending ≡ false
    → s.rxhead ≡ []
    → net.incoming ≡ wire kind payload ++ rest
    → Flows (3 + length payload) net
    → ((read buf_len s net).0 ≡ message kind (take buf_len payload) (length payload))
      × ((read buf_len s net).2.incoming ≡ rest)
read_completes buf_len kind payload rest s net fits idle empty at flows =
    finished (read-Reads buf_len kind payload rest s net fits (inl start))
  where
    start : AtHeader (wire kind payload ++ rest) s net
    start = record { idle = idle; position = rw empty at; partial = omega (arith, ap length empty) }

    ends : IsMessage (read buf_len s net)
    ends =
        unfold read in
        subst IsMessage (sym (if_false s.rx_pending _ _ idle)) (
          after_header-IsMessage buf_len kind payload rest _
            (header_loop-HeaderRun (3 - length s.rxhead) (wire kind payload ++ rest) s net start
              (omega (arith, start.partial)))
            (header_loop-Ends (3 - length s.rxhead) (length payload) (wire kind payload ++ rest) s
              net start (omega arith) (Flows-mono _ _ net (omega arith) flows)))

    finished :
        Reads buf_len kind payload rest (read buf_len s net)
        → ((read buf_len s net).0 ≡ message kind (take buf_len payload) (length payload))
          × ((read buf_len s net).2.incoming ≡ rest)
    finished (inl early) = absurd (ends early.0)
    finished (inr (e, _, _, left)) = (e, left)
