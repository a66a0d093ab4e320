-- ===== src/AudioSocket/Reader/Resume.antt =====
-- `sm_ast_read` on a stream that is cut into reads and timeouts.
use v34_working.Base.{
  take-min, get_or, subst, if_true, if_false, ge→ltb, ℕ, ◌-◌, ◌/◌, ◌%◌, ◌≤◌, ◌≡◌, refl, sym, ap,
  ◌∙◌, ◌⊎◌, inl, inr, List, [], ◌∷◌, ◌++◌, false, none, some, min, length, take, arith, take-take,
  drop-all, append_split,
}
use v34_working.AudioSocket.Net.{Net}
use v34_working.AudioSocket.Reader.{
  Socket, Outcome, message, Run, max_payload, parse_header, finish, read_payload, read,
  after_payload, after_header,
}
use v34_working.AudioSocket.Reader.Header.{IsEarly, AtHeader, HeaderRun, header_loop-HeaderRun}
use v34_working.AudioSocket.Reader.Payload.{AtPayload, PayloadRun, payload_loop-PayloadRun}

-- A message of the stream: kind, length in two bytes, payload.
abbrev pub wire : ℕ → List ℕ → List ℕ
wire kind payload = kind ∷ length payload / 256 ∷ length payload % 256 ∷ payload

-- The socket stands within the message that comes next in the stream, before `rest`.
abbrev pub Holds : ℕ → List ℕ → List ℕ → Socket → Net → Type 0
Holds kind payload rest s net =
    AtHeader (wire kind payload ++ rest) s net ⊎ AtPayload kind payload rest s net

-- What a read may do with the message that comes next.
abbrev pub Reads : ℕ → ℕ → List ℕ → List ℕ → Outcome × Socket × Net → Type 0
Reads buf_len kind payload rest (o, s, net) =
    (IsEarly o × Holds kind payload rest s net)
    ⊎ ((o ≡ message kind (take buf_len payload) (length payload))
        × (s.rx_pending ≡ false)
        × (s.rxhead ≡ [])
        × (net.incoming ≡ rest))

finish-Reads :
    (buf_len kind : ℕ) (payload rest : List ℕ) (s : Socket) (net : Net)
    → buf_len ≤ max_payload
    → AtPayload kind payload rest s net
    → s.rxlen ≡ length payload
    → Reads buf_len kind payload rest (finish buf_len s net)
unfolding finish
finish-Reads buf_len kind payload rest s net fits a all_in =
    rw (ge→ltb max_payload (min s.rx_expected buf_len) (omega arith))
      (inr (copied, refl, refl, arrived))
  where
    copy : take (min s.rx_expected buf_len) s.rxbuf ≡ take buf_len payload
    copy =
        rw (a.kept, all_in, a.whole)
          (take-take (min (length payload) buf_len) (min (length payload) max_payload) payload
              (omega arith)
            ∙ take-min buf_len payload)

    copied :
        message s.rx_kind (take (min s.rx_expected buf_len) s.rxbuf) s.rx_expected
        ≡ message kind (take buf_len payload) (length payload)
    copied = cc (copy, a.same_kind, a.whole)

    arrived : net.incoming ≡ rest
    arrived = a.position ∙ ap (λ l. l ++ rest) (drop-all s.rxlen payload (omega arith))

after_payload-Reads :
    (buf_len kind : ℕ) (payload rest : List ℕ) (r : Run)
    → buf_len ≤ max_payload
    → PayloadRun kind payload rest r
    → Reads buf_len kind payload rest (after_payload buf_len r)
unfolding after_payload
after_payload-Reads buf_len kind payload rest (none, s, net) fits (a, all_in) =
    finish-Reads buf_len kind payload rest s net fits a all_in
after_payload-Reads buf_len kind payload rest (some o, s, net) fits (early, a) = inl (early, inr a)

read_payload-Reads :
    (buf_len kind : ℕ) (payload rest : List ℕ) (s : Socket) (net : Net)
    → buf_len ≤ max_payload
    → AtPayload kind payload rest s net
    → Reads buf_len kind payload rest (read_payload buf_len s net)
unfolding read_payload
read_payload-Reads buf_len kind payload rest s net fits a =
    after_payload-Reads buf_len kind payload rest _ fits (
      payload_loop-PayloadRun (s.rx_expected - s.rxlen) kind payload rest s net a
        (omega (arith, a.whole, a.partial)))

pub parse_header-AtPayload :
    (kind : ℕ) (payload rest : List ℕ) (s : Socket) (net : Net)
    → AtHeader (wire kind payload ++ rest) s net
    → length s.rxhead ≡ 3
    → AtPayload kind payload rest (parse_header s) net
unfolding parse_header
parse_header-AtPayload kind payload rest s net a full =
    let (heads, tails) =
      append_split s.rxhead (kind ∷ length payload / 256 ∷ length payload % 256 ∷ []) net.incoming
        (payload ++ rest) full a.position in
    record {
      busy = refl;
      same_kind = ap (λ l. get_or l 0 0) heads;
      whole = rw heads (omega arith);
      partial = omega arith;
      kept = refl;
      position = tails;
    }

after_header-Reads :
    (buf_len kind : ℕ) (payload rest : List ℕ) (r : Run)
    → buf_len ≤ max_payload
    → HeaderRun (wire kind payload ++ rest) r
    → Reads buf_len kind payload rest (after_header buf_len r)
unfolding after_header
after_header-Reads buf_len kind payload rest (none, s, net) fits (a, full) =
    read_payload-Reads buf_len kind payload rest (parse_header s) net fits
      (parse_header-AtPayload kind payload rest s net a full)
after_header-Reads buf_len kind payload rest (some o, s, net) fits (early, a) = inl (early, inl a)

-- Within the next message of the stream, `sm_ast_read` either returns early, with a timeout or an
-- error, and still stands within that message, or it returns that message, with as much of the
-- payload as the caller's buffer holds and the payload's full length, and stands before what
-- follows. So it is, however the stream is cut into reads. The buffer is at most `rxbuf` long.
pub read-Reads :
    (buf_len kind : ℕ) (payload rest : List ℕ) (s : Socket) (net : Net)
    → buf_len ≤ max_payload
    → Holds kind payload rest s net
    → Reads buf_len kind payload rest (read buf_len s net)
unfolding read
read-Reads buf_len kind payload rest s net fits (inr a) =
    subst (Reads buf_len kind payload rest) (sym (if_true s.rx_pending _ _ a.busy))
      (read_payload-Reads buf_len kind payload rest s net fits a)
read-Reads buf_len kind payload rest s net fits (inl a) =
    subst (Reads buf_len kind payload rest) (sym (if_false s.rx_pending _ _ a.idle)) (
      after_header-Reads buf_len kind payload rest _ fits (
        header_loop-HeaderRun (3 - length s.rxhead) (wire kind payload ++ rest) s net a
          (omega (arith, a.partial))))
