-- ===== src/AudioSocket/Reader/Header.antt =====
-- Phase 1 of `sm_ast_read`: what a `recv_into` takes, and the header put together from it.
use v34_working.Base.{
  dec_lt, lt→ltb, ge→ltb, ℕ, zero, suc, ◌+◌, ◌-◌, ◌≤◌, ◌<◌, ◌≡◌, refl, sym, ap, ◌∙◌, List, [], ◌∷◌,
  ◌++◌, false, none, some, min, length, take, drop, append_assoc, arith, take-append-drop,
  length-take, length-append, drop_of_take_nil,
}
use v34_working.AudioSocket.Net.{
  Net, Got, bytes, none_yet, closed, waiting, Poll, recv_loop, recv_into, received,
}
use v34_working.AudioSocket.Reader.{
  Socket, Outcome, message, timeout, failed, pending, overread, Run, after_recv, header_loop,
}

-- A read takes at most the bytes asked for off the front of the stream, and at least one; else it
-- leaves the stream alone.
abbrev pub Receives : ℕ → List ℕ → Got → List ℕ → Type 0
Receives wanted incoming (bytes bs) left =
    (k : ℕ) × (k ≤ wanted) × (bs ≡ take k incoming) × (0 < length bs) × (left ≡ drop k incoming)
Receives wanted incoming none_yet left = left ≡ incoming
Receives wanted incoming closed left = left ≡ incoming
Receives wanted incoming waiting left = left ≡ incoming

received-Receives :
    (k wanted : ℕ) (incoming taken : List ℕ)
    → k ≤ wanted
    → taken ≡ take k incoming
    → Receives wanted incoming (received taken) (drop k incoming)
received-Receives k wanted incoming [] h e = drop_of_take_nil k incoming (sym e)
received-Receives k wanted incoming (b ∷ bs) h e = (k, h, e, omega arith, refl)

recv_loop-Receives :
    (wanted : ℕ) (incoming : List ℕ) (ps : List Poll)
    → let (g, left, _) = recv_loop wanted incoming ps in Receives wanted incoming g left
unfolding recv_loop
recv_loop-Receives wanted incoming [] = refl
recv_loop-Receives wanted incoming (Poll.again ∷ ps) = recv_loop-Receives wanted incoming ps
recv_loop-Receives wanted incoming (Poll.timed_out ∷ ps) = refl
recv_loop-Receives wanted incoming (Poll.broken ∷ ps) = refl
recv_loop-Receives wanted incoming (Poll.ready n ∷ ps) =
    received-Receives (min wanted (suc n)) wanted incoming _ (omega arith) refl

pub recv_into-Receives :
    (wanted : ℕ) (net : Net)
    → let (g, net') = recv_into wanted net in Receives wanted net.incoming g net'.incoming
unfolding recv_into
recv_into-Receives wanted net = recv_loop-Receives wanted net.incoming net.polls

-- The outcomes of an early return.
abbrev pub IsEarly : Outcome → Type 0
IsEarly timeout = Unit
IsEarly failed = Unit
IsEarly pending = Unit
IsEarly (message _ _ _) = ⊥
IsEarly overread = ⊥

-- To reason about what follows a read: an early return leaves the stream alone.
pub after_recv_rule :
    (P : Run → Type 0) (next : List ℕ → Net → Run) (s : Socket) (wanted : ℕ) (incoming : List ℕ)
    (g : Got) (net' : Net)
    → Receives wanted incoming g net'.incoming
    → ((o : Outcome) → IsEarly o → net'.incoming ≡ incoming → P (some o, s, net'))
    → ((bs : List ℕ) (k : ℕ)
        → k ≤ wanted
        → bs ≡ take k incoming
        → 0 < length bs
        → net'.incoming ≡ drop k incoming
        → P (next bs net'))
    → P (after_recv next s (g, net'))
unfolding after_recv
after_recv_rule P next s wanted incoming (bytes bs) net' (k, h, e, pos, left) early more =
    more bs k h e pos left
after_recv_rule P next s wanted incoming none_yet net' r early more = early timeout tt r
after_recv_rule P next s wanted incoming closed net' r early more = early failed tt r
after_recv_rule P next s wanted incoming waiting net' r early more = early pending tt r

-- The header bytes read so far and the stream behind them.
pub record AtHeader (full : List ℕ) (s : Socket) (net : Net) : Type 0 where
  pub idle : s.rx_pending ≡ false
  pub position : s.rxhead ++ net.incoming ≡ full
  pub partial : length s.rxhead ≤ 3

AtHeader-still :
    (full : List ℕ) (s : Socket) (net net' : Net)
    → AtHeader full s net
    → net'.incoming ≡ net.incoming
    → AtHeader full s net'
AtHeader-still full s net net' a e = record {
  idle = a.idle;
  position = rw e a.position;
  partial = a.partial;
}

pub AtHeader-advance :
    (full : List ℕ) (s : Socket) (net net' : Net) (bs : List ℕ) (k : ℕ)
    → AtHeader full s net
    → k ≤ 3 - length s.rxhead
    → bs ≡ take k net.incoming
    → net'.incoming ≡ drop k net.incoming
    → AtHeader full (record s { rxhead = s.rxhead ++ bs }) net'
AtHeader-advance full s net net' bs k a h e left = record {
  idle = a.idle;
  position =
      rw (left, e)
        (append_assoc s.rxhead (take k net.incoming) (drop k net.incoming)
          ∙ ap (λ l. s.rxhead ++ l) (take-append-drop k net.incoming)
          ∙ a.position);
  partial =
      omega (arith, length-append s.rxhead bs, ap length e, length-take k net.incoming, a.partial);
}

abbrev pub HeaderRun : List ℕ → Run → Type 0
HeaderRun full (none, s, net) = AtHeader full s net × (length s.rxhead ≡ 3)
HeaderRun full (some o, s, net) = IsEarly o × AtHeader full s net

pub header_loop-HeaderRun :
    (fuel : ℕ) (full : List ℕ) (s : Socket) (net : Net)
    → AtHeader full s net
    → 3 ≤ length s.rxhead + fuel
    → HeaderRun full (header_loop fuel s net)
unfolding header_loop
header_loop-HeaderRun zero full s net a enough = (a, omega (arith, a.partial))
header_loop-HeaderRun (suc fuel) full s net a enough = elim (dec_lt (length s.rxhead) 3) [
  | no done ↦ rw (ge→ltb (length s.rxhead) 3 (omega arith)) (a, omega (arith, a.partial))
  | yes more ↦ rw (lt→ltb (length s.rxhead) 3 more) (
      after_recv_rule (HeaderRun full) _ s (3 - length s.rxhead) net.incoming _ _
        (recv_into-Receives (3 - length s.rxhead) net)
        (λ o early left. (early, AtHeader-still full s net _ a left))
        (λ bs k h e pos left.
          header_loop-HeaderRun fuel full _ _ (AtHeader-advance full s net _ bs k a h e left)
            (omega (arith, length-append s.rxhead bs))))
]
