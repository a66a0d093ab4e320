-- ===== src/Ppp/Relay/Stream.antt =====
-- What the shim reads and what it writes.
use v34_working.Base.{
  ℕ, ◌+◌, ◌-◌, ◌≤◌, ◌≡◌, refl, sym, ap, ap₂, ◌∙◌, subst, List, [], ◌∷◌, ◌++◌, append_assoc,
  append-nil, Bool, true, false, not, ◌&&◌, leb, ltb, ◌==◌, le→leb, min, length, length-take, take,
  if◌then◌else◌, if_true, if_false, arith, Bool-cases, inl, inr, All, ℕ_discrete, ==_iff,
}
use v34_working.Ppp.Relay.Window.{window-copy, window_split}
use v34_working.Ppp.Relay.{
  capacity, chunk, Buffer, Event, Read, ended, nothing, got, copy, append, window, served, Way,
  Taken, over, more, take_in, rewind, give_out, Report, pass, Shim, running, returned, first,
  second, round, relay, start,
}

-- A hang-up of the input comes with no bytes.
abbrev CalmRead : Event → Read → Type 0
CalmRead e (got xs) = e.hangup ≡ false
CalmRead e _ = Unit {0}

abbrev pub IsCalm : Report → Type 0
IsCalm q = CalmRead q.input q.read

-- The bytes read are those written and then those in the buffer, which is within its first half.
pub record IsOrdered (w : Way) : Type 0 where
  pub in_order :
      w.taken ≡ w.given ++ window w.buffer.bytes w.buffer.off (w.buffer.len - w.buffer.off)
  pub within : w.buffer.off ≤ w.buffer.len
  pub fits : w.buffer.len ≤ chunk

-- Bytes that go into an empty buffer.
append-IsOrdered :
    (w : Way) (xs : List ℕ)
    → w.buffer.len ≡ 0
    → length xs ≤ chunk
    → IsOrdered w
    → IsOrdered (record w { buffer = append w.buffer xs; taken = w.taken ++ xs })
unfolding append
append-IsOrdered w xs z h o =
    let b = w.buffer in
    let none_left : b.len - b.off ≡ 0 = omega (arith, o.within) in
    let all_new : b.len + length xs - b.off ≡ length xs = omega (arith, o.within) in
    let start : b.off ≡ b.len = omega (arith, o.within) in
    let same : w.taken ≡ w.given =
      o.in_order
      ∙ ap (λ (n : ℕ). w.given ++ window b.bytes b.off n) none_left
      ∙ append-nil w.given in
    let placed : window (append b xs).bytes b.off (b.len + length xs - b.off) ≡ xs =
      ap (λ (n : ℕ). window (append b xs).bytes b.off n) all_new
      ∙ ap (λ bytes. window bytes b.off (length xs))
          (if_true (leb (b.len + length xs) capacity) _ _
            (le→leb (b.len + length xs) capacity (omega arith)))
      ∙ ap (λ (i : ℕ). window (copy b.bytes b.len xs) i (length xs)) start
      ∙ window-copy b.bytes b.len xs in
    record {
      in_order = ap₂ ◌++◌ same (sym placed);
      within = omega (arith, o.within);
      fits = omega arith;
    }

rewind-IsOrdered :
    (b : Buffer) (taken given : List ℕ)
    → IsOrdered (record { buffer = b; taken = taken; given = given })
    → IsOrdered (record { buffer = rewind b; taken = taken; given = given })
unfolding rewind
rewind-IsOrdered b taken given o = elim (ℕ_discrete b.off b.len) [
  | yes e ↦
      subst (λ b'. IsOrdered (record { buffer = b'; taken = taken; given = given }))
        (sym (if_true (b.off == b.len) _ _ ((==_iff b.off b.len).1 e)))
        (let zero_left : b.len - b.off ≡ 0 = omega arith in
          record {
            in_order = o.in_order ∙ ap (λ (n : ℕ). given ++ window b.bytes b.off n) zero_left;
            within = omega arith;
            fits = omega arith;
          })
  | no ne ↦
      subst (λ b'. IsOrdered (record { buffer = b'; taken = taken; given = given }))
        (sym (if_false (b.off == b.len) _ _ (ground arith))) o
]

-- The writing half keeps the order.
give_out-IsOrdered :
    (asked : Bool) (e : Event) (k : ℕ) (w : Way) → IsOrdered w → IsOrdered (give_out asked e k w)
unfolding give_out
give_out-IsOrdered asked e k w o =
    let b = w.buffer in
    let r = min k (b.len - b.off) in
    let b' = record b { off = b.off + r } in
    let given = w.given ++ window b.bytes b.off r in
    let left : b.len - b.off - r ≡ b.len - (b.off + r) = omega arith in
    let moved : IsOrdered (record { buffer = b'; taken = w.taken; given = given }) = record {
      in_order =
          o.in_order
          ∙ ap (λ l. w.given ++ l)
              (window_split b.bytes r b.off (b.len - b.off) (omega arith)
                ∙ ap (λ (n : ℕ). window b.bytes b.off r ++ window b.bytes (b.off + r) n) left)
          ∙ sym (append_assoc w.given (window b.bytes b.off r) _);
      within = omega (arith, o.within);
      fits = o.fits;
    } in
    elim (Bool-cases (ltb 0 b.len && served asked e)) [
      | inl yes_served ↦
          subst IsOrdered (sym (if_true (ltb 0 b.len && served asked e) _ _ yes_served))
            (rewind-IsOrdered b' w.taken given moved)
      | inr idle ↦ subst IsOrdered (sym (if_false (ltb 0 b.len && served asked e) _ _ idle)) o
    ]

-- What one half leaves, if it goes on.
abbrev TakenIsOrdered : Taken → Type 0
TakenIsOrdered over = Unit {0}
TakenIsOrdered (more w) = IsOrdered w

if-IsOrdered :
    (b : Bool) (x y : Taken)
    → (b ≡ true → TakenIsOrdered x)
    → TakenIsOrdered y
    → TakenIsOrdered (if b then x else y)
if-IsOrdered true x y h k = h refl
if-IsOrdered false x y h k = k

-- A calm input is served only when nothing waits.
served_empty :
    (asked : Bool) (e : Event) (len : ℕ)
    → e.hangup ≡ false
    → asked ≡ not (ltb 0 len)
    → served asked e ≡ true
    → len ≡ 0
served_empty asked e len calm a s = ground arith

-- The reading half keeps the order: it takes bytes only into an empty buffer.
take_in-IsOrdered :
    (asked : Bool) (e : Event) (r : Read) (w : Way)
    → CalmRead e r
    → asked ≡ not (ltb 0 w.buffer.len)
    → IsOrdered w
    → TakenIsOrdered (take_in asked e r w)
unfolding take_in
take_in-IsOrdered asked e ended w calm a o = if-IsOrdered (served asked e) over (more w) (λ _. tt) o
take_in-IsOrdered asked e nothing w calm a o =
    if-IsOrdered (served asked e) (more w) (more w) (λ _. o) o
take_in-IsOrdered asked e (got xs) w calm a o =
    if-IsOrdered (served asked e) _ (more w)
      (λ s.
        append-IsOrdered w (take chunk xs) (served_empty asked e w.buffer.len calm a s)
          (omega (arith, length-take chunk xs)) o)
      o

pass-IsOrdered : (q : Report) (w : Way) → IsCalm q → IsOrdered w → TakenIsOrdered (pass q w)
unfolding pass
pass-IsOrdered q w calm o =
    written (take_in (not (ltb 0 w.buffer.len)) q.input q.read w)
      (take_in-IsOrdered (not (ltb 0 w.buffer.len)) q.input q.read w calm refl o)
  where
    written :
        (t : Taken)
        → TakenIsOrdered t
        → TakenIsOrdered (elim t as (λ _. Taken) [
          | over ↦ over
          | more w' ↦ more (give_out (ltb 0 w.buffer.len) q.output q.wrote w')
        ])
    written over o' = tt
    written (more w') o' = give_out-IsOrdered (ltb 0 w.buffer.len) q.output q.wrote w' o'

-- Both ways of the shim are in order, running or not.
abbrev pub IsFaithful : Shim → Type 0
IsFaithful (running to_modem to_pppd) = IsOrdered to_modem × IsOrdered to_pppd
IsFaithful (returned to_modem to_pppd) = IsOrdered to_modem × IsOrdered to_pppd

abbrev pub AreCalm : Report × Report → Type 0
AreCalm q = IsCalm q.0 × IsCalm q.1

second-IsFaithful :
    (to_modem to_pppd : Way) (t : Taken)
    → IsOrdered to_modem
    → IsOrdered to_pppd
    → TakenIsOrdered t
    → IsFaithful (second to_modem to_pppd t)
second-IsFaithful to_modem to_pppd over o o' h = (o, o')
second-IsFaithful to_modem to_pppd (more w) o o' h = (o, h)

first-IsFaithful :
    (to_modem to_pppd : Way) (q : Report) (t : Taken)
    → IsCalm q
    → IsOrdered to_modem
    → IsOrdered to_pppd
    → TakenIsOrdered t
    → IsFaithful (first to_modem to_pppd q t)
first-IsFaithful to_modem to_pppd q over calm o o' h = (o, o')
first-IsFaithful to_modem to_pppd q (more w) calm o o' h =
    second-IsFaithful w to_pppd (pass q to_pppd) h o' (pass-IsOrdered q to_pppd calm o')

round-IsFaithful :
    (q : Report × Report) (s : Shim) → AreCalm q → IsFaithful s → IsFaithful (round q.0 q.1 s)
unfolding round
round-IsFaithful q (returned to_modem to_pppd) calm f = f
round-IsFaithful q (running to_modem to_pppd) calm f =
    first-IsFaithful to_modem to_pppd q.1 (pass q.0 to_modem) calm.1 f.0 f.1
      (pass-IsOrdered q.0 to_modem calm.0 f.0)

relay-IsFaithful :
    (qs : List (Report × Report)) (s : Shim)
    → All AreCalm qs
    → IsFaithful s
    → IsFaithful (relay qs s)
unfolding relay
relay-IsFaithful [] s calm f = f
relay-IsFaithful (q ∷ qs) s calm f =
    relay-IsFaithful qs (round q.0 q.1 s) calm.1 (round-IsFaithful q s calm.0 f)

start-IsFaithful : IsFaithful start
unfolding start
start-IsFaithful =
    let o : IsOrdered _ = record { in_order = refl; within = omega arith; fits = omega arith } in
    (o, o)

-- After any number of rounds from the start in which no hang-up of an input brings bytes, what
-- each way has written is the first part of what it has read, in order, and the buffer holds the
-- rest, which is at most 4096 bytes, within its array.
pub relay-start-IsFaithful :
    (qs : List (Report × Report)) → All AreCalm qs → IsFaithful (relay qs start)
relay-start-IsFaithful qs calm = relay-IsFaithful qs start calm start-IsFaithful
