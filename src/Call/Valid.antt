-- ===== src/Call/Valid.antt =====
-- What holds of a call from `sm_call_init` on, through every callback (`src/call/sm_call.c`).
pub mod Pump
pub mod Audio
pub mod Process
pub mod Init
pub mod Run
use v34_working.Base.{
  ℕ, ◌+◌, ◌≤◌, ◌≡◌, refl, sym, ap, subst, List, [], ◌∷◌, Bool, true, false, Option, none, some,
  length, ◌⊎◌, inl, inr, arith, if-Has, if◌then◌else◌,
}
use v34_working.Serial.Queue.{BitQueue, pop}
use v34_working.Serial.Queue.Fifo
use v34_working.Serial.Queue.Fifo.{pop_lem}
use v34_working.Serial.Link.{call_get_bit}
use v34_working.Serial.Deframer.{Deframer, init as deframer_init}
use v34_working.Serial.Deframer.Bounds
use v34_working.Serial.Deframer.Bounds.{deframer_bit-IsValid, init-IsValid}
use v34_working.Bbs.Session.{Session}
use v34_working.Call.{Mode, v22, v34, Phase, handshake, data_mode, is_v8, is_data, is_some, Call}
use v34_working.Call.Bits.{
  ModemStatus, training_succeeded, training_failed, carrier_up, carrier_down, retrain_occurred,
  Script, enter_v34, put_data, put_valid, call_put_bit, call_status, play,
}
use v34_working.Call.Bits.Keeps.{play-Keeps}
use v34_working.Call.Pppd.{ppy_size}

-- The ptys that are open: the one of the call; behind one that was given up, that one at most; and
-- none before pppd was started.
abbrev pub Owns : Option ℕ → Bool → List ℕ → Type 0
Owns (some fd) begun fds = fds ≡ fd ∷ []
Owns none true fds = length fds ≤ 1
Owns none false fds = fds ≡ []

pub Owns-fresh :
    (o : Option ℕ) (begun : Bool) (fds : List ℕ)
    → begun ≡ false
    → (is_some o ≡ true → begun ≡ true)
    → Owns o begun fds
    → fds ≡ []
Owns-fresh none false fds fresh started owned = owned
Owns-fresh none true fds fresh started owned = absurd (ground arith)
Owns-fresh (some fd) begun fds fresh started owned =
    let was : begun ≡ true = started refl in absurd (ground (arith, was))

-- The descriptor is given up without being closed.
pub Owns-lost :
    (o : Option ℕ) (begun : Bool) (fds : List ℕ)
    → (is_some o ≡ true → begun ≡ true)
    → Owns o begun fds
    → Owns none begun fds
Owns-lost none begun fds started owned = owned
Owns-lost (some fd) true fds started owned = omega (arith, ap length owned)
Owns-lost (some fd) false fds started owned =
    let was : false ≡ true = started refl in absurd (ground (arith, was))

-- V.34 has its engine and comes after V.8, there is no session, no buffer is beyond its end, and an open descriptor
-- comes from a pppd that was started.
pub record Holds {X G : Type 0} (mode : Mode) (phase : Phase) (engine : Option X)
    (bbs : Option (Session G)) (ppy_out : List ℕ) (ppp_fd : Option ℕ) (ppp_started : Bool)
    (open_ptys : List ℕ) (txbits : BitQueue) (deframer : Deframer) : Type 0 where
  pub powered : mode ≡ v34 → is_some engine ≡ true
  pub early : is_v8 phase ≡ true → mode ≡ v22
  pub alone : bbs ≡ none
  pub staged : length ppy_out ≤ ppy_size
  pub started : is_some ppp_fd ≡ true → ppp_started ≡ true
  pub owned : Owns ppp_fd ppp_started open_ptys
  pub queue : Fifo.IsValid txbits
  pub unframed : Bounds.IsValid deframer

abbrev pub IsValid : {X G : Type 0} → Call X G → Type 0
IsValid c =
    Holds c.mode c.phase c.v34 c.bbs c.ppy_out c.ppp_fd c.ppp_started c.open_ptys c.txbits
      c.deframer

pop-IsValid : (q : BitQueue) → Fifo.IsValid q → Fifo.IsValid (pop q).1
pop-IsValid q v = elim (pop_lem q v) [
  | inl e ↦ subst (λ r. Fifo.IsValid r.1) (sym e.1) v
  | inr e ↦ subst (λ r. Fifo.IsValid r.1) (sym e.2) e.5
]

call_get_bit-IsValid : (q : BitQueue) → Fifo.IsValid q → Fifo.IsValid (call_get_bit q).1
unfolding call_get_bit
call_get_bit-IsValid q v = pop-IsValid q v

module _ {X G : Type 0} where
  pub with_queue :
      (q : BitQueue) (c : Call X G) → Fifo.IsValid q → IsValid c → IsValid (record c { txbits = q })
  with_queue q c w v = record {
    powered = v.powered;
    early = v.early;
    alone = v.alone;
    staged = v.staged;
    started = v.started;
    owned = v.owned;
    queue = w;
    unframed = v.unframed;
  }

  pub with_phase :
      (p : Phase) (c : Call X G) → is_v8 p ≡ false → IsValid c → IsValid (record c { phase = p })
  with_phase p c other v = record {
    powered = v.powered;
    early = λ q. absurd (ground arith);
    alone = v.alone;
    staged = v.staged;
    started = v.started;
    owned = v.owned;
    queue = v.queue;
    unframed = v.unframed;
  }

  pub with_deframer :
      (d : Deframer) (c : Call X G)
      → Bounds.IsValid d
      → IsValid c
      → IsValid (record c { deframer = d })
  with_deframer d c w v = record {
    powered = v.powered;
    early = v.early;
    alone = v.alone;
    staged = v.staged;
    started = v.started;
    owned = v.owned;
    queue = v.queue;
    unframed = w;
  }

  pub with_reset :
      (p : Phase) (c : Call X G)
      → is_v8 p ≡ false
      → IsValid c
      → IsValid (record c { phase = p; deframer = deframer_init })
  with_reset p c other v =
      with_phase p (record c { deframer = deframer_init }) other (with_deframer _ c init-IsValid v)

  put_data-IsValid : (bit : ℕ) (c : Call X G) → IsValid c → IsValid (put_data bit c)
  unfolding put_data
  put_data-IsValid bit c v = with_deframer _ c (deframer_bit-IsValid c.deframer bit v.unframed) v

  enter_v34-IsValid : (rate : ℕ) (c : Call X G) → IsValid c → IsValid (enter_v34 rate c)
  unfolding enter_v34
  enter_v34-IsValid rate c v =
      if-Has IsValid (is_data c.phase) _ _ (λ _. v) (λ _. with_phase data_mode c refl v)

  put_valid-IsValid :
      (m : Mode) (bit rate : ℕ) (c : Call X G) → IsValid c → IsValid (put_valid m bit rate c)
  unfolding put_valid
  put_valid-IsValid v34 bit rate c v =
      put_data-IsValid bit (enter_v34 rate c) (enter_v34-IsValid rate c v)
  put_valid-IsValid v22 bit rate c v =
      if-Has IsValid (is_data c.phase) (put_data bit c) c (λ _. put_data-IsValid bit c v) (λ _. v)

  call_put_bit-IsValid :
      (bit : Option ℕ) (rate : ℕ) (c : Call X G) → IsValid c → IsValid (call_put_bit bit rate c)
  unfolding call_put_bit
  call_put_bit-IsValid none rate c v = v
  call_put_bit-IsValid (some bit) rate c v = put_valid-IsValid c.mode bit rate c v

  call_status-IsValid : (st : ModemStatus) (c : Call X G) → IsValid c → IsValid (call_status st c)
  unfolding call_status
  call_status-IsValid retrain_occurred c v = with_reset handshake c refl v
  call_status-IsValid training_succeeded c v = v
  call_status-IsValid training_failed c v = v
  call_status-IsValid carrier_up c v = v
  call_status-IsValid carrier_down c v = v

  pub play-IsValid : {A : Type 0} (s : Script A) (c : Call X G) → IsValid c → IsValid (play s c).1
  play-IsValid s c v =
      play-Keeps IsValid (λ d w. with_queue _ d (call_get_bit-IsValid d.txbits w.queue) w)
        call_put_bit-IsValid call_status-IsValid s c v
