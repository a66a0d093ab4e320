-- ===== src/Call/Bits/Keeps.antt =====
-- What every callback keeps, an engine's function keeps (`call_get_bit`, `call_put_bit` and
-- `call_status` of `src/call/sm_call.c`).
use v34_working.Base.{ℕ, Option}
use v34_working.Serial.Link.{call_get_bit}
use v34_working.Call.{Call}
use v34_working.Call.Bits.{
  ModemStatus, Script, done, get, put, status, call_put_bit, call_status, play,
}

module _ {X G : Type 0} (P : Call X G → Type 0)
    (P-get : (c : Call X G) → P c → P (record c { txbits = (call_get_bit c.txbits).1 }))
    (P-put : (bit : Option ℕ) (rate : ℕ) (c : Call X G) → P c → P (call_put_bit bit rate c))
    (P-status : (st : ModemStatus) (c : Call X G) → P c → P (call_status st c)) where
  -- An engine's function keeps what its callbacks keep.
  pub play-Keeps : {A : Type 0} (s : Script A) (c : Call X G) → P c → P (play s c).1
  unfolding play
  play-Keeps (done a) c p = p
  play-Keeps (get next) c p =
      let (b, q) = call_get_bit c.txbits in
      play-Keeps (next b) (record c { txbits = q }) (P-get c p)
  play-Keeps (put bit rate next) c p =
      play-Keeps next (call_put_bit bit rate c) (P-put bit rate c p)
  play-Keeps (status st next) c p = play-Keeps next (call_status st c) (P-status st c p)
