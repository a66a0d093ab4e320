-- ===== src/Main/Daemon/Usable.antt =====
-- What the daemon's options are known to satisfy.
use v34_working.Base.{
  ℕ, ◌<◌, ◌≡◌, refl, subst, ◌⊎◌, inr, List, true, ◌||◌, leb, ◌==◌, Option, none, some, ℤ, pos,
  negsuc, arith, if◌then◌else◌,
}
use mathlib.Core.Option.{map}
use v34_working.Main.Args.{run, atoi_int}
use v34_working.Main.Args.Laws.{apply-Keeps}
use v34_working.Main.Daemon.{
  Options, Key, Flag, listen, unix, tone_ms, pre_silence_ms, pppd, no_ppp, echo, v8, v34, binmodem,
  v90, debug, defaults, set_value, set_flag, parse_port, parse_rate, parse_args,
}
use v34_working.Main.Daemon.Accepts.{parse_args_lem}

-- A TCP port, a rate that the modem has, and V.90 only with the engine that has it.
abbrev pub IsUsable : Options → Type 0
IsUsable o =
    (0 < o.port)
    × (o.port < 65536)
    × ((o.rate ≡ 1200) ⊎ (o.rate ≡ 2400))
    × (o.use_v90 ≡ true → o.use_binmodem ≡ true)

parse_port_lem : (v : List ℕ) (p : ℕ) → parse_port v ≡ some p → (0 < p) × (p < 65536)
unfolding parse_port
parse_port_lem v p e = in_range (atoi_int v) e
  where
    in_range :
        (z : ℤ)
        → elim z [ pos p ↦ (if (p == 0) || leb 65536 p then none else some p) | negsuc p ↦ none ]
          ≡ some p
        → (0 < p) × (p < 65536)
    in_range (pos q) e = ground arith
    in_range (negsuc q) e = cc

parse_rate_lem : (v : List ℕ) (r : ℕ) → parse_rate v ≡ some r → (r ≡ 1200) ⊎ (r ≡ 2400)
unfolding parse_rate
parse_rate_lem v r e = known (atoi_int v) e
  where
    known :
        (z : ℤ)
        → elim z [ pos q ↦ if (q == 1200) || (q == 2400) then some q else none | negsuc q ↦ none ]
          ≡ some r
        → (r ≡ 1200) ⊎ (r ≡ 2400)
    known (pos q) e = ground arith
    known (negsuc q) e = cc

some-Keeps : (P : Options → Type 0) (o o' : Options) → some o ≡ some o' → P o → P o'
some-Keeps P o o' e h = let same : o ≡ o' = cc in subst P same h

map-Keeps :
    (P : Options → Type 0) (f : ℕ → Options) (r : Option ℕ) (o' : Options)
    → map f r ≡ some o'
    → ((n : ℕ) → r ≡ some n → P (f n))
    → P o'
map-Keeps P f none o' e h = cc
map-Keeps P f (some n) o' e h = some-Keeps P (f n) o' e (h n refl)

set_value-IsUsable :
    (k : Key) (v : List ℕ) (o o' : Options) → set_value k v o ≡ some o' → IsUsable o → IsUsable o'
unfolding set_value
set_value-IsUsable listen v o o' e h = some-Keeps IsUsable _ o' e h
set_value-IsUsable unix v o o' e h = some-Keeps IsUsable _ o' e h
set_value-IsUsable Key.port v o o' e h =
    map-Keeps IsUsable (λ p. record o { port = p }) (parse_port v) o' e
      (λ p found. let (low, high) = parse_port_lem v p found in (low, high, h.2, h.3))
set_value-IsUsable Key.rate v o o' e h =
    map-Keeps IsUsable (λ r. record o { rate = r }) (parse_rate v) o' e
      (λ r found. (h.0, h.1, parse_rate_lem v r found, h.3))
set_value-IsUsable tone_ms v o o' e h = some-Keeps IsUsable _ o' e h
set_value-IsUsable pre_silence_ms v o o' e h = some-Keeps IsUsable _ o' e h
set_value-IsUsable pppd v o o' e h = some-Keeps IsUsable _ o' e h
set_value-IsUsable Key.local_ip v o o' e h = some-Keeps IsUsable _ o' e h
set_value-IsUsable Key.peer_ip v o o' e h = some-Keeps IsUsable _ o' e h
set_value-IsUsable Key.dns1 v o o' e h = some-Keeps IsUsable _ o' e h
set_value-IsUsable Key.dns2 v o o' e h = some-Keeps IsUsable _ o' e h
set_value-IsUsable Key.log_dir v o o' e h = some-Keeps IsUsable _ o' e h
set_value-IsUsable Key.ip_up_script v o o' e h = some-Keeps IsUsable _ o' e h
set_value-IsUsable Key.ip_down_script v o o' e h = some-Keeps IsUsable _ o' e h
set_value-IsUsable Key.bbs_db v o o' e h = some-Keeps IsUsable _ o' e h

set_flag-IsUsable : (f : Flag) (o : Options) → IsUsable o → IsUsable (set_flag f o)
unfolding set_flag
set_flag-IsUsable Flag.auth o h = h
set_flag-IsUsable no_ppp o h = h
set_flag-IsUsable echo o h = h
set_flag-IsUsable v8 o h = h
set_flag-IsUsable v34 o h = h
set_flag-IsUsable binmodem o h = (h.0, h.1, h.2, λ _. refl)
set_flag-IsUsable v90 o h = (h.0, h.1, h.2, λ _. refl)
set_flag-IsUsable debug o h = h

defaults-IsUsable : IsUsable defaults
unfolding defaults
defaults-IsUsable = (omega arith, omega arith, inr refl, λ e. cc)

-- Whatever the command line says, a daemon that runs has a port from 1 to 65535, a rate of 1200 or
-- 2400 bit/s, and the BinModem engine when it is to use V.90.
pub parse_args-IsUsable :
    (words : List (List ℕ)) (o : Options) → parse_args words ≡ run o → IsUsable o
parse_args-IsUsable words o e =
    let (ss, p, q) = (parse_args_lem words o).0 e in
    apply-Keeps set_value set_flag IsUsable set_value-IsUsable set_flag-IsUsable ss defaults o q
      defaults-IsUsable
