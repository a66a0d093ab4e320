-- ===== src/Main/Bridge/Fits.antt =====
-- The addresses of the bridge fit their arrays, and are what the command line says.
use v34_working.Base.{
  ℕ, ◌-◌, ◌<◌, ◌≡◌, refl, ap, ap₂, ◌∙◌, ◌^◌, pos, dec, subst, List, [], ◌∷◌, ◌++◌, false, ◌==◌,
  Option, none, some, All, if_false, take-all, length, length-take, codes, arith,
}
use v34_working.Main.Args.{run, look_up}
use v34_working.Main.Args.Number.{dec-colon, atoi_int-dec}
use v34_working.Main.Args.Laws.{Called, IsNamed, look_up-IsNamed, parse_loop-run, apply-Keeps}
use v34_working.Main.Bridge.{
  Options, Key, Flag, bind, advertise, daemon, capture, debug, array_size, fit, table, defaults,
  last_colon, cut_here, put_bind, put_daemon, set_value, set_flag, parse_args,
}

-- Each address ends with its 0 inside its array.
abbrev pub Fits : Options → Type 0
Fits o =
    (length o.bind_addr < array_size)
    × (length o.advertise_ip < array_size)
    × (length o.daemon_host < array_size)

length-fit : (text : List ℕ) → length (fit text) < array_size
unfolding fit
length-fit text = omega (arith, length-take (array_size - 1) text)

put_bind-Fits :
    (v : List ℕ) (o : Options) (r : Option (List ℕ × List ℕ)) → Fits o → Fits (put_bind v o r)
unfolding put_bind
put_bind-Fits v o (some (host, port)) h = (length-fit host, h.1, h.2)
put_bind-Fits v o none h = (length-fit v, h.1, h.2)

put_daemon-Fits :
    (v : List ℕ) (o : Options) (r : Option (List ℕ × List ℕ)) → Fits o → Fits (put_daemon v o r)
unfolding put_daemon
put_daemon-Fits v o (some (host, port)) h = (h.0, h.1, length-fit host)
put_daemon-Fits v o none h = (h.0, h.1, length-fit v)

some-Keeps : (o o' : Options) → some o ≡ some o' → Fits o → Fits o'
some-Keeps o o' e h = let same : o ≡ o' = cc in subst Fits same h

set_value-Fits :
    (k : Key) (v : List ℕ) (o o' : Options) → set_value k v o ≡ some o' → Fits o → Fits o'
unfolding set_value
set_value-Fits bind v o o' e h = some-Keeps _ o' e (put_bind-Fits v o (last_colon v) h)
set_value-Fits advertise v o o' e h = some-Keeps _ o' e (h.0, length-fit v, h.2)
set_value-Fits daemon v o o' e h = some-Keeps _ o' e (put_daemon-Fits v o (last_colon v) h)
set_value-Fits capture v o o' e h = some-Keeps _ o' e h

set_flag-Fits : (f : Flag) (o : Options) → Fits o → Fits (set_flag f o)
unfolding set_flag
set_flag-Fits Flag.once o h = h
set_flag-Fits debug o h = h

-- The words of the options.
abbrev key_name : Key → List ℕ
key_name bind = codes "--bind"
key_name advertise = codes "--advertise"
key_name daemon = codes "--daemon"
key_name capture = codes "--capture"

abbrev flag_name : Flag → List ℕ
flag_name Flag.once = codes "--once"
flag_name debug = codes "--debug"

table-IsNamed : IsNamed (Called key_name flag_name) table
table-IsNamed = ground arith

defaults-Fits : Fits defaults
unfolding defaults
defaults-Fits =
    (length-fit (codes "0.0.0.0"), length-fit (codes "127.0.0.1"), length-fit (codes "127.0.0.1"))

-- Whatever the command line says, each of the three addresses of a bridge that runs ends with its 0
-- inside its array of 64 bytes.
pub parse_args-Fits : (words : List (List ℕ)) (o : Options) → parse_args words ≡ run o → Fits o
unfolding parse_args
parse_args-Fits words o e =
    let (ss, p, q) =
      parse_loop-run (look_up table) set_value set_flag key_name flag_name
        (λ word. look_up-IsNamed (Called key_name flag_name) table word table-IsNamed tt) words none
        defaults o e in
    apply-Keeps set_value set_flag Fits set_value-Fits set_flag-Fits ss defaults o q defaults-Fits

last_colon-none : (port : List ℕ) → All (λ c. (c == 58) ≡ false) port → last_colon port ≡ none
unfolding last_colon
last_colon-none [] all = refl
last_colon-none (c ∷ cs) (other, all) =
    ap (cut_here c cs) (last_colon-none cs all) ∙ if_false (c == 58) _ _ other

last_colon-append :
    (host port : List ℕ)
    → All (λ c. (c == 58) ≡ false) port
    → last_colon (host ++ 58 ∷ port) ≡ some (host, port)
unfolding last_colon
last_colon-append [] port all = ap (cut_here 58 port) (last_colon-none port all)
last_colon-append (c ∷ host) port all =
    ap (cut_here c (host ++ 58 ∷ port)) (last_colon-append host port all)

fit_lem : (text : List ℕ) → length text < array_size → fit text ≡ text
unfolding fit
fit_lem text h = take-all (array_size - 1) text (omega arith)

-- An address of fewer than 64 bytes is cut at its last colon, so that it may have colons itself, and
-- the number after it, which is printed with `%d` and is less than 10^9, is the port; nothing else
-- is changed.
pub set_value-append :
    (host : List ℕ) (n : ℕ) (o : Options)
    → length host < array_size
    → n < 10 ^ 9
    → (set_value bind (host ++ 58 ∷ dec n) o
        ≡ some (record o { bind_addr = host; bind_port = pos n }))
      × (set_value daemon (host ++ 58 ∷ dec n) o
          ≡ some (record o { daemon_host = host; daemon_port = pos n }))
unfolding set_value put_bind put_daemon
set_value-append host n o h small =
    let cut = last_colon-append host (dec n) (dec-colon n) in
    let kept = fit_lem host h in
    let port = atoi_int-dec n small in
    (
      ap (λ r. some (put_bind (host ++ 58 ∷ dec n) o r)) cut
          ∙ ap₂ (λ x p. some (record o { bind_addr = x; bind_port = p })) kept port,
      ap (λ r. some (put_daemon (host ++ 58 ∷ dec n) o r)) cut
          ∙ ap₂ (λ x p. some (record o { daemon_host = x; daemon_port = p })) kept port,
    )
