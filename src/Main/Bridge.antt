-- ===== src/Main/Bridge.antt =====
-- The options of the SIP bridge (`main` of sm_sip_main.c).
pub mod Fits
use v34_working.Base.{
  ℕ, ◌-◌, List, [], ◌∷◌, Bool, true, false, ◌==◌, Option, none, some, ℤ, pos, take, codes,
  if◌then◌else◌,
}
use v34_working.Main.Args.{Kind, Verdict, takes, sets, help, look_up, atoi_int, parse_loop}

-- `sm_sip_config_t`, as far as `main` sets it, and `once`.
pub record Options : Type 0 where
  pub bind_addr : List ℕ
  pub bind_port : ℤ
  pub advertise_ip : List ℕ
  pub daemon_host : List ℕ
  pub daemon_port : ℤ
  pub once : Bool
  pub capture_dir : Option (List ℕ)
  pub log_flow : Bool

-- The size of each of the three arrays.
abbrev pub array_size : ℕ
array_size = 64

-- What an array keeps of a text, by `snprintf` or by `memcpy`.
unfoldable pub fit : List ℕ → List ℕ
fit text = take (array_size - 1) text

pub data Key : Type 0 where
  bind advertise daemon capture : Key

pub data Flag : Type 0 where
  once debug : Flag

unfoldable pub defaults : Options
unfolding fit
defaults = record {
  bind_addr = fit (codes "0.0.0.0");
  bind_port = pos 5060;
  advertise_ip = fit (codes "127.0.0.1");
  daemon_host = fit (codes "127.0.0.1");
  daemon_port = pos 9092;
  once = false;
  capture_dir = none;
  log_flow = false;
}

abbrev pub table : List (List ℕ × Kind Key Flag)
table =
    (codes "--bind", takes bind)
    ∷ (codes "--advertise", takes advertise)
    ∷ (codes "--daemon", takes daemon)
    ∷ (codes "--once", sets Flag.once)
    ∷ (codes "--capture", takes capture)
    ∷ (codes "--debug", sets debug)
    ∷ (codes "--help", help)
    ∷ []

-- `strrchr(text, ':')`: what stands before the last colon, and after it.
abbrev pub cut_here : ℕ → List ℕ → Option (List ℕ × List ℕ) → Option (List ℕ × List ℕ)
cut_here c cs (some (before, after)) = some (c ∷ before, after)
cut_here c cs none = if c == 58 then some ([], cs) else none

unfoldable pub last_colon : List ℕ → Option (List ℕ × List ℕ)
last_colon [] = none
last_colon (c ∷ cs) = cut_here c cs (last_colon cs)

-- An address, and its port if it has one.
unfoldable pub put_bind : List ℕ → Options → Option (List ℕ × List ℕ) → Options
unfolding fit atoi_int
put_bind text o (some (host, port)) = record o { bind_addr = fit host; bind_port = atoi_int port }
put_bind text o none = record o { bind_addr = fit text }

unfoldable pub put_daemon : List ℕ → Options → Option (List ℕ × List ℕ) → Options
unfolding fit atoi_int
put_daemon text o (some (host, port)) = record o {
  daemon_host = fit host;
  daemon_port = atoi_int port;
}
put_daemon text o none = record o { daemon_host = fit text }

unfoldable pub set_value : Key → List ℕ → Options → Option Options
unfolding last_colon fit put_bind put_daemon
set_value bind v o = some (put_bind v o (last_colon v))
set_value advertise v o = some (record o { advertise_ip = fit v })
set_value daemon v o = some (put_daemon v o (last_colon v))
set_value capture v o = some (record o { capture_dir = some v })

unfoldable pub set_flag : Flag → Options → Options
set_flag Flag.once o = record o { once = true }
set_flag debug o = record o { log_flow = true }

unfoldable pub parse_args : List (List ℕ) → Verdict Options
unfolding parse_loop set_value set_flag look_up defaults
parse_args words = parse_loop (look_up table) set_value set_flag words none defaults
