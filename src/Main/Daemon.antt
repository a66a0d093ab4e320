-- ===== src/Main/Daemon.antt =====
-- The options of the daemon (`main` of sm_daemon.c).
pub mod Accepts
pub mod Usable
use v34_working.Base.{
  ℕ, List, [], ◌∷◌, Bool, true, false, ◌&&◌, ◌||◌, leb, ◌==◌, Option, none, some, ℤ, pos, negsuc,
  codes, if◌then◌else◌,
}
use mathlib.Core.Option.{map}
use v34_working.Main.Args.{Kind, Verdict, takes, sets, help, same, look_up, atoi_int, parse_loop}

-- The variables of `main`, and what it sets of `sm_call_config_t`. A log level is INFO or FLOW.
pub record Options : Type 0 where
  pub bind_addr : List ℕ
  pub unix_path : Option (List ℕ)
  pub port : ℕ
  pub rate : ℕ
  pub answer_tone_ms : ℤ
  pub pre_tone_silence_ms : ℤ
  pub pppd_path : List ℕ
  pub local_ip : List ℕ
  pub peer_ip : List ℕ
  pub dns1 : List ℕ
  pub dns2 : List ℕ
  pub log_dir : List ℕ
  pub ip_up_script : Option (List ℕ)
  pub ip_down_script : Option (List ℕ)
  pub bbs_db : List ℕ
  pub auth : Bool
  pub enable_ppp : Bool
  pub echo_data : Bool
  pub use_v8 : Bool
  pub use_v34 : Bool
  pub use_binmodem : Bool
  pub use_v90 : Bool
  pub log_flow : Bool

-- The options with a value, and those without.
pub data Key : Type 0 where
  listen unix port rate tone_ms pre_silence_ms pppd local_ip peer_ip dns1 dns2 log_dir ip_up_script
        ip_down_script bbs_db :
      Key

pub data Flag : Type 0 where
  auth no_ppp echo v8 v34 binmodem v90 debug : Flag

unfoldable pub defaults : Options
defaults = record {
  bind_addr = codes "0.0.0.0";
  unix_path = none;
  port = 9092;
  rate = 2400;
  answer_tone_ms = pos 3300;
  pre_tone_silence_ms = pos 500;
  pppd_path = codes "/usr/sbin/pppd";
  local_ip = codes "192.168.2.1";
  peer_ip = codes "192.168.2.240";
  dns1 = codes "192.168.2.1";
  dns2 = codes "8.8.8.8";
  log_dir = codes "/tmp/softmodem";
  ip_up_script = none;
  ip_down_script = none;
  bbs_db = codes "bbs.db";
  auth = false;
  enable_ppp = true;
  echo_data = false;
  use_v8 = false;
  use_v34 = false;
  use_binmodem = false;
  use_v90 = false;
  log_flow = false;
}

abbrev pub table : List (List ℕ × Kind Key Flag)
table =
    (codes "--listen", takes listen)
    ∷ (codes "--unix", takes unix)
    ∷ (codes "--port", takes Key.port)
    ∷ (codes "--rate", takes Key.rate)
    ∷ (codes "--tone-ms", takes tone_ms)
    ∷ (codes "--pre-silence-ms", takes pre_silence_ms)
    ∷ (codes "--pppd", takes pppd)
    ∷ (codes "--local-ip", takes Key.local_ip)
    ∷ (codes "--peer-ip", takes Key.peer_ip)
    ∷ (codes "--dns1", takes Key.dns1)
    ∷ (codes "--dns2", takes Key.dns2)
    ∷ (codes "--auth", sets Flag.auth)
    ∷ (codes "--log-dir", takes Key.log_dir)
    ∷ (codes "--ip-up-script", takes Key.ip_up_script)
    ∷ (codes "--ip-down-script", takes Key.ip_down_script)
    ∷ (codes "--no-ppp", sets no_ppp)
    ∷ (codes "--bbs-db", takes Key.bbs_db)
    ∷ (codes "--echo", sets echo)
    ∷ (codes "--v8", sets v8)
    ∷ (codes "--v34", sets v34)
    ∷ (codes "--binmodem", sets binmodem)
    ∷ (codes "--v90", sets v90)
    ∷ (codes "--debug", sets debug)
    ∷ (codes "--help", help)
    ∷ []

-- `parse_port`, whose exit is `none`.
unfoldable pub parse_port : List ℕ → Option ℕ
unfolding atoi_int
parse_port arg = elim (atoi_int arg) [
  | pos p ↦ if (p == 0) || leb 65536 p then none else some p
  | negsuc p ↦ none
]

-- `--rate`, whose exit is `none`.
unfoldable pub parse_rate : List ℕ → Option ℕ
unfolding atoi_int
parse_rate arg = elim (atoi_int arg) [
  | pos r ↦ if (r == 1200) || (r == 2400) then some r else none
  | negsuc r ↦ none
]

-- An option with its value.
unfoldable pub set_value : Key → List ℕ → Options → Option Options
unfolding parse_port parse_rate atoi_int
set_value listen v o = some (record o { bind_addr = v })
set_value unix v o = some (record o { unix_path = some v })
set_value Key.port v o = map (λ p. record o { port = p }) (parse_port v)
set_value Key.rate v o = map (λ r. record o { rate = r }) (parse_rate v)
set_value tone_ms v o = some (record o { answer_tone_ms = atoi_int v })
set_value pre_silence_ms v o = some (record o { pre_tone_silence_ms = atoi_int v })
set_value pppd v o = some (record o { pppd_path = v })
set_value Key.local_ip v o = some (record o { local_ip = v })
set_value Key.peer_ip v o = some (record o { peer_ip = v })
set_value Key.dns1 v o = some (record o { dns1 = v })
set_value Key.dns2 v o = some (record o { dns2 = v })
set_value Key.log_dir v o = some (record o { log_dir = v })
set_value Key.ip_up_script v o = some (record o { ip_up_script = some v })
set_value Key.ip_down_script v o = some (record o { ip_down_script = some v })
set_value Key.bbs_db v o = some (record o { bbs_db = v })

-- One without.
unfoldable pub set_flag : Flag → Options → Options
set_flag Flag.auth o = record o { auth = true }
set_flag no_ppp o = record o { enable_ppp = false }
set_flag echo o = record o { echo_data = true }
set_flag v8 o = record o { use_v8 = true }
set_flag v34 o = record o { use_v34 = true }
set_flag binmodem o = record o { use_binmodem = true }
set_flag v90 o = record o { use_v90 = true; use_binmodem = true }
set_flag debug o = record o { log_flow = true }

-- What `main` becomes: the relay on a descriptor, or the daemon.
pub data Start : Type 0 where
  shim : ℤ → Start
  daemon : Verdict Options → Start

unfoldable pub parse_args : List (List ℕ) → Verdict Options
unfolding parse_loop set_value set_flag look_up defaults
parse_args words = parse_loop (look_up table) set_value set_flag words none defaults

-- `argv` after the program's name.
unfoldable pub main : List (List ℕ) → Start
unfolding parse_args same atoi_int
main (word ∷ fd ∷ words) =
    if same word (codes "--shim")
    then shim (atoi_int fd)
    else daemon (parse_args (word ∷ fd ∷ words))
main (word ∷ []) = daemon (parse_args (word ∷ []))
main [] = daemon (parse_args [])
