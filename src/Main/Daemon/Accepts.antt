-- ===== src/Main/Daemon/Accepts.antt =====
-- Which command lines the daemon accepts, and what it runs with.
use v34_working.Base.{ℕ, ◌≡◌, sym, ap, ◌∙◌, ◌↔◌, List, none, codes, arith}
use v34_working.Main.Args.{takes, sets, run, same, look_up, parse_loop}
use v34_working.Main.Args.Laws.{
  Setting, apply, spell, Called, IsNamed, look_up-IsNamed, parse_loop-spell, parse_loop-run,
}
use v34_working.Main.Daemon.{
  Options, Key, Flag, listen, unix, tone_ms, pre_silence_ms, pppd, no_ppp, echo, v8, v34, binmodem,
  v90, debug, table, defaults, set_value, set_flag, parse_args,
}

-- The words of the options.
abbrev pub key_name : Key → List ℕ
key_name listen = codes "--listen"
key_name unix = codes "--unix"
key_name Key.port = codes "--port"
key_name Key.rate = codes "--rate"
key_name tone_ms = codes "--tone-ms"
key_name pre_silence_ms = codes "--pre-silence-ms"
key_name pppd = codes "--pppd"
key_name Key.local_ip = codes "--local-ip"
key_name Key.peer_ip = codes "--peer-ip"
key_name Key.dns1 = codes "--dns1"
key_name Key.dns2 = codes "--dns2"
key_name Key.log_dir = codes "--log-dir"
key_name Key.ip_up_script = codes "--ip-up-script"
key_name Key.ip_down_script = codes "--ip-down-script"
key_name Key.bbs_db = codes "--bbs-db"

abbrev pub flag_name : Flag → List ℕ
flag_name Flag.auth = codes "--auth"
flag_name no_ppp = codes "--no-ppp"
flag_name echo = codes "--echo"
flag_name v8 = codes "--v8"
flag_name v34 = codes "--v34"
flag_name binmodem = codes "--binmodem"
flag_name v90 = codes "--v90"
flag_name debug = codes "--debug"

look_up-key_name : (k : Key) → look_up table (key_name k) ≡ takes k
unfolding look_up same
look_up-key_name k = ground arith

look_up-flag_name : (f : Flag) → look_up table (flag_name f) ≡ sets f
unfolding look_up same
look_up-flag_name f = ground arith

table-IsNamed : IsNamed (Called key_name flag_name) table
table-IsNamed = ground arith

-- A command line runs the daemon with some options exactly when it spells out settings, each with a
-- value that is accepted, that lead to these options from the defaults when they are made in order.
-- A value may be any word, also one that looks like an option.
pub parse_args_lem :
    (words : List (List ℕ)) (o : Options)
    → (parse_args words ≡ run o) ↔ (
        (ss : List (Setting Key Flag)) × (spell key_name flag_name ss ≡ words)
        × (apply set_value set_flag ss defaults ≡ run o))
unfolding parse_args
parse_args_lem words o = (
  parse_loop-run (look_up table) set_value set_flag key_name flag_name
      (λ word. look_up-IsNamed (Called key_name flag_name) table word table-IsNamed tt) words none
      defaults o,
  λ (ss, p, q).
      ap (λ ws. parse_loop (look_up table) set_value set_flag ws none defaults) (sym p)
      ∙ parse_loop-spell (look_up table) set_value set_flag key_name flag_name look_up-key_name
          look_up-flag_name ss defaults
      ∙ q,
)
