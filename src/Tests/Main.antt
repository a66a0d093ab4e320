-- ===== src/Tests/Main.antt =====
-- Command lines and callers.
use v34_working.Base.{
  ℕ, ◌≡◌, refl, ◌↔◌, List, [], ◌∷◌, ◌++◌, true, false, some, pos, codes, dec, arith,
}
use v34_working.Main.Args.{run}
use v34_working.Main.Args.Laws.{Setting, spell, apply}
use v34_working.Main.Daemon.{Options, Key, Flag, defaults, set_value, set_flag, parse_args}
use v34_working.Main.Daemon.Accepts.{key_name, flag_name, parse_args_lem}
use v34_working.Main.Daemon.Usable.{IsUsable, parse_args-IsUsable}
use v34_working.Main.Bridge
use v34_working.Main.Bridge.Fits.{Fits, parse_args-Fits, set_value-append}
use v34_working.Main.Serve.{got, aborted, terminated, at_start, serve}
use v34_working.Main.Serve.Numbers.{IsServed, serve-at_start}

-- The address to bind looks like an option.
abbrev words : List (List ℕ)
words =
    codes "--listen"
    ∷ codes "--help"
    ∷ codes "--rate"
    ∷ codes " 1200"
    ∷ codes "--v90"
    ∷ codes "--no-ppp"
    ∷ []

abbrev meant : Options
meant = record defaults {
  bind_addr = codes "--help";
  rate = 1200;
  use_v90 = true;
  use_binmodem = true;
  enable_ppp = false;
}

parse_args_lem_example : (parse_args words ≡ run meant) ↔ (
    (ss : List (Setting Key Flag)) × (spell key_name flag_name ss ≡ words)
    × (apply set_value set_flag ss defaults ≡ run meant))
parse_args_lem_example = parse_args_lem words meant

parse_args-IsUsable_example : IsUsable meant
parse_args-IsUsable_example = parse_args-IsUsable words meant (unfold parse_args in refl)

abbrev bridge_words : List (List ℕ)
bridge_words = codes "--bind" ∷ codes "[::1]:5070" ∷ codes "--once" ∷ []

abbrev bridge_meant : Bridge.Options
bridge_meant = record Bridge.defaults {
  bind_addr = codes "[::1]";
  bind_port = pos 5070;
  once = true;
}

parse_args-Fits_example : Fits bridge_meant
parse_args-Fits_example =
    parse_args-Fits bridge_words bridge_meant (unfold Bridge.parse_args in refl)

set_value-append_example :
    (Bridge.set_value Bridge.bind (codes "[::1]" ++ 58 ∷ dec 5070) Bridge.defaults
      ≡ some (record Bridge.defaults { bind_addr = codes "[::1]"; bind_port = pos 5070 }))
    × (Bridge.set_value Bridge.daemon (codes "[::1]" ++ 58 ∷ dec 5070) Bridge.defaults
        ≡ some (record Bridge.defaults { daemon_host = codes "[::1]"; daemon_port = pos 5070 }))
set_value-append_example =
    set_value-append (codes "[::1]") 5070 Bridge.defaults (omega arith) (omega arith)

-- The second fork fails, and a signal comes while the daemon waits: one more caller is served.
serve-at_start_example : IsServed (
    serve (got 7 true ∷ got 8 false ∷ aborted ∷ terminated ∷ got 7 true ∷ got 9 true ∷ []) at_start)
serve-at_start_example =
    serve-at_start (got 7 true ∷ got 8 false ∷ aborted ∷ terminated ∷ got 7 true ∷ got 9 true ∷ [])
