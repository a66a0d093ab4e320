-- ===== src/Ppp/Spawn.antt =====
-- What `sm_pppd_spawn` (sm_pppd.c) gives to pppd: the words of its command line.
pub mod Fits
use v34_working.Base.{
  ℕ, ◌-◌, ◌∷◌, ◌++◌, List, [], Bool, true, false, Option, none, some, take, codes, dec,
  if◌then◌else◌,
}

-- `sm_pppd_config_t`, but for the path of the log. `none` is NULL.
pub record Config : Type 0 where
  pub pppd_path : List ℕ
  pub shim_exe : List ℕ
  pub local_ip : List ℕ
  pub peer_ip : List ℕ
  pub dns1 : Option (List ℕ)
  pub dns2 : Option (List ℕ)
  pub ip_up_script : Option (List ℕ)
  pub ip_down_script : Option (List ℕ)
  pub auth : Bool

-- SHIM_FD, and the sizes of `argv`, `shim_cmd` and `ip_spec`.
abbrev pub shim_fd : ℕ
shim_fd = 45

abbrev pub argv_size : ℕ
argv_size = 32

abbrev pub shim_cmd_size : ℕ
shim_cmd_size = 1024

abbrev pub ip_spec_size : ℕ
ip_spec_size = 128

-- The two calls of `snprintf`, which cut what does not fit.
unfoldable pub shim_cmd : Config → List ℕ
unfolding dec
shim_cmd cfg = take (shim_cmd_size - 1) (cfg.shim_exe ++ (codes " --shim " ++ dec shim_fd))

unfoldable pub ip_spec : Config → List ℕ
ip_spec cfg = take (ip_spec_size - 1) (cfg.local_ip ++ 58 ∷ cfg.peer_ip)

-- An option and its value, when there is one.
unfoldable pub option_words : List ℕ → Option (List ℕ) → List (List ℕ)
option_words name none = []
option_words name (some []) = []
option_words name (some (c ∷ cs)) = name ∷ (c ∷ cs) ∷ []

unfoldable pub auth_words : Bool → List (List ℕ)
auth_words true = codes "auth" ∷ codes "+pap" ∷ codes "-chap" ∷ []
auth_words false = []

-- `argv`, up to the NULL at its end.
unfoldable pub argv : Config → List (List ℕ)
unfolding shim_cmd ip_spec option_words auth_words
argv cfg =
    (cfg.pppd_path
      ∷ codes "pty"
      ∷ shim_cmd cfg
      ∷ codes "noauth"
      ∷ codes "local"
      ∷ codes "nocrtscts"
      ∷ codes "nodetach"
      ∷ codes "noipdefault"
      ∷ codes "debug"
      ∷ codes "lcp-max-configure"
      ∷ codes "120"
      ∷ codes "noccp"
      ∷ codes "novj"
      ∷ [])
    ++ (auth_words cfg.auth
        ++ (option_words (codes "ms-dns") cfg.dns1
            ++ (option_words (codes "ms-dns") cfg.dns2
                ++ (option_words (codes "ip-up-script") cfg.ip_up_script
                    ++ (option_words (codes "ip-down-script") cfg.ip_down_script
                        ++ ip_spec cfg ∷ [])))))
