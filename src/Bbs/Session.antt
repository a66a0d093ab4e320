-- ===== src/Bbs/Session.antt =====
-- The session of `src/bbs/bbs.c` and its menus (`handle_line`). The data base and the games are
-- parameters. The text that is written is left out, but for the echo of what the caller types.
pub mod Guarded
use v34_working.Base.{
  skip_space, skip_plus, digits, lower, ℕ, zero, suc, ◌+◌, ◌-◌, ◌*◌, List, [], ◌∷◌, ◌++◌, Bool,
  true, false, not, ◌&&◌, ◌||◌, Option, none, some, ltb, leb, ◌==◌, min, length, take, drop,
  if◌then◌else◌,
}
use v34_working.Bbs.Text.{same_word, first_char, begins, password_hash}

-- `enum stage`
pub data Stage : Type 0 where
  select login password new_name new_password term_query term_ask main term_menu term_ansi term_size
        term_charset doors door :
      Stage

-- BBS_ROUTE_*
pub data Route : Type 0 where
  undecided bbs ppp hangup : Route

-- The `doors` table of door_manager.c.
pub data Door : Type 0 where
  blackjack hangman space_trader dungeon speed_challenge : Door

-- What a row of `users` gives to the session.
pub record Profile : Type 0 where
  pub id : ℕ
  pub security : ℕ
  pub ansi : Bool
  pub color : Bool
  pub columns : ℕ
  pub rows : ℕ
  pub cp437 : Bool

-- `struct bbs_session`. `line`, `query` and `ppp` are the filled parts of the C arrays; `games` is
-- what the games keep.
pub record Session (G : Type 0) : Type 0 where
  pub route : Route
  pub stage : Stage
  pub line : List ℕ
  pub query : List ℕ
  pub query_ms : ℕ
  pub ppp_bytes : List ℕ
  pub user_id : ℕ
  pub security : ℕ
  pub handle : List ℕ
  pub pending_name : List ℕ
  pub ansi : Bool
  pub color : Bool
  pub columns : ℕ
  pub rows : ℕ
  pub cp437 : Bool
  pub playing : Option Door
  pub games : G
  pub echo : List ℕ

-- The data base: the user of a name with this hash, and the number of a new row, unless the name is
-- taken. The games: opened, and given a line, after which they may return to the menu.
pub record World (G : Type 0) : Type 0 where
  pub find_user : List ℕ → ℕ → Option Profile
  pub insert_user : List ℕ → ℕ → Option ℕ
  pub open_door : Door → G → G
  pub input_line : Door → List ℕ → G → Bool × G

-- `door_find`
unfoldable pub door_find : List ℕ → Option Door
unfolding same_word
door_find key =
    if same_word key (49 ∷ [])
    then some blackjack
    else if same_word key (50 ∷ [])
    then some hangman
    else if same_word key (51 ∷ [])
    then some space_trader
    else if same_word key (52 ∷ [])
    then some dungeon
    else if same_word key (83 ∷ [])
    then some speed_challenge
    else none

-- One `%d` of `sscanf`, with a plus sign or none; a minus sign is not read.
unfoldable pub scan : List ℕ → Option (ℕ × List ℕ)
unfolding skip_space skip_plus digits
scan cs =
    let t = skip_plus (skip_space cs) in
    if leb 48 (first_char t) && leb (first_char t) 57 then some (digits 0 t) else none

module _ {G : Type 0} (w : World G) where
  -- `prompt_main`
  unfoldable pub prompt_main : Session G → Session G
  prompt_main s = record s { stage = main }

  -- `begin_terminal`
  unfoldable pub begin_terminal : Session G → Session G
  unfolding prompt_main
  begin_terminal s =
      if ltb 0 s.columns && ltb 0 s.rows
      then prompt_main s
      else record s { stage = term_query; query_ms = 0; query = [] }

  -- `login_lookup`, with what follows it in either case.
  unfoldable pub login_user : Option Profile → List ℕ → Session G → Session G
  unfolding begin_terminal
  login_user none name s = record s { stage = login }
  login_user (some p) name s = begin_terminal (record s {
    user_id = p.id;
    security = p.security;
    ansi = p.ansi;
    color = p.color;
    columns = p.columns;
    rows = p.rows;
    cp437 = p.cp437;
    handle = name;
  })

  -- `register_user`, with what follows it in either case.
  unfoldable pub new_user : Option ℕ → List ℕ → Session G → Session G
  unfolding begin_terminal
  new_user none name s = record s { stage = login }
  new_user (some id) name s =
      begin_terminal (record s { user_id = id; security = 10; handle = name })

  -- The guard of `register_user`, and the insertion.
  unfoldable pub register_user : List ℕ → List ℕ → Option ℕ
  unfolding password_hash
  register_user name pass =
      if (length name == 0) || (ltb 32 (length name) || (length pass == 0))
      then none
      else w.insert_user name (password_hash name pass)

  -- `open_doors`
  unfoldable pub open_doors : Session G → Session G
  open_doors s = record s { stage = doors }

  -- The `case ST_MAIN`.
  unfoldable pub main_menu : List ℕ → Session G → Session G
  unfolding open_doors prompt_main
  main_menu line s =
      if begins 100 68 line
      then open_doors s
      else if begins 99 67 line
      then s
      else if begins 116 84 line
      then record s { stage = term_menu }
      else if begins 104 72 line
      then s
      else if begins 112 80 line
      then record s { route = ppp }
      else if begins 113 81 line
      then record s { route = hangup }
      else prompt_main s

  -- The `case ST_TERM_MENU`.
  unfoldable pub terminal_menu : List ℕ → Session G → Session G
  unfolding prompt_main
  terminal_menu line s =
      if begins 97 65 line
      then record s { stage = term_ansi }
      else if begins 115 83 line
      then record s { stage = term_size }
      else if begins 99 67 line
      then record s { stage = term_charset }
      else prompt_main s

  -- The two numbers of the `case ST_TERM_SIZE`.
  unfoldable pub set_size : List ℕ → Session G → Session G
  unfolding scan
  set_size line s = elim (scan line) [
    | none ↦ s
    | some r ↦ elim (scan r.1) [
      | none ↦ s
      | some q ↦
          if (leb 20 r.0 && leb r.0 300) && (leb 10 q.0 && leb q.0 120)
          then record s { columns = r.0; rows = q.0 }
          else s
    ]
  ]

  -- The door that was asked for.
  unfoldable pub enter : Option Door → Session G → Session G
  enter none s = s
  enter (some d) s = record s { playing = some d; stage = door; games = w.open_door d s.games }

  -- A line for the game, which may call `door_return`.
  unfoldable pub play_line : Option Door → List ℕ → Session G → Session G
  play_line none line s = s
  play_line (some d) line s =
      let (leaves, games) = w.input_line d line s.games in
      if leaves
      then record s { playing = none; stage = doors; games = games }
      else record s { games = games }

  -- The `switch` of `handle_line`.
  unfoldable pub dispatch : Stage → List ℕ → Session G → Session G
  unfolding login_user register_user new_user main_menu terminal_menu set_size enter play_line
      prompt_main
  dispatch select line s =
      let s' = record s { ppp_bytes = [] } in
      if same_word line (66 ∷ 66 ∷ 83 ∷ [])
      then record s' { route = bbs; stage = login }
      else record s' { route = ppp }
  dispatch login line s =
      if same_word line (78 ∷ 69 ∷ 87 ∷ [])
      then record s { stage = new_name }
      else record s { pending_name = take 47 line; stage = password }
  dispatch password line s =
      login_user (w.find_user s.pending_name (password_hash s.pending_name line)) s.pending_name s
  dispatch new_name line s = record s { pending_name = take 47 line; stage = new_password }
  dispatch new_password line s = new_user (register_user s.pending_name line) s.pending_name s
  dispatch term_query line s = prompt_main s
  dispatch term_ask line s =
      let yes_ansi = begins 121 89 line || same_word line (65 ∷ 78 ∷ 83 ∷ 73 ∷ []) in
      prompt_main (record s { ansi = yes_ansi; color = yes_ansi; columns = 80; rows = 24 })
  dispatch term_ansi line s =
      let yes_ansi = begins 121 89 line || same_word line (65 ∷ 78 ∷ 83 ∷ 73 ∷ []) in
      prompt_main (record s { ansi = yes_ansi; color = yes_ansi; columns = 80; rows = 24 })
  dispatch main line s = main_menu line s
  dispatch term_menu line s = terminal_menu line s
  dispatch term_size line s = prompt_main (set_size line s)
  dispatch term_charset line s = prompt_main (record s { cp437 = begins 99 67 line })
  dispatch doors line s = if begins 113 81 line then prompt_main s else enter (door_find line) s
  dispatch door line s = play_line s.playing line s

  -- `handle_line`
  unfoldable pub handle_line : List ℕ → Session G → Session G
  unfolding dispatch skip_space
  handle_line line s = dispatch s.stage (skip_space line) s
