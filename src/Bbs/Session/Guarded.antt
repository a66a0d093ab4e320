-- ===== src/Bbs/Session/Guarded.antt =====
-- The login and the stages behind it, in `handle_line`.
use v34_working.Base.{
  skip_space, ℕ, ◌<◌, ◌≡◌, refl, ◌⊎◌, inl, inr, List, [], ◌∷◌, Bool, true, false, ◌&&◌, ◌||◌,
  Option, none, some, ltb, leb, ◌==◌, length, arith, if◌then◌else◌,
}
use v34_working.Bbs.Text.{same_word, begins, password_hash}
use v34_working.Bbs.Session.{
  Stage, select, login, password, new_name, new_password, term_query, term_ask, main, term_menu,
  term_ansi, term_size, term_charset, doors, door, Profile, Session, World, Door, prompt_main,
  begin_terminal, login_user, new_user, register_user, open_doors, main_menu, terminal_menu,
  set_size, enter, play_line, dispatch, handle_line, scan, door_find,
}

-- The stages that a caller has before the login.
abbrev pub Outside : Stage → Type 0
Outside select = Unit
Outside login = Unit
Outside password = Unit
Outside new_name = Unit
Outside new_password = Unit
Outside _ = ⊥

-- The caller is before the login, or is a user.
abbrev pub IsGuarded : {G : Type 0} → Session G → Type 0
IsGuarded s = Outside s.stage ⊎ (0 < s.user_id)

-- The data base numbers its users from 1.
pub record Numbers {G : Type 0} (w : World G) : Type 0 where
  pub found : (name : List ℕ) (hash : ℕ) (p : Profile) → w.find_user name hash ≡ some p → 0 < p.id
  pub inserted : (name : List ℕ) (hash id : ℕ) → w.insert_user name hash ≡ some id → 0 < id

module _ {G : Type 0} (w : World G) (numbers : Numbers w) where
  pub if-IsGuarded :
      (b : Bool) (x y : Session G) → IsGuarded x → IsGuarded y → IsGuarded (if b then x else y)
  if-IsGuarded true x y h k = h
  if-IsGuarded false x y h k = k

  begin_terminal-IsGuarded : (s : Session G) → 0 < s.user_id → IsGuarded (begin_terminal w s)
  unfolding begin_terminal prompt_main
  begin_terminal-IsGuarded s h = if-IsGuarded (ltb 0 s.columns && ltb 0 s.rows) _ _ (inr h) (inr h)

  login_user-IsGuarded :
      (found : Option Profile) (name : List ℕ) (s : Session G)
      → ((p : Profile) → found ≡ some p → 0 < p.id)
      → IsGuarded (login_user w found name s)
  unfolding login_user
  login_user-IsGuarded none name s h = inl tt
  login_user-IsGuarded (some p) name s h =
      let s' : Session G = record s {
        user_id = p.id;
        security = p.security;
        ansi = p.ansi;
        color = p.color;
        columns = p.columns;
        rows = p.rows;
        cp437 = p.cp437;
        handle = name;
      } in
      begin_terminal-IsGuarded s' (h p refl)

  new_user-IsGuarded :
      (id : Option ℕ) (name : List ℕ) (s : Session G)
      → ((n : ℕ) → id ≡ some n → 0 < n)
      → IsGuarded (new_user w id name s)
  unfolding new_user
  new_user-IsGuarded none name s h = inl tt
  new_user-IsGuarded (some n) name s h =
      let s' : Session G = record s { user_id = n; security = 10; handle = name } in
      begin_terminal-IsGuarded s' (h n refl)

  register_user-Numbers : (name pass : List ℕ) (n : ℕ) → register_user w name pass ≡ some n → 0 < n
  unfolding register_user
  register_user-Numbers name pass n e =
      guarded ((length name == 0) || (ltb 32 (length name) || (length pass == 0))) e
    where
      guarded :
          (b : Bool)
          → (if b then none else w.insert_user name (password_hash name pass)) ≡ some n
          → 0 < n
      guarded true e' = absurd (ground arith)
      guarded false e' = numbers.inserted name (password_hash name pass) n e'

  main_menu-IsGuarded :
      (line : List ℕ) (s : Session G) → 0 < s.user_id → IsGuarded (main_menu w line s)
  unfolding main_menu open_doors prompt_main
  main_menu-IsGuarded line s h = if-IsGuarded (begins 100 68 line) _ _ (inr h) (
      if-IsGuarded (begins 99 67 line) s _ (inr h) (
        if-IsGuarded (begins 116 84 line) _ _ (inr h) (
          if-IsGuarded (begins 104 72 line) s _ (inr h) (
            if-IsGuarded (begins 112 80 line) _ _ (inr h)
              (if-IsGuarded (begins 113 81 line) _ _ (inr h) (inr h))))))

  terminal_menu-IsGuarded :
      (line : List ℕ) (s : Session G) → 0 < s.user_id → IsGuarded (terminal_menu w line s)
  unfolding terminal_menu prompt_main
  terminal_menu-IsGuarded line s h = if-IsGuarded (begins 97 65 line) _ _ (inr h) (
      if-IsGuarded (begins 115 83 line) _ _ (inr h)
        (if-IsGuarded (begins 99 67 line) _ _ (inr h) (inr h)))

  -- A new screen size changes no user.
  user_id-set_size : (line : List ℕ) (s : Session G) → (set_size w line s).user_id ≡ s.user_id
  unfolding set_size
  user_id-set_size line s = first (scan line)
    where
      keep :
          (b : Bool) (x : Session G)
          → x.user_id ≡ s.user_id
          → (if b then x else s).user_id ≡ s.user_id
      keep true x e = e
      keep false x e = refl

      second :
          (c : ℕ) (q : Option (ℕ × List ℕ))
          → (elim q as (λ _. Session G) [
            | none ↦ s
            | some r ↦
                if (leb 20 c && leb c 300) && (leb 10 r.0 && leb r.0 120)
                then record s { columns = c; rows = r.0 }
                else s
          ]).user_id
            ≡ s.user_id
      second c none = refl
      second c (some r) = keep ((leb 20 c && leb c 300) && (leb 10 r.0 && leb r.0 120)) _ refl

      first :
          (q : Option (ℕ × List ℕ))
          → (elim q as (λ _. Session G) [
            | none ↦ s
            | some r ↦ elim (scan r.1) as (λ _. Session G) [
              | none ↦ s
              | some r' ↦
                  if (leb 20 r.0 && leb r.0 300) && (leb 10 r'.0 && leb r'.0 120)
                  then record s { columns = r.0; rows = r'.0 }
                  else s
            ]
          ]).user_id
            ≡ s.user_id
      first none = refl
      first (some r) = second r.0 (scan r.1)

  enter-IsGuarded : (d : Option Door) (s : Session G) → 0 < s.user_id → IsGuarded (enter w d s)
  unfolding enter
  enter-IsGuarded none s h = inr h
  enter-IsGuarded (some d) s h = inr h

  play_line-IsGuarded :
      (d : Option Door) (line : List ℕ) (s : Session G)
      → 0 < s.user_id
      → IsGuarded (play_line w d line s)
  unfolding play_line
  play_line-IsGuarded none line s h = inr h
  play_line-IsGuarded (some d) line s h =
      if-IsGuarded (w.input_line d line s.games).0 _ _ (inr h) (inr h)

  password-IsGuarded : (line : List ℕ) (s : Session G) → IsGuarded (dispatch w password line s)
  unfolding dispatch
  password-IsGuarded line s =
      let hash = password_hash s.pending_name line in
      login_user-IsGuarded (w.find_user s.pending_name hash) s.pending_name s
        (λ p. numbers.found s.pending_name hash p)

  new_password-IsGuarded :
      (line : List ℕ) (s : Session G) → IsGuarded (dispatch w new_password line s)
  unfolding dispatch
  new_password-IsGuarded line s =
      new_user-IsGuarded (register_user w s.pending_name line) s.pending_name s
        (register_user-Numbers s.pending_name line)

  -- A user's line, in any stage.
  user-IsGuarded :
      (stage : Stage) (line : List ℕ) (s : Session G)
      → 0 < s.user_id
      → IsGuarded (dispatch w stage line s)
  unfolding dispatch prompt_main
  user-IsGuarded select line s h =
      if-IsGuarded (same_word line (66 ∷ 66 ∷ 83 ∷ [])) _ _ (inl tt) (inr h)
  user-IsGuarded login line s h =
      if-IsGuarded (same_word line (78 ∷ 69 ∷ 87 ∷ [])) _ _ (inl tt) (inl tt)
  user-IsGuarded password line s h = password-IsGuarded line s
  user-IsGuarded new_name line s h = inl tt
  user-IsGuarded new_password line s h = new_password-IsGuarded line s
  user-IsGuarded term_query line s h = inr h
  user-IsGuarded term_ask line s h = inr h
  user-IsGuarded term_ansi line s h = inr h
  user-IsGuarded main line s h = main_menu-IsGuarded line s h
  user-IsGuarded term_menu line s h = terminal_menu-IsGuarded line s h
  user-IsGuarded term_size line s h = inr (omega (arith, user_id-set_size line s, h))
  user-IsGuarded term_charset line s h = inr h
  user-IsGuarded doors line s h =
      if-IsGuarded (begins 113 81 line) _ _ (inr h) (enter-IsGuarded (door_find line) s h)
  user-IsGuarded door line s h = play_line-IsGuarded s.playing line s h

  Outside-IsGuarded :
      (stage : Stage) (line : List ℕ) (s : Session G)
      → Outside stage
      → Outside s.stage
      → IsGuarded (dispatch w stage line s)
  unfolding dispatch
  Outside-IsGuarded select line s o o' =
      if-IsGuarded (same_word line (66 ∷ 66 ∷ 83 ∷ [])) _ _ (inl tt) (inl o')
  Outside-IsGuarded login line s o o' =
      if-IsGuarded (same_word line (78 ∷ 69 ∷ 87 ∷ [])) _ _ (inl tt) (inl tt)
  Outside-IsGuarded password line s o o' = password-IsGuarded line s
  Outside-IsGuarded new_name line s o o' = inl tt
  Outside-IsGuarded new_password line s o o' = new_password-IsGuarded line s
  Outside-IsGuarded _ line s o o' = absurd o

  -- A line keeps the session guarded.
  pub handle_line-IsGuarded :
      (line : List ℕ) (s : Session G) → IsGuarded s → IsGuarded (handle_line w line s)
  unfolding handle_line
  handle_line-IsGuarded line s (inl o) = Outside-IsGuarded s.stage (skip_space line) s o o
  handle_line-IsGuarded line s (inr h) = user-IsGuarded s.stage (skip_space line) s h
