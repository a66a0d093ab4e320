-- ===== src/Tests/Bbs.antt =====
-- A board with one user, whose name and password are "al" and "pw".
use v34_working.Base.{
  ℕ, suc, ◌<◌, ◌≡◌, List, [], ◌∷◌, Bool, true, false, Option, none, some, if◌then◌else◌, ◌==◌, ◌&&◌,
  arith, ap,
}
use v34_working.Bbs.Text.{same_word, password_hash}
use v34_working.Bbs.Session.{World, Profile}
use v34_working.Bbs.Feed.{feed_all, bbs_session_create}
use v34_working.Bbs.Session.Guarded.{Numbers, IsGuarded}
use v34_working.Bbs.Feed.Login.{feed_all-bbs_session_create}

abbrev al : List ℕ
al = 97 ∷ 108 ∷ []

abbrev al_capital : List ℕ
al_capital = 65 ∷ 76 ∷ []

abbrev pw : List ℕ
pw = 112 ∷ 119 ∷ []

-- The user, and a new row under the number 2.
abbrev world : World ℕ
world = record {
  find_user = λ name hash.
      if same_word name al && (hash == password_hash al pw)
      then some (record {
        id = 1;
        security = 10;
        ansi = true;
        color = true;
        columns = 80;
        rows = 24;
        cp437 = false;
      })
      else none;
  insert_user = λ name hash. some 2;
  open_door = λ d n. suc n;
  input_line = λ d line n. (true, n);
}

abbrev id_of : Option Profile → ℕ
id_of none = 1
id_of (some p) = p.id

abbrev number_of : Option ℕ → ℕ
number_of none = 1
number_of (some n) = n

world-Numbers : Numbers world
world-Numbers = record {
  found = λ name hash p e. known (same_word name al && (hash == password_hash al pw)) p e;
  inserted = λ name hash id e. omega (arith, ap number_of e);
}
  where
    known :
        (b : Bool) (p : Profile)
        → (if b
            then some (record {
              id = 1;
              security = 10;
              ansi = true;
              color = true;
              columns = 80;
              rows = 24;
              cp437 = false;
            })
            else none)
          ≡ some p
        → 0 < p.id
    known true p e = omega (arith, ap id_of e)
    known false p e = omega (arith, ap id_of e)

-- "bbs", the name, the password and a choice of the main menu, in two pieces.
abbrev pieces : List (List ℕ)
pieces = (98 ∷ 98 ∷ 115 ∷ 13 ∷ 97 ∷ 108 ∷ 13 ∷ 112 ∷ []) ∷ (119 ∷ 13 ∷ 100 ∷ 13 ∷ []) ∷ []

feed_all-bbs_session_create_example : IsGuarded (feed_all world pieces (bbs_session_create world 0))
feed_all-bbs_session_create_example = feed_all-bbs_session_create world world-Numbers pieces 0
