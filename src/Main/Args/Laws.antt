-- ===== src/Main/Args/Laws.antt =====
-- The loop over the command line against a list of settings that are made in order.
use v34_working.Base.{
  ℕ, ◌≡◌, refl, sym, ap, ap₂, ◌∙◌, List, [], ◌∷◌, true, Option, none, some, if-Has, subst, arith,
}
use v34_working.Main.Args.{
  Kind, Verdict, takes, sets, help, unknown, run, or_stop, on_word, same, look_up, parse_loop,
}

-- One option as it is meant.
pub data Setting (K F : Type 0) : Type 0 where
  value : K → List ℕ → Setting K F
  flag : F → Setting K F

same_lem : (a b : List ℕ) → same a b ≡ true → a ≡ b
unfolding same
same_lem [] [] e = refl
same_lem [] (c ∷ cs) e = cc
same_lem (b ∷ bs) [] e = cc
same_lem (b ∷ bs) (c ∷ cs) e = ground (arith, same_lem bs cs)

module _ {K F : Type 0} where
  -- Every entry is under the name that it is called by.
  abbrev pub IsNamed : (Kind K F → List ℕ → Type 0) → List (List ℕ × Kind K F) → Type 0
  IsNamed P [] = Unit
  IsNamed P ((name, kind) ∷ more) = P kind name × IsNamed P more

  -- What is found stands in the table under this word.
  pub look_up-IsNamed :
      (P : Kind K F → List ℕ → Type 0) (table : List (List ℕ × Kind K F)) (word : List ℕ)
      → IsNamed P table
      → P unknown word
      → P (look_up table word) word
  unfolding look_up
  look_up-IsNamed P [] word all other = other
  look_up-IsNamed P ((name, kind) ∷ more) word (here, all) other =
      if-Has (λ k. P k word) (same word name) _ _
        (λ e. subst (P kind) (sym (same_lem word name e)) here)
        (λ _. look_up-IsNamed P more word all other)

module _ {K F O : Type 0} (set_value : K → List ℕ → O → Option O) (set_flag : F → O → O) where
  -- The settings, made in order.
  abbrev pub apply : List (Setting K F) → O → Verdict O
  apply [] o = run o
  apply (flag f ∷ ss) o = apply ss (set_flag f o)
  apply (value k v ∷ ss) o = or_stop (apply ss) (set_value k v o)

module _ {K F : Type 0} (key_name : K → List ℕ) (flag_name : F → List ℕ) where
  -- The words for the settings.
  abbrev pub spell : List (Setting K F) → List (List ℕ)
  spell [] = []
  spell (flag f ∷ ss) = flag_name f ∷ spell ss
  spell (value k v ∷ ss) = key_name k ∷ v ∷ spell ss

  -- What a word is found to be, it is the name of.
  abbrev pub Called : Kind K F → List ℕ → Type 0
  Called (takes k) word = key_name k ≡ word
  Called (sets f) word = flag_name f ≡ word
  Called help word = Unit
  Called unknown word = Unit

module _ {O : Type 0} where
  or_stop_ext :
      (f g : O → Verdict O) (r : Option O) → ((o : O) → f o ≡ g o) → or_stop f r ≡ or_stop g r
  or_stop_ext f g none h = refl
  or_stop_ext f g (some o) h = h o

  or_stop-run :
      (f : O → Verdict O) (r : Option O) (o' : O)
      → or_stop f r ≡ run o'
      → (o : O) × (r ≡ some o) × (f o ≡ run o')
  or_stop-run f none o' e = cc
  or_stop-run f (some o) o' e = (o, refl, e)

module _ {K F O : Type 0} (kind : List ℕ → Kind K F) (set_value : K → List ℕ → O → Option O)
    (set_flag : F → O → O) (key_name : K → List ℕ) (flag_name : F → List ℕ) where
  -- Settings that are spelled out are made.
  pub parse_loop-spell :
      ((k : K) → kind (key_name k) ≡ takes k)
      → ((f : F) → kind (flag_name f) ≡ sets f)
      → (ss : List (Setting K F)) (o : O)
      → parse_loop kind set_value set_flag (spell key_name flag_name ss) none o
        ≡ apply set_value set_flag ss o
  unfolding parse_loop
  parse_loop-spell keys flags [] o = refl
  parse_loop-spell keys flags (flag f ∷ ss) o =
      rw (flags f) (parse_loop-spell keys flags ss (set_flag f o))
  parse_loop-spell keys flags (value k v ∷ ss) o =
      rw (keys k) (or_stop_ext _ _ (set_value k v o) (parse_loop-spell keys flags ss))

  abbrev waiting : Option K → List (List ℕ) → List (List ℕ)
  waiting none words = words
  waiting (some k) words = key_name k ∷ words

  -- The settings behind a run.
  abbrev pub Behind : List (List ℕ) → O → O → Type 0
  Behind words o o' =
      (ss : List (Setting K F)) × (spell key_name flag_name ss ≡ words)
      × (apply set_value set_flag ss o ≡ run o')

  on_word-run :
      (words : List (List ℕ)) (word : List ℕ) (o o' : O)
      → ((k : K)
          → parse_loop kind set_value set_flag words (some k) o ≡ run o'
          → Behind (key_name k ∷ words) o o')
      → ((f : F)
          → parse_loop kind set_value set_flag words none (set_flag f o) ≡ run o'
          → Behind words (set_flag f o) o')
      → (k : Kind K F) → Called key_name flag_name k word
      → on_word
          (λ k. parse_loop kind set_value set_flag words (some k) o)
          (λ f. parse_loop kind set_value set_flag words none (set_flag f o))
          k
        ≡ run o'
      → Behind (word ∷ words) o o'
  on_word-run words word o o' wait set (takes k) named e =
      let (ss, p, q) = wait k e in (ss, p ∙ ap (λ w. w ∷ words) named, q)
  on_word-run words word o o' wait set (sets f) named e =
      let (ss, p, q) = set f e in (flag f ∷ ss, ap₂ ◌∷◌ named p, q)
  on_word-run words word o o' wait set help named e = cc
  on_word-run words word o o' wait set unknown named e = cc

  -- What runs is spelled out by some settings.
  pub parse_loop-run :
      ((word : List ℕ) → Called key_name flag_name (kind word) word)
      → (words : List (List ℕ)) (waits : Option K) (o o' : O)
      → parse_loop kind set_value set_flag words waits o ≡ run o'
      → Behind (waiting waits words) o o'
  unfolding parse_loop
  parse_loop-run called [] none o o' e = ([], refl, e)
  parse_loop-run called [] (some k) o o' e = cc
  parse_loop-run called (word ∷ words) (some k) o o' e =
      let (o₁, here, e₁) = or_stop-run _ (set_value k word o) o' e in
      let (ss, p, q) = parse_loop-run called words none o₁ o' e₁ in
      (
        value k word ∷ ss,
        ap (λ ws. key_name k ∷ word ∷ ws) p,
        ap (or_stop (apply set_value set_flag ss)) here ∙ q,
      )
  parse_loop-run called (word ∷ words) none o o' e =
      on_word-run words word o o' (λ k. parse_loop-run called words (some k) o o')
        (λ f. parse_loop-run called words none (set_flag f o) o') (kind word) (called word) e

module _ {K F O : Type 0} (set_value : K → List ℕ → O → Option O) (set_flag : F → O → O) where
  -- What every setting keeps, holds of the options of a run.
  pub apply-Keeps :
      (P : O → Type 0)
      → ((k : K) (v : List ℕ) (o o' : O) → set_value k v o ≡ some o' → P o → P o')
      → ((f : F) (o : O) → P o → P (set_flag f o))
      → (ss : List (Setting K F)) (o o' : O) → apply set_value set_flag ss o ≡ run o'
      → P o
      → P o'
  apply-Keeps P value_keeps flag_keeps [] o o' e h = let same : o ≡ o' = cc in subst P same h
  apply-Keeps P value_keeps flag_keeps (flag f ∷ ss) o o' e h =
      apply-Keeps P value_keeps flag_keeps ss (set_flag f o) o' e (flag_keeps f o h)
  apply-Keeps P value_keeps flag_keeps (value k v ∷ ss) o o' e h =
      let (o₁, here, e₁) = or_stop-run _ (set_value k v o) o' e in
      apply-Keeps P value_keeps flag_keeps ss o₁ o' e₁ (value_keeps k v o o₁ here h)
