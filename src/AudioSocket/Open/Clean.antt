-- ===== src/AudioSocket/Open/Clean.antt =====
-- Nothing is left open behind a failure, and a UUID fits its text.
use v34_working.Base.{
  ℕ, ◌+◌, ◌≡◌, refl, List, [], ◌∷◌, Bool, true, false, Option, none, some, length, ◌⊎◌, inl, inr,
}
use v34_working.AudioSocket.Open.{
  System, Opened, keep_if, sm_ast_listen, sm_ast_listen_unix, sm_ast_connect, sm_ast_connect_unix,
  sm_ast_uuid_string,
}

-- The only descriptor that is left open is the one that is returned.
abbrev pub IsClean : Opened → Type 0
IsClean o =
    ((o.result ≡ none) × (o.left ≡ [])) ⊎ ((fd : ℕ) × (o.result ≡ some fd) × (o.left ≡ fd ∷ []))

keep_if-IsClean : (ok : Bool) (socket : Option ℕ) → IsClean (keep_if ok socket)
keep_if-IsClean ok none = inl (refl, refl)
keep_if-IsClean true (some fd) = inr (fd, refl, refl)
keep_if-IsClean false (some fd) = inl (refl, refl)

-- Each of the four ways to open a connection, wherever it fails, leaves open the descriptor that it
-- returns and no other.
pub opens_lem :
    (bind_addr : List ℕ) (s : System)
    → IsClean (sm_ast_listen bind_addr s)
      × IsClean (sm_ast_listen_unix s)
      × IsClean (sm_ast_connect s)
      × IsClean (sm_ast_connect_unix s)
unfolding sm_ast_listen sm_ast_listen_unix sm_ast_connect sm_ast_connect_unix
opens_lem bind_addr s = (
  keep_if-IsClean _ s.socket,
  keep_if-IsClean _ s.socket,
  keep_if-IsClean _ s.socket,
  keep_if-IsClean _ s.socket,
)

-- The 37 bytes of `out` hold the text and its 0, whatever the bytes.
pub length-sm_ast_uuid_string : (uuid : List ℕ) → length (sm_ast_uuid_string uuid) + 1 ≡ 37
unfolding sm_ast_uuid_string
length-sm_ast_uuid_string uuid = refl
