-- ===== src/AudioSocket/Open.antt =====
-- How a connection is opened (`sm_ast_listen`, `sm_ast_listen_unix`, `sm_ast_connect`,
-- `sm_ast_connect_unix` of sm_ast_socket.c), and the printed form of a call's UUID.
pub mod Clean
use v34_working.Base.{
  ℕ, ◌+◌, ◌/◌, ◌%◌, List, [], ◌∷◌, ◌++◌, Bool, true, false, ◌&&◌, ◌||◌, ◌==◌, zero, suc, ltb,
  get_or, Option, none, some, if◌then◌else◌,
}

-- What the system answers: the descriptor of the new socket, whether the text is an address, and
-- whether `bind`, `listen` and `connect` succeed.
pub record System : Type 0 where
  pub socket : Option ℕ
  pub is_address : Bool
  pub bound : Bool
  pub listens : Bool
  pub connected : Bool

-- The result, where `none` is -1, and the descriptors that are left open.
pub record Opened : Type 0 where
  pub result : Option ℕ
  pub left : List ℕ

-- A socket that is kept when all goes well, and closed otherwise.
abbrev pub keep_if : Bool → Option ℕ → Opened
keep_if ok none = record { result = none; left = [] }
keep_if ok (some fd) =
    if ok then record { result = some fd; left = fd ∷ [] } else record { result = none; left = [] }

-- `*` and the empty text stand for any address.
abbrev pub is_any : List ℕ → Bool
is_any [] = true
is_any (c ∷ []) = c == 42
is_any (c ∷ d ∷ cs) = false

unfoldable pub sm_ast_listen : List ℕ → System → Opened
sm_ast_listen bind_addr s =
    keep_if ((is_any bind_addr || s.is_address) && (s.bound && s.listens)) s.socket

unfoldable pub sm_ast_listen_unix : System → Opened
sm_ast_listen_unix s = keep_if (s.bound && s.listens) s.socket

unfoldable pub sm_ast_connect_unix : System → Opened
sm_ast_connect_unix s = keep_if s.connected s.socket

unfoldable pub sm_ast_connect : System → Opened
sm_ast_connect s = keep_if (s.is_address && s.connected) s.socket

-- `%02x` of a byte
abbrev pub hex_digit : ℕ → ℕ
hex_digit d = if ltb d 10 then 48 + d else 87 + d

abbrev pub hex_byte : ℕ → List ℕ
hex_byte b = hex_digit (b / 16) ∷ hex_digit (b % 16) ∷ []

-- `n` bytes from the `i`th on.
abbrev pub hex_bytes : ℕ → ℕ → List ℕ → List ℕ
hex_bytes zero i uuid = []
hex_bytes (suc n) i uuid = hex_byte (get_or uuid i 0) ++ hex_bytes n (i + 1) uuid

unfoldable pub sm_ast_uuid_string : List ℕ → List ℕ
sm_ast_uuid_string uuid =
    hex_bytes 4 0 uuid
    ++ (45
        ∷ (hex_bytes 2 4 uuid
            ++ (45
                ∷ (hex_bytes 2 6 uuid
                    ++ (45 ∷ (hex_bytes 2 8 uuid ++ (45 ∷ hex_bytes 6 10 uuid)))))))
