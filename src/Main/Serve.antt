-- ===== src/Main/Serve.antt =====
-- The daemon's loop over its callers (`main` of sm_daemon.c, `sm_ast_accept` of sm_ast_socket.c). The
-- call that a child makes is the call controller's.
pub mod Numbers
use v34_working.Base.{ℕ, ◌+◌, List, [], ◌∷◌, ◌++◌, Bool, true, false, not, ◌==◌, if◌then◌else◌}

-- What happens while `accept` waits: a connection, with the outcome of the `fork` that follows it, a
-- call that fails with EINTR, with ECONNABORTED or otherwise, or SIGTERM or SIGINT, after which
-- `accept` is started again (SA_RESTART).
pub data Event : Type 0 where
  got : ℕ → Bool → Event
  interrupted aborted failed terminated : Event

-- The parent: `g_run`, the number of the next call, the descriptors of connections that it holds, and
-- the calls of its children, with the connection of each.
pub record Parent : Type 0 where
  pub g_run : Bool
  pub call_seq : ℕ
  pub held : List ℕ
  pub children : List (ℕ × ℕ)
  pub listening : Bool

abbrev pub at_start : Parent
at_start = record { g_run = true; call_seq = 0; held = []; children = []; listening = true }

-- `close`
unfoldable pub close : ℕ → List ℕ → List ℕ
close fd [] = []
close fd (x ∷ xs) = let rest = close fd xs in if x == fd then rest else x ∷ rest

-- The test of the loop, and what follows the loop.
unfoldable pub again : Parent → Parent
again p = if p.g_run then p else record p { listening = false }

-- The body of the loop once there is a connection.
unfoldable pub serve_one : ℕ → Bool → Parent → Parent
unfolding close
serve_one fd forked p =
    let p' = record p { held = close fd (fd ∷ p.held) } in
    if forked
    then record p' { children = p.children ++ (p.call_seq, fd) ∷ []; call_seq = p.call_seq + 1 }
    else p'

unfoldable pub on_event : Event → Parent → Parent
unfolding again serve_one
on_event (got fd forked) p = again (serve_one fd forked p)
on_event interrupted p = again p
on_event aborted p = p
on_event failed p = record p { listening = false }
on_event terminated p = record p { g_run = false }

-- The events in order, until the loop ends.
unfoldable pub serve : List Event → Parent → Parent
unfolding on_event
serve [] p = p
serve (e ∷ es) p = let rest = serve es (on_event e p) in if p.listening then rest else p
