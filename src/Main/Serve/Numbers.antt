-- ===== src/Main/Serve/Numbers.antt =====
-- The daemon's children are numbered in order, and it keeps none of their connections.
use v34_working.Base.{
  ℕ, ◌+◌, ◌≡◌, refl, ap, ◌∙◌, List, [], ◌∷◌, ◌++◌, Bool, true, false, ◌==◌, ==_iff, if-Has, length,
  length-append, arith, if_true,
}
use v34_working.Main.Serve.{
  Event, got, interrupted, aborted, failed, terminated, Parent, at_start, close, again, serve_one,
  on_event, serve,
}

-- The calls have the numbers from `n` on.
abbrev pub AreNumbered : ℕ → List (ℕ × ℕ) → Type 0
AreNumbered n [] = Unit
AreNumbered n ((seq, fd) ∷ calls) = (seq ≡ n) × AreNumbered (n + 1) calls

-- The next call's number is how many there were.
abbrev pub IsServed : Parent → Type 0
IsServed p = (p.held ≡ []) × AreNumbered 0 p.children × (length p.children ≡ p.call_seq)

AreNumbered-append :
    (n m : ℕ) (calls : List (ℕ × ℕ)) (fd : ℕ)
    → m ≡ n + length calls
    → AreNumbered n calls
    → AreNumbered n (calls ++ (m, fd) ∷ [])
AreNumbered-append n m [] fd e h = (omega arith, tt)
AreNumbered-append n m ((seq, other) ∷ calls) fd e (here, h) =
    (here, AreNumbered-append (n + 1) m calls fd (omega arith) h)

close_lem : (fd : ℕ) (held : List ℕ) → held ≡ [] → close fd (fd ∷ held) ≡ []
unfolding close
close_lem fd held e = if_true (fd == fd) _ _ ((==_iff fd fd).1 refl) ∙ ap (close fd) e

serve_one-IsServed :
    (fd : ℕ) (forked : Bool) (p : Parent) → IsServed p → IsServed (serve_one fd forked p)
unfolding serve_one
serve_one-IsServed fd true p (free, calls, count) = (
  close_lem fd p.held free,
  AreNumbered-append 0 p.call_seq p.children fd (omega arith) calls,
  length-append p.children ((p.call_seq, fd) ∷ []) ∙ ap (λ n. n + 1) count,
)
serve_one-IsServed fd false p (free, calls, count) = (close_lem fd p.held free, calls, count)

again-IsServed : (p : Parent) → IsServed p → IsServed (again p)
unfolding again
again-IsServed p h = if-Has IsServed p.g_run p (record p { listening = false }) (λ _. h) (λ _. h)

on_event-IsServed : (e : Event) (p : Parent) → IsServed p → IsServed (on_event e p)
unfolding on_event
on_event-IsServed (got fd forked) p h =
    again-IsServed (serve_one fd forked p) (serve_one-IsServed fd forked p h)
on_event-IsServed interrupted p h = again-IsServed p h
on_event-IsServed aborted p h = h
on_event-IsServed failed p h = h
on_event-IsServed terminated p h = h

serve-IsServed : (es : List Event) (p : Parent) → IsServed p → IsServed (serve es p)
unfolding serve
serve-IsServed [] p h = h
serve-IsServed (e ∷ es) p h =
    if-Has IsServed p.listening (serve es (on_event e p)) p
      (λ _. serve-IsServed es (on_event e p) (on_event-IsServed e p h)) (λ _. h)

-- Whatever happens to a daemon from its start, its children have the numbers 0, 1, 2 and so on in the
-- order of their connections, also where a fork fails, and it holds no connection itself.
pub serve-at_start : (es : List Event) → IsServed (serve es at_start)
serve-at_start es = serve-IsServed es at_start (refl, tt, refl)
