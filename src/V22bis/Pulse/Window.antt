-- ===== src/V22bis/Pulse/Window.antt =====
-- The ring of symbols as a window on the symbols sent.
use v34_working.Base.{
  ℕ, zero, suc, ◌+◌, ◌<◌, ◌%◌, ◌≡◌, ap₂, List, [], ◌∷◌, ◌++◌, drop, update, arith,
}
use v34_working.V22bis.Transmit.{Symbol}
use v34_working.V22bis.Pulse.{Shaper, filter_steps, next_step, taps, push}

-- What is in the filter, oldest first.
abbrev pub window : Shaper → List Symbol
unfolding taps
window s = taps filter_steps s.rrc_filter_step s.rrc_filter

-- A new symbol in the slot that is `n` slots on.
taps-update :
    (ring : ℕ → Symbol) (v : Symbol) (n step i : ℕ)
    → n < filter_steps
    → step < filter_steps
    → i ≡ (step + n) % filter_steps
    → taps (suc n) step (update ring i v) ≡ taps n step ring ++ v ∷ []
unfolding taps
taps-update ring v zero step i h in_ring e = ground arith
taps-update ring v (suc n) step i h in_ring e =
    ap₂ ◌∷◌ (ground arith)
      (taps-update ring v n (next_step step) i (omega arith) (ground arith) (ground arith))

pub window-push :
    (v : Symbol) (s : Shaper)
    → s.rrc_filter_step < filter_steps
    → window (push v s) ≡ drop 1 (window s) ++ v ∷ []
unfolding taps push
window-push v s h =
    taps-update s.rrc_filter v 8 (next_step s.rrc_filter_step) s.rrc_filter_step (omega arith)
      (ground arith) (ground arith)
