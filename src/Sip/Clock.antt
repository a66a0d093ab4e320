-- ===== src/Sip/Clock.antt =====
-- The pump's clock (`ts_add_ms`, src/sip/sm_sip.c) and the seconds and nanoseconds it counts in.
use v34_working.Base.{
  ℕ, zero, suc, ◌+◌, ◌-◌, ◌*◌, ◌/◌, ◌<◌, ◌≡◌, refl, subst, sym, leb, if◌then◌else◌, if_true, le→leb,
  arith,
}

-- `struct timespec`, at a time that is not negative.
pub record Timespec : Type 0 where
  pub tv_sec : ℕ
  pub tv_nsec : ℕ

abbrev pub second : ℕ
second = 1000000000

-- The `while` of `ts_add_ms`. The fuel is the number of whole seconds in `tv_nsec`.
unfoldable pub carry : ℕ → Timespec → Timespec
carry zero t = t
carry (suc fuel) t =
    let rest = carry fuel (record { tv_sec = t.tv_sec + 1; tv_nsec = t.tv_nsec - second }) in
    if leb second t.tv_nsec then rest else t

-- `ts_add_ms`
unfoldable pub ts_add_ms : Timespec → ℕ → Timespec
unfolding carry
ts_add_ms t ms =
    let nsec = t.tv_nsec + ms * 1000000 in carry (nsec / second) (record t { tv_nsec = nsec })

-- The time in nanoseconds.
abbrev pub total : Timespec → ℕ
total t = t.tv_sec * second + t.tv_nsec

-- As late as a time, with less than a second in the nanoseconds.
pub record Shows (nanoseconds : ℕ) (t : Timespec) : Type 0 where
  pub same : total t ≡ nanoseconds
  pub normal : t.tv_nsec < second

carry-Shows : (fuel : ℕ) (t : Timespec) → t.tv_nsec / second ≡ fuel → Shows (total t) (carry fuel t)
unfolding carry
carry-Shows zero t e = record { same = refl; normal = omega arith }
carry-Shows (suc fuel) t e =
    let t' : Timespec = record { tv_sec = t.tv_sec + 1; tv_nsec = t.tv_nsec - second } in
    let later = carry-Shows fuel t' (omega arith) in
    subst (Shows (total t))
      (sym (if_true (leb second t.tv_nsec) _ _ (le→leb second t.tv_nsec (omega arith))))
      (record { same = omega (arith, later.same); normal = later.normal })

-- The clock moves on by exactly the milliseconds given, with the nanoseconds below a second
-- again, however many seconds that takes.
pub ts_add_ms-Shows : (t : Timespec) (ms : ℕ) → Shows (total t + ms * 1000000) (ts_add_ms t ms)
unfolding ts_add_ms
ts_add_ms-Shows t ms =
    let t' : Timespec = record t { tv_nsec = t.tv_nsec + ms * 1000000 } in
    let s = carry-Shows (t'.tv_nsec / second) t' refl in
    record { same = omega (arith, s.same); normal = s.normal }
