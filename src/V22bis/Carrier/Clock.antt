-- ===== src/V22bis/Carrier/Clock.antt =====
-- The receiver's clock, on signed numbers, and its correction.
use v34_working.Base.{
  ℕ, ◌+◌, ◌-◌, ◌*◌, ◌/◌, ◌≤◌, ◌<◌, ◌≡◌, refl, sym, ap, ◌∙◌, if-Has, Bool, true, false, leb, ℤ, pos,
  negsuc, raise, lower_by, arith, if_true, if◌then◌else◌,
}
use v34_working.V22bis.Carrier.{
  Front, first_step, coeff_sets, magnitude, add_sixteenth, integrate, symbol_sync, is_due,
}

abbrev pub bit : Bool → ℕ
bit b = if b then 1 else 0

-- The next insertion is ahead, and what the clock recovery has gathered is small.
pub record IsPaced (f : Front) : Type 0 where
  pub ahead : f.eq_put_step ≡ pos (magnitude f.eq_put_step)
  pub low : 1 ≤ magnitude f.eq_put_step
  pub high : magnitude f.eq_put_step ≤ 96
  pub half : f.baud_phase ≤ 1
  pub small : magnitude f.gardner_integrate ≤ 15

pub lower-pos : (e : ℕ) → 12 < e → lower_by (pos e) coeff_sets ≡ pos (e - 12)
unfolding lower_by
lower-pos e h = ground arith

pub is_due-lower : (e : ℕ) → is_due (lower_by (pos e) coeff_sets) ≡ leb e 12
unfolding lower_by
is_due-lower e = ground arith

pub raise-lower :
    (e : ℕ) → raise (lower_by (pos e) coeff_sets) (coeff_sets * 40 / (3 * 2)) ≡ pos (e + 68)
unfolding lower_by raise
raise-lower e = ground arith

pub add_sixteenth_lem :
    (x : ℕ) (g : ℤ)
    → magnitude g ≤ 271
    → 17 ≤ x
    → (y : ℕ) × (add_sixteenth (pos x) g ≡ pos y) × (x ≤ y + 16) × (y ≤ x + 16)
unfolding lower_by raise
add_sixteenth_lem x (pos a) h k = (x + a / 16, refl, omega arith, omega arith)
add_sixteenth_lem x (negsuc a) h k =
    (x - (a + 1) / 16, if_true (leb ((a + 1) / 16) x) _ _ (ground arith), omega arith, omega arith)

magnitude-raise : (g : ℤ) (n : ℕ) → magnitude (raise g n) ≤ magnitude g + n
unfolding raise
magnitude-raise (pos a) n = omega arith
magnitude-raise (negsuc a) n = ground arith

magnitude-lower : (g : ℤ) (n : ℕ) → magnitude (lower_by g n) ≤ magnitude g + n
unfolding lower_by
magnitude-lower (pos a) n = ground arith
magnitude-lower (negsuc a) n = omega arith

pub integrate_lem :
    (b : Bool) (f : Front)
    → magnitude (integrate b f) ≤ magnitude f.gardner_integrate + f.modem.gardner_step
unfolding integrate
integrate_lem true f = magnitude-raise f.gardner_integrate f.modem.gardner_step
integrate_lem false f = magnitude-lower f.gardner_integrate f.modem.gardner_step

-- The clock behind a symbol, which may have reset it: within 16 of its pace, or 45 short of that.
pub choose_step :
    (r : Bool) (y : ℤ) (x : ℕ)
    → y ≡ pos (magnitude y)
    → 1 ≤ magnitude y
    → magnitude y ≤ 96
    → x ≤ magnitude y + 16
    → magnitude y ≤ x + 16
    → 69 ≤ x
    → x ≤ 80
    → let z = if r then first_step else y in
      (z ≡ pos (magnitude z))
      × (1 ≤ magnitude z)
      × (magnitude z ≤ 96)
      × (x ≤ magnitude z + 16 + 45 * bit r)
      × (magnitude z ≤ x + 16)
choose_step true y x h a b c d k l = (refl, omega arith, omega arith, omega arith, omega arith)
choose_step false y x h a b c d k l = (h, a, b, omega arith, d)

-- The clock is corrected by 16 at most, and nothing else is touched.
pub record Corrected (x : ℕ) (f f' : Front) : Type 0 where
  pub paced : IsPaced f'
  pub same_modem : f'.modem ≡ f.modem
  pub same_signal : f'.signal_present ≡ f.signal_present
  pub same_half : f'.baud_phase ≡ f.baud_phase
  pub least : x ≤ magnitude f'.eq_put_step + 16
  pub most : magnitude f'.eq_put_step ≤ x + 16

pub symbol_sync-Corrected :
    (b : Bool) (f : Front) (x : ℕ)
    → f.eq_put_step ≡ pos x
    → 69 ≤ x
    → x ≤ 80
    → f.baud_phase ≤ 1
    → magnitude f.gardner_integrate ≤ 15
    → f.modem.gardner_step ≤ 256
    → Corrected x f (symbol_sync b f)
unfolding symbol_sync
symbol_sync-Corrected b f x e h k z small step =
    let g = integrate b f in
    if-Has (Corrected x f) (leb 16 (magnitude g)) _ _
      (λ _.
        let (y, c, lo, hi) =
          add_sixteenth_lem x g (omega (arith, integrate_lem b f)) (omega arith) in
        let there : add_sixteenth f.eq_put_step g ≡ pos y = ap (λ p. add_sixteenth p g) e ∙ c in
        let size : magnitude (add_sixteenth f.eq_put_step g) ≡ y = ap magnitude there in
        record {
          paced = record {
            ahead = there ∙ ap pos (sym size);
            low = omega arith;
            high = omega arith;
            half = omega arith;
            small = omega arith;
          };
          same_modem = refl;
          same_signal = refl;
          same_half = refl;
          least = omega arith;
          most = omega arith;
        })
      (λ little.
        let size : magnitude f.eq_put_step ≡ x = ap magnitude e in
        record {
          paced = record {
            ahead = e ∙ ap pos (sym size);
            low = omega arith;
            high = omega arith;
            half = omega arith;
            small = ground arith;
          };
          same_modem = refl;
          same_signal = refl;
          same_half = refl;
          least = omega arith;
          most = omega arith;
        })
