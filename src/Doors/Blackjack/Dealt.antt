-- ===== src/Doors/Blackjack/Dealt.antt =====
-- The hands on the table between two lines.
use v34_working.Base.{
  ℕ, zero, suc, ◌+◌, ◌≤◌, ◌≡◌, refl, List, [], ◌∷◌, Option, some, true, ◌||◌, ltb, ◌==◌, if-Has,
  arith, ℤ, lower_by,
}
use v34_working.Doors.Blackjack.{
  Table, card, load, open_game, settle, hit, draws, dealer_fuel, pay, stand, input, play, seated,
  enter,
}

-- A dealer's hand that is played out.
abbrev pub IsDone : ℕ × ℕ → Type 0
IsDone (dealer, rng) = (17 ≤ dealer) × (dealer ≤ 26)

pub record IsDealt (t : Table) : Type 0 where
  pub hand_low : 2 ≤ t.hand
  pub hand_high : t.hand ≤ 21
  pub dealer_low : 1 ≤ t.dealer
  pub dealer_high : t.dealer ≤ 10
  pub balance : t.credits ≡ load t.saved
  pub ends : IsDone (draws dealer_fuel (t.dealer, t.rng))

card_range : (rng : ℕ) → (1 ≤ (card rng).0) × ((card rng).0 ≤ 10)
unfolding card
card_range rng = (omega arith, omega arith)

-- With a round for every point below 17, the dealer's loop comes to its end.
draws-IsDone :
    (fuel dealer rng : ℕ) → 17 ≤ dealer + fuel → dealer ≤ 26 → IsDone (draws fuel (dealer, rng))
unfolding draws
draws-IsDone zero dealer rng h k = (omega arith, k)
draws-IsDone (suc fuel) dealer rng h k =
    if-Has IsDone (ltb dealer 17) (draws fuel (dealer + (card rng).0, (card rng).1)) (dealer, rng)
      (λ e.
        draws-IsDone fuel (dealer + (card rng).0) (card rng).1 (ground (arith, card_range rng))
          (ground (arith, card_range rng)))
      (λ e. (ground arith, k))

open_game-IsDealt : (t : Table) → IsDealt (open_game t)
unfolding open_game
open_game-IsDealt t = record {
  hand_low = omega (arith, card_range t.rng, card_range (card t.rng).1);
  hand_high = omega (arith, card_range t.rng, card_range (card t.rng).1);
  dealer_low = (card_range (card (card t.rng).1).1).0;
  dealer_high = (card_range (card (card t.rng).1).1).1;
  balance = refl;
  ends =
      draws-IsDone dealer_fuel (card (card (card t.rng).1).1).0 (card (card (card t.rng).1).1).1
        (omega arith) (omega (arith, card_range (card (card t.rng).1).1));
}

settle-IsDealt : (credits : ℤ) (t : Table) → IsDealt (settle credits t)
unfolding settle
settle-IsDealt credits t = open_game-IsDealt (record t { credits = credits; saved = some credits })

hit-IsDealt : (t : Table) → IsDealt t → IsDealt (hit t)
unfolding hit
hit-IsDealt t d =
    let t' = record t { hand = t.hand + (card t.rng).0; rng = (card t.rng).1 } in
    if-Has IsDealt (ltb 21 t'.hand) (settle (lower_by t.credits 25) t') t'
      (λ _. settle-IsDealt (lower_by t.credits 25) t')
      (λ e. record {
        hand_low = omega (arith, d.hand_low);
        hand_high = ground arith;
        dealer_low = d.dealer_low;
        dealer_high = d.dealer_high;
        balance = d.balance;
        ends =
            draws-IsDone dealer_fuel t.dealer (card t.rng).1 (omega arith)
              (omega (arith, d.dealer_high));
      })

left-IsDealt : (t : Table) → IsDealt t → IsDealt (record t { left = true })
left-IsDealt t d = record {
  hand_low = d.hand_low;
  hand_high = d.hand_high;
  dealer_low = d.dealer_low;
  dealer_high = d.dealer_high;
  balance = d.balance;
  ends = d.ends;
}

stand-IsDealt : (t : Table) → IsDealt (stand t)
unfolding stand
stand-IsDealt t =
    let done = draws dealer_fuel (t.dealer, t.rng) in
    settle-IsDealt (pay t.hand done.0 t.credits) (record t { dealer = done.0; rng = done.1 })

input-IsDealt : (key : ℕ) (t : Table) → IsDealt t → IsDealt (input key t)
unfolding input
input-IsDealt key t d =
    if-Has IsDealt ((key == 113) || (key == 81)) (record t { left = true }) _
      (λ _. left-IsDealt t d)
      (λ _.
        if-Has IsDealt ((key == 104) || (key == 72)) (hit t) _ (λ _. hit-IsDealt t d)
          (λ _.
            if-Has IsDealt ((key == 115) || (key == 83)) (stand t) t (λ _. stand-IsDealt t)
              (λ _. d)))

play-Dealt : (keys : List ℕ) (t : Table) → IsDealt t → IsDealt (play keys t)
unfolding play
play-Dealt [] t d = d
play-Dealt (k ∷ ks) t d = play-Dealt ks (input k t) (input-IsDealt k t d)

-- Whatever the generator, the data base and the lines are: between two lines the caller holds from 2
-- to 21 points and the dealer from 1 to 10, the balance is the one that the data base keeps (1000 when
-- it has none), and the loop of the dealer's cards would end with 17 to 26 points.
pub play-IsDealt :
    (keys : List ℕ) (rng : ℕ) (saved : Option ℤ) → IsDealt (play keys (enter rng saved))
unfolding enter
play-IsDealt keys rng saved =
    play-Dealt keys (enter rng saved) (open_game-IsDealt (seated rng saved))
