-- ===== src/Tests/V22bis.antt =====
-- Bits through scrambler, symbols and training.
use v34_working.Base.{ℕ, ◌^◌, ◌≡◌, refl, List, [], ◌∷◌, true, false, All, arith}
use v34_working.V22bis.Scrambler.{Scrambler, restart}
use v34_working.V22bis.Scrambler.Sync.{IsBit, InSync}
use v34_working.V22bis.Symbols.{Decoder}
use v34_working.V22bis.Transmit.{Tx, tx_restart, u0011, normal_operation}
use v34_working.V22bis.Transmit.DataMode.{IsSending, Follows, exchange, exchange_delivers}
use v34_working.V22bis.Transmit.Schedule.{Answers, train_answer}

abbrev octet : List ℕ
octet = 1 ∷ 0 ∷ 1 ∷ 1 ∷ 0 ∷ 0 ∷ 1 ∷ 0 ∷ []

octet-IsBit : All IsBit octet
octet-IsBit = (
  omega arith,
  (
    omega arith,
    (omega arith, (omega arith, (omega arith, (omega arith, (omega arith, (omega arith, tt)))))),
  ),
)

-- The top bits of the two registers differ.
abbrev far : Scrambler
far = record { reg = 2 ^ 20; count = 0 }

far-InSync : InSync restart far
unfolding restart
far-InSync = record { same_reg = refl; same_count = refl }

abbrev sender : Tx
sender = record (tx_restart false) {
  training = normal_operation;
  negotiated_bit_rate = 2400;
  fake = false;
}

abbrev receiver : Decoder
receiver = record { scrambler = far; constellation_state = 3; sixteen_way = true }

exchange_delivers_example :
    let (got, t', d') = exchange 2 sender receiver octet in
    (got ≡ octet) × IsSending t' × Follows t' d'
exchange_delivers_example =
    exchange_delivers 2 sender receiver octet refl octet-IsBit
      (unfold tx_restart in
        record { trained = refl; full_rate = refl; running = refl; has_source = refl })
      (unfold tx_restart restart in
        record {
          in_sync = record { same_reg = refl; same_count = refl };
          same_quadrant = refl;
          quadrant = omega arith;
          sixteen = refl;
        })

abbrev accepting : Tx
accepting = record (tx_restart false) { training = u0011; negotiated_bit_rate = 2400 }

train_answer_example : Answers accepting
train_answer_example =
    train_answer accepting refl (unfold tx_restart in refl) (unfold tx_restart in refl) refl
