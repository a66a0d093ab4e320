-- ===== src/Tests/Ppp.antt =====
-- Rounds of the PPP shim.
use v34_working.Base.{List, [], ◌∷◌, true, false, refl}
use v34_working.Ppp.Relay.{Report, Event, got, nothing, ended, relay, start}
use v34_working.Ppp.Relay.Stream.{IsFaithful, relay-start-IsFaithful}

abbrev ready : Event
ready = record { ready = true; hangup = false }

abbrev quiet : Report
quiet = record { input = ready; read = nothing; output = ready; wrote = 2 }

abbrev busy : Report
busy = record quiet { read = got (7 ∷ 8 ∷ 9 ∷ []) }

-- Three bytes for the modem, of which two go out at once, and then the end of pppd's output.
abbrev rounds : List (Report × Report)
rounds = (busy, quiet) ∷ (quiet, busy) ∷ (record quiet { read = ended }, quiet) ∷ []

relay-start-IsFaithful_example : IsFaithful (relay rounds start)
relay-start-IsFaithful_example =
    relay-start-IsFaithful rounds ((refl, tt), ((tt, refl), ((tt, tt), tt)))
