-- ===== src/Tests/SipText.antt =====
-- The text of SIP messages at work.
use v34_working.Base.{ℕ, ◌≡◌, refl, List, [], ◌∷◌}
use v34_working.Sip.Text.Fits.{Fits}
use v34_working.Sip.Parse.{parse_sip}
use v34_working.Sip.Parse.Fits.{parse_sip-Fits}

-- "BYE a SIP/2.0" and a line feed.
abbrev bye_text : List ℕ
bye_text = 66 ∷ 89 ∷ 69 ∷ 32 ∷ 97 ∷ 32 ∷ 83 ∷ 73 ∷ 80 ∷ 47 ∷ 50 ∷ 46 ∷ 48 ∷ 10 ∷ []

parse_sip-Fits_example : Fits (parse_sip bye_text)
parse_sip-Fits_example = parse_sip-Fits bye_text

bye_text_method : (parse_sip bye_text).method ≡ 66 ∷ 89 ∷ 69 ∷ []
unfolding parse_sip
bye_text_method = refl
