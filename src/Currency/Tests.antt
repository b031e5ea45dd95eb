-- ===== src/Currency/Tests.antt =====
-- Currency codes at concrete texts.
use cost.Prelude.{◌≡◌, refl, ◌↔◌, some, [], arith}
use cost.Text.{Text, text}
use cost.Errors.{ok, err, message}
use cost.Currency.{usd, eur, empty_currency, to_string, marshal_text, unmarshal_text}
use cost.Currency.Codec.{IsCode, unmarshal_text-marshal_text, unmarshal_text_iff}

lower_case_refused :
    unmarshal_text (some empty_currency) (text "usd")
    ≡ err (message "cost: currency must contain uppercase ASCII letters" [])
unfolding unmarshal_text
lower_case_refused = refl

empty_refused : marshal_text empty_currency ≡ err (message "cost: empty currency" [])
unfolding marshal_text
empty_refused = refl

unmarshal_text-marshal_text_example :
    (t : Text) × (marshal_text eur ≡ ok t) × (unmarshal_text (some usd) t ≡ ok eur)
unmarshal_text-marshal_text_example = unmarshal_text-marshal_text eur usd (omega arith)

unmarshal_text_iff_example :
    (unmarshal_text (some usd) (text "EUR") ≡ ok eur) ↔ (IsCode eur × (text "EUR" ≡ to_string eur))
unmarshal_text_iff_example = unmarshal_text_iff usd eur (text "EUR")
