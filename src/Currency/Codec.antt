-- ===== src/Currency/Codec.antt =====
-- The text form of currency.go, both ways.
use cost.Prelude.{ℕ, ◌≡◌, ◌≤◌, ◌↔◌, some, [], ◌∷◌, arith}
use cost.Text.{Text}
use cost.Errors.{ok}
use cost.Currency.{Currency, to_string, marshal_text, unmarshal_text}

-- A byte in 'A'..'Z'.
abbrev pub IsUpper : ℕ → Type 0
IsUpper b = (b'A' ≤ b) × (b ≤ b'Z')

abbrev pub IsCode : Currency → Type 0
IsCode c = IsUpper c.byte0 × IsUpper c.byte1 × IsUpper c.byte2

-- Writing a currency of three capital letters as text and reading it back into any receiver gives
-- the currency again.
pub unmarshal_text-marshal_text :
    (c receiver : Currency)
    → IsCode c
    → (t : Text) × (marshal_text c ≡ ok t) × (unmarshal_text (some receiver) t ≡ ok c)
unfolding marshal_text unmarshal_text to_string
unmarshal_text-marshal_text c receiver h = (to_string c, ground arith, ground arith)

-- A text is accepted exactly when it is the spelling of some currency of three capital letters,
-- and the currency read is then that one.
pub unmarshal_text_iff :
    (receiver c : Currency) (b : Text)
    → (unmarshal_text (some receiver) b ≡ ok c) ↔ (IsCode c × (b ≡ to_string c))
unfolding unmarshal_text to_string
unmarshal_text_iff receiver c [] = ground arith
unmarshal_text_iff receiver c (x ∷ []) = ground arith
unmarshal_text_iff receiver c (x ∷ y ∷ []) = ground arith
unmarshal_text_iff receiver c (x ∷ y ∷ z ∷ []) = ground arith
unmarshal_text_iff receiver c (x ∷ y ∷ z ∷ w ∷ b) = ground arith
