-- ===== src/Currency.antt =====
-- currency.go: three-letter currency codes and their text form.
pub mod Codec
mod Tests
use cost.Prelude.{
  ℕ, pos, ◌≡◌, ◌↔◌, Bool, true, false, not, ◌&&◌, ◌||◌, ◌==◌, ltb, if◌then◌else◌, Option, none,
  some, List, [], ◌∷◌, length, arith,
}
use cost.Text.{Text}
use cost.Errors.{Result, ok, err, message, num}

-- type Currency [3]byte
pub record Currency : Type 0 where
  pub byte0 : ℕ
  pub byte1 : ℕ
  pub byte2 : ℕ

abbrev pub usd : Currency
usd = record { byte0 = b'U'; byte1 = b'S'; byte2 = b'D' }

abbrev pub eur : Currency
eur = record { byte0 = b'E'; byte1 = b'U'; byte2 = b'R' }

abbrev pub gbp : Currency
gbp = record { byte0 = b'G'; byte1 = b'B'; byte2 = b'P' }

abbrev pub pln : Currency
pln = record { byte0 = b'P'; byte1 = b'L'; byte2 = b'N' }

abbrev pub tok : Currency
tok = record { byte0 = b'T'; byte1 = b'O'; byte2 = b'K' }

-- Currency{}
abbrev pub empty_currency : Currency
empty_currency = record { byte0 = 0; byte1 = 0; byte2 = 0 }

-- `==` on the arrays
abbrev pub currency_eqb : Currency → Currency → Bool
currency_eqb c d = (c.byte0 == d.byte0) && ((c.byte1 == d.byte1) && (c.byte2 == d.byte2))

pub currency_eqb_iff : (c d : Currency) → (currency_eqb c d ≡ true) ↔ (c ≡ d)
currency_eqb_iff c d = ground arith

-- Currency.String
unfoldable pub to_string : Currency → Text
to_string c = c.byte0 ∷ c.byte1 ∷ c.byte2 ∷ []

-- Currency.MarshalText
unfoldable pub marshal_text : Currency → Result Text
unfolding to_string
marshal_text c =
    if currency_eqb c empty_currency
    then err (message "cost: empty currency" [])
    else ok (to_string c)

-- The loop of UnmarshalText: does every byte lie in 'A'..'Z'?
unfoldable pub all_upper : Text → Bool
all_upper [] = true
all_upper (ch ∷ b) = if ltb ch b'A' || ltb b'Z' ch then false else all_upper b

-- copy(c[:], b)
copy_bytes : Currency → Text → Currency
copy_bytes c [] = c
copy_bytes c (x ∷ []) = record c { byte0 = x }
copy_bytes c (x ∷ y ∷ []) = record c { byte0 = x; byte1 = y }
copy_bytes c (x ∷ y ∷ z ∷ _) = record { byte0 = x; byte1 = y; byte2 = z }

-- (*Currency).UnmarshalText: the receiver is a pointer that may be nil; the result is what it
-- points to afterwards.
unfoldable pub unmarshal_text : Option Currency → Text → Result Currency
unfolding all_upper copy_bytes
unmarshal_text none b = err (message "cost: nil Currency pointer" [])
unmarshal_text (some c) b =
    if not (length b == 3)
    then err (message "cost: currency must be exactly 3 bytes, got %d" (num (pos (length b)) ∷ []))
    else if all_upper b
    then ok (copy_bytes c b)
    else err (message "cost: currency must contain uppercase ASCII letters" [])
