-- ===== src/Text/Tests.antt =====
-- Tests of the texts of numbers and of white space.
use cost.Prelude.{◌≡◌, refl, negsuc, none, some}
use cost.Text.{text}
use cost.Text.Spaces.{trim_space, space_width, space_width_back}
use cost.Text.Decimal.{parse_int}

trimmed : trim_space (text "  a b ") ≡ text "a b"
unfolding trim_space space_width space_width_back
trimmed = refl

parsed_minus : parse_int (text "-12") ≡ some (negsuc 11)
unfolding parse_int
parsed_minus = refl

too_large : parse_int (text "9223372036854775808") ≡ none
unfolding parse_int
too_large = refl

not_a_number : parse_int (text "12a") ≡ none
unfolding parse_int
not_a_number = refl
