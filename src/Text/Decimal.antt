-- ===== src/Text/Decimal.antt =====
-- strconv.ParseInt(s, 10, 64) and strconv.FormatInt(n, 10).
use cost.Prelude.{
  ℕ, zero, suc, ◌+◌, ◌-◌, ◌*◌, ◌/◌, ◌%◌, ◌^◌, ◌<◌, ◌≤◌, ltb, leb, ◌==◌, ◌&&◌, ◌≡◌, refl, ◌∙◌, ap, ℤ,
  pos, negsuc, sub_ℕ, if◌then◌else◌, false, Option, none, some, [], ◌∷◌, arith, if-elim,
}
use cost.Text.{Text, text_eqb}

-- The value of the digits, after digits of the value `acc`.
unfoldable pub parse_digits : (acc : ℕ) → Text → Option ℕ
parse_digits acc [] = some acc
parse_digits acc (c ∷ cs) =
    let rest = parse_digits (acc * 10 + (c - 48)) cs in if leb 48 c && leb c 57 then rest else none

-- strconv.ParseUint, but for the range.
unfoldable pub parse_unsigned : Text → Option ℕ
unfolding parse_digits
parse_unsigned [] = none
parse_unsigned (c ∷ cs) = parse_digits 0 (c ∷ cs)

abbrev positive : Option ℕ → Option ℤ
positive none = none
positive (some n) = if ltb n 9223372036854775808 then some (pos n) else none

abbrev negative : Option ℕ → Option ℤ
negative none = none
negative (some n) = if leb n 9223372036854775808 then some (sub_ℕ 0 n) else none

-- strconv.ParseInt(s, 10, 64); `none` is its error.
unfoldable pub parse_int : Text → Option ℤ
unfolding parse_unsigned
parse_int [] = none
parse_int (c ∷ cs) =
    if c == 45
    then negative (parse_unsigned cs)
    else if c == 43
    then positive (parse_unsigned cs)
    else positive (parse_unsigned (c ∷ cs))

-- The decimal digits of a number below 10^fuel, written in front of `rest` from the last one on.
unfoldable pub format_digits : (fuel n : ℕ) → Text → Text
format_digits zero n rest = rest
format_digits (suc fuel) n rest =
    let more = format_digits fuel (n / 10) ((48 + n % 10) ∷ rest) in
    if ltb n 10 then (48 + n) ∷ rest else more

-- strconv.FormatInt(n, 10); a number of 64 bits has at most 20 digits.
unfoldable pub format_int : ℤ → Text
format_int (pos n) = format_digits 20 n []
format_int (negsuc n) = 45 ∷ format_digits 20 (suc n) []

parse_digits-digit :
    (acc d n : ℕ) (rest : Text)
    → d < 10
    → acc * 10 + d ≡ n
    → parse_digits acc ((48 + d) ∷ rest) ≡ parse_digits n rest
unfolding parse_digits
parse_digits-digit acc d n rest h e = ground arith

recomposed : (n : ℕ) → n / 10 * 10 + n % 10 ≡ n
recomposed n = omega arith

below_one : (n : ℕ) → n < 10 ^ 0 → 0 ≡ n
below_one n h = omega arith

pow_suc : (fuel : ℕ) → 10 ^ suc fuel ≡ 10 * 10 ^ fuel
pow_suc fuel = omega arith

-- Reading the digits that are written in front of `rest` reads the number.
parse_digits-format_digits :
    (fuel n : ℕ) (rest : Text)
    → n < 10 ^ fuel
    → parse_digits 0 (format_digits fuel n rest) ≡ parse_digits n rest
unfolding format_digits
parse_digits-format_digits zero n rest h = ap (λ k. parse_digits k rest) (below_one n h)
parse_digits-format_digits (suc fuel) n rest h =
    if-elim (λ s. parse_digits 0 s ≡ parse_digits n rest) (ltb n 10)
      (λ small. parse_digits-digit 0 n n rest (ground arith) (omega arith))
      (λ _.
        parse_digits-format_digits fuel (n / 10) ((48 + n % 10) ∷ rest)
          (omega (arith, pow_suc fuel))
        ∙ parse_digits-digit (n / 10) (n % 10) n rest (omega arith) (recomposed n))

abbrev StartsWithDigit : Text → Type 0
StartsWithDigit [] = ⊥
StartsWithDigit (c ∷ _) = (48 ≤ c) × (c ≤ 57)

format_digits-StartsWithDigit :
    (fuel n : ℕ) (rest : Text) → StartsWithDigit rest → StartsWithDigit (format_digits fuel n rest)
unfolding format_digits
format_digits-StartsWithDigit zero n rest h = h
format_digits-StartsWithDigit (suc fuel) n rest h =
    if-elim StartsWithDigit (ltb n 10) (λ small. ground arith)
      (λ _. format_digits-StartsWithDigit fuel (n / 10) ((48 + n % 10) ∷ rest) (omega arith))

first_digit : (fuel n : ℕ) → StartsWithDigit (format_digits (suc fuel) n [])
unfolding format_digits
first_digit fuel n =
    if-elim StartsWithDigit (ltb n 10) (λ small. ground arith)
      (λ _. format_digits-StartsWithDigit fuel (n / 10) ((48 + n % 10) ∷ []) (omega arith))

parse_int_unsigned : (s : Text) → StartsWithDigit s → parse_int s ≡ positive (parse_digits 0 s)
unfolding parse_int parse_unsigned
parse_int_unsigned [] h = absurd h
parse_int_unsigned (c ∷ cs) h = ground arith

positive_fits : (n : ℕ) → n < 9223372036854775808 → positive (some n) ≡ some (pos n)
positive_fits n h = ground arith

parsed : (n : ℕ) → parse_digits n [] ≡ some n
unfolding parse_digits
parsed n = refl

-- ParseInt reads what FormatInt writes.
pub parse_int-format_int :
    (n : ℕ) → n < 9223372036854775808 → parse_int (format_int (pos n)) ≡ some (pos n)
unfolding format_int
parse_int-format_int n h =
    parse_int_unsigned (format_digits 20 n []) (first_digit 19 n)
    ∙ (ap positive (parse_digits-format_digits 20 n [] (omega arith) ∙ parsed n)
        ∙ positive_fits n h)

positive-lt : (o : Option ℕ) (n : ℕ) → positive o ≡ some (pos n) → n < 9223372036854775808
positive-lt none n e = ground arith
positive-lt (some k) n e = ground arith

negative_zero : (o : Option ℕ) (n : ℕ) → negative o ≡ some (pos n) → n < 9223372036854775808
negative_zero none n e = ground arith
negative_zero (some k) n e = ground arith

-- A number that is not negative is below 2^63.
pub parse_int-lt : (s : Text) (n : ℕ) → parse_int s ≡ some (pos n) → n < 9223372036854775808
unfolding parse_int
parse_int-lt [] n e = ground arith
parse_int-lt (c ∷ cs) n e =
    if-elim (λ o. o ≡ some (pos n) → n < 9223372036854775808) (c == 45)
      (λ _. negative_zero (parse_unsigned cs) n)
      (λ _.
        if-elim (λ o. o ≡ some (pos n) → n < 9223372036854775808) (c == 43)
          (λ _. positive-lt (parse_unsigned cs) n) (λ _. positive-lt (parse_unsigned (c ∷ cs)) n))
      e

-- A text that is a number is not empty.
pub parse_int_given : (s : Text) (v : ℤ) → parse_int s ≡ some v → text_eqb s [] ≡ false
unfolding parse_int
parse_int_given [] v e = ground arith
parse_int_given (c ∷ cs) v e = refl
