-- ===== src/Flow/Estimate.antt =====
-- nexssflow/estimate.go: the estimate of an action, a number or a field of the input.
pub mod Bounds
use Prim.Native.String.{String}
use cost.Prelude.{
  ℕ, ◌≤◌, ◌≡◌, ◌≢◌, ℤ, pos, ◌≤ℤ◌, ltb, leb, ltb_ℤ, ◌==◌, Bool, true, false, not, ◌&&◌, ◌||◌,
  if◌then◌else◌, Option, none, some, List, [], ◌∷◌, ◌++◌,
}
use cost.Int64.{max_int64, half_max_int64}
use cost.Text.{Text, text, text_eqb}
use cost.Text.Spaces.{trim_space}
use cost.Text.Decimal.{parse_int}
use cost.Errors.{Error, message, txt, num, Result, ok, err}
use cost.Flow.Value.{
  Float, not_finite, fractional, whole, Value, nil_value, signed, unsigned, float, json_number,
  estimate_field,
}

-- type estimateSpec
pub record EstimateSpec : Type 0 where
  pub literal : ℤ
  pub path : List Text

-- (estimateSpec).dynamic
abbrev pub dynamic : EstimateSpec → Bool
dynamic s = elim s.path [ [] ↦ false | _ ∷ _ ↦ true ]

-- validIdentifierCharacter, on a byte: a byte from 128 on is part of a character that is none of
-- these.
abbrev pub valid_identifier_character : ℕ → (first : Bool) → Bool
valid_identifier_character c first =
    c == 95
    || ((leb 65 c && leb c 90)
        || ((leb 97 c && leb c 122) || (not first && (leb 48 c && leb c 57))))

-- The loop of isIdentifier after its first round.
unfoldable pub identifier_rest : Text → Bool
identifier_rest [] = true
identifier_rest (c ∷ cs) = valid_identifier_character c false && identifier_rest cs

-- isIdentifier
unfoldable pub is_identifier : Text → Bool
unfolding identifier_rest
is_identifier [] = false
is_identifier (c ∷ cs) = valid_identifier_character c true && identifier_rest cs

-- strings.TrimPrefix with a prefix of one byte
abbrev pub trim_prefix : ℕ → Text → Text
trim_prefix p [] = []
trim_prefix p (c ∷ cs) = if c == p then cs else c ∷ cs

-- strings.Split(s, "."), of a text whose first part begins with `part`
abbrev pub with_part : ℕ → List Text → List Text
with_part c [] = (c ∷ []) ∷ []
with_part c (part ∷ parts) = (c ∷ part) ∷ parts

unfoldable pub split_dots : Text → List Text
split_dots [] = [] ∷ []
split_dots (c ∷ cs) = let rest = split_dots cs in if c == 46 then [] ∷ rest else with_part c rest

-- strings.Join(path, ".")
unfoldable pub join_dots : List Text → Text
join_dots [] = []
join_dots (part ∷ []) = part
join_dots (part ∷ next ∷ parts) = part ++ 46 ∷ join_dots (next ∷ parts)

unfoldable pub all_identifiers : List Text → Bool
unfolding is_identifier
all_identifiers [] = true
all_identifiers (part ∷ parts) = is_identifier part && all_identifiers parts

-- `strings.TrimPrefix(strings.TrimPrefix(raw, "$"), ".")`
abbrev pub field_path : Text → Text
field_path raw = trim_prefix 46 (trim_prefix 36 raw)

-- The part of parseEstimateSpec for a text that is no number.
unfoldable pub parse_path : Text → Result EstimateSpec
unfolding split_dots all_identifiers
parse_path raw =
    let path = field_path raw in
    if text_eqb path []
    then err
        (message "expected a non-negative integer or an input field path such as .cost_micros" [])
    else if all_identifiers (split_dots path)
    then ok (record { literal = pos 0; path = split_dots path })
    else err (
        message
          "expected a non-negative integer or an input field path such as .cost_micros, got %q"
          (txt raw ∷ []))

-- The rest of parseEstimateSpec after ParseInt.
abbrev pub spec_of : (raw : Text) → Option ℤ → Result EstimateSpec
spec_of raw none = parse_path raw
spec_of raw (some amount) =
    if ltb_ℤ amount (pos 0)
    then err (message "estimate must be non-negative" [])
    else ok (record { literal = amount; path = [] })

-- parseEstimateSpec
unfoldable pub parse_estimate_spec : Text → Result EstimateSpec
parse_estimate_spec raw = spec_of (trim_space raw) (parse_int (trim_space raw))

-- integerMicros
unfoldable pub integer_micros : Value → Option ℤ
integer_micros (json_number s) = parse_int s
integer_micros (signed n) = some n
integer_micros (unsigned n) = if ltb 9223372036854775807 n then none else some (pos n)
integer_micros (float not_finite) = none
integer_micros (float fractional) = none
-- float64(math.MaxInt64/2) is 2^62.
integer_micros (float (whole n)) =
    if ltb_ℤ n (pos 0) || ltb_ℤ (pos 4611686018427387904) n then none else some n
integer_micros _ = none

-- The loop of resolve over the path.
unfoldable pub follow : List Text → Value → Option Value
follow [] v = some v
follow (name ∷ path) v = elim (estimate_field v name) [ none ↦ none | some next ↦ follow path next ]

-- `"." + strings.Join(s.path, ".")`, which the error texts of resolve show
abbrev pub shown_path : EstimateSpec → Text
shown_path s = 46 ∷ join_dots s.path

-- resolve from integerMicros on
abbrev pub in_range : EstimateSpec → Option ℤ → Result ℤ
in_range s none = err (
    message "cost: estimate field %q must contain a non-negative integer number of micros, got %T"
      (txt (shown_path s) ∷ []))
in_range s (some amount) =
    if ltb_ℤ amount (pos 0) || ltb_ℤ half_max_int64 amount
    then err (
        message "cost: estimate field %q is outside the supported range [0,%d]"
          (txt (shown_path s) ∷ num half_max_int64 ∷ []))
    else ok amount

-- (estimateSpec).resolve
unfoldable pub resolve : EstimateSpec → Value → Result ℤ
unfolding follow integer_micros join_dots
resolve s input =
    let found : Result ℤ = elim (follow s.path input) [
      | none ↦
          err (message "cost: estimate input is missing field path %q" (txt (shown_path s) ∷ []))
      | some v ↦ in_range s (integer_micros v)
    ] in
    if dynamic s then found else ok s.literal
