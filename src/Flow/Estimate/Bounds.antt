-- ===== src/Flow/Estimate/Bounds.antt =====
-- What the estimates of nexssflow/estimate.go can be.
use cost.Prelude.{
  ℕ, ◌≡◌, refl, sym, ap, ◌∙◌, ◌⊎◌, inl, inr, ℤ, pos, negsuc, ◌≤ℤ◌, ltb_ℤ, ◌==◌, ==_iff, true, false,
  Option, none, some, List, [], ◌∷◌, arith, if-elim, Option-cases,
}
use mathlib.Core.Bool.{true≢false}
use cost.Int64.{max_int64, half_max_int64}
use cost.Errors.Checks.{OnOk, OnOk-elim}
use cost.Text.{Text, text_eqb}
use cost.Text.Spaces.{trim_space}
use cost.Text.Decimal.{parse_int, parse_int-lt}
use cost.Errors.{ok}
use cost.Flow.Value.{Value}
use cost.Flow.Estimate.{
  EstimateSpec, dynamic, with_part, split_dots, join_dots, all_identifiers, field_path, parse_path,
  spec_of, parse_estimate_spec, follow, integer_micros, in_range, resolve,
}

-- A literal of an int64 from 0 on, or the identifiers between the dots of the text.
abbrev pub IsSpec : (raw : Text) → EstimateSpec → Type 0
IsSpec raw s =
    ((s.path ≡ [])
      × (parse_int (trim_space raw) ≡ some s.literal)
      × (pos 0 ≤ℤ s.literal)
      × (s.literal ≤ℤ max_int64))
    ⊎ ((dynamic s ≡ true)
        × (s.literal ≡ pos 0)
        × (all_identifiers s.path ≡ true)
        × (join_dots s.path ≡ field_path (trim_space raw)))

join_dots-with_part :
    (c : ℕ) (part : Text) (parts : List Text)
    → join_dots (with_part c (part ∷ parts)) ≡ c ∷ join_dots (part ∷ parts)
unfolding join_dots
join_dots-with_part c part [] = refl
join_dots-with_part c part (next ∷ parts) = refl

-- A split gives a part at least.
split_dots-cons : (s : Text) → (part : Text) × ((parts : List Text) × (split_dots s ≡ part ∷ parts))
unfolding split_dots
split_dots-cons [] = ([], ([], refl))
split_dots-cons (c ∷ cs) =
    let (part, (parts, e)) = split_dots-cons cs in
    if-elim (λ xs. (part : Text) × ((parts : List Text) × (xs ≡ part ∷ parts))) (c == 46)
      (λ _. ([], (split_dots cs, refl))) (λ _. (c ∷ part, (parts, ap (with_part c) e)))

pub join_dots-split_dots : (s : Text) → join_dots (split_dots s) ≡ s
unfolding split_dots join_dots
join_dots-split_dots [] = refl
join_dots-split_dots (c ∷ cs) =
    let (part, (parts, e)) = split_dots-cons cs in
    let joined = ap join_dots (sym e) ∙ join_dots-split_dots cs in
    if-elim (λ xs. join_dots xs ≡ c ∷ cs) (c == 46)
      (λ dot.
        ap (λ xs. join_dots ([] ∷ xs)) e
        ∙ ap (λ xs. 46 ∷ xs) joined
        ∙ ap (λ d. d ∷ cs) (sym ((==_iff c 46).0 dot)))
      (λ _.
        ap (λ xs. join_dots (with_part c xs)) e
        ∙ join_dots-with_part c part parts
        ∙ ap (λ xs. c ∷ xs) joined)

dynamic-split_dots : (s : Text) → dynamic (record { literal = pos 0; path = split_dots s }) ≡ true
dynamic-split_dots s = let (part, (parts, e)) = split_dots-cons s in rw e refl

parse_path-IsSpec : (raw : Text) → OnOk (IsSpec raw) (parse_path (trim_space raw))
unfolding parse_path
parse_path-IsSpec raw =
    let path = field_path (trim_space raw) in
    if-elim (OnOk (IsSpec raw)) (text_eqb path []) (λ _. tt)
      (λ _.
        if-elim (OnOk (IsSpec raw)) (all_identifiers (split_dots path))
          (λ all. inr (dynamic-split_dots path, refl, all, join_dots-split_dots path)) (λ _. tt))

literal_bounds :
    (raw : Text) (amount : ℤ)
    → parse_int raw ≡ some amount
    → ltb_ℤ amount (pos 0) ≡ false
    → (pos 0 ≤ℤ amount) × (amount ≤ℤ max_int64)
literal_bounds raw (pos n) e h = (omega arith, omega (arith, parse_int-lt raw n e))
literal_bounds raw (negsuc n) e h = ground arith

spec_of-IsSpec :
    (raw : Text) (o : Option ℤ)
    → parse_int (trim_space raw) ≡ o
    → OnOk (IsSpec raw) (spec_of (trim_space raw) o)
spec_of-IsSpec raw none e = parse_path-IsSpec raw
spec_of-IsSpec raw (some amount) number =
    if-elim (OnOk (IsSpec raw)) (ltb_ℤ amount (pos 0)) (λ _. tt)
      (λ nonneg.
        let (low, high) = literal_bounds (trim_space raw) amount number nonneg in
        inl (refl, number, low, high))

parse_estimate_spec-OnOk : (raw : Text) → OnOk (IsSpec raw) (parse_estimate_spec raw)
unfolding parse_estimate_spec
parse_estimate_spec-OnOk raw = spec_of-IsSpec raw (parse_int (trim_space raw)) refl

-- A parsed estimate specification is a number from 0 to math.MaxInt64 that ParseInt reads from the
-- trimmed text, or a path of identifiers that, joined by dots, are that text without its prefixes.
pub parse_estimate_spec-IsSpec :
    (raw : Text) (s : EstimateSpec) → parse_estimate_spec raw ≡ ok s → IsSpec raw s
parse_estimate_spec-IsSpec raw s e =
    OnOk-elim (IsSpec raw) (parse_estimate_spec raw) s (parse_estimate_spec-OnOk raw) e

abbrev pub IsEstimateOf : EstimateSpec → ℤ → Type 0
IsEstimateOf s n = (pos 0 ≤ℤ n) × (n ≤ℤ max_int64) × ((dynamic s ≡ false) ⊎ (n ≤ℤ half_max_int64))

found-IsEstimateOf : (s : EstimateSpec) (o : Option ℤ) → OnOk (IsEstimateOf s) (in_range s o)
found-IsEstimateOf s none = tt
found-IsEstimateOf s (some n) = ground arith

literal-IsEstimateOf :
    (raw : Text) (s : EstimateSpec) → IsSpec raw s → dynamic s ≡ false → IsEstimateOf s s.literal
literal-IsEstimateOf raw s (inl (_, _, low, high)) fixed = (low, high, inl fixed)
literal-IsEstimateOf raw s (inr (moving, _, _, _)) fixed = absurd (true≢false (sym moving ∙ fixed))

resolve-IsEstimateOf :
    (raw : Text) (s : EstimateSpec) (input : Value)
    → IsSpec raw s
    → OnOk (IsEstimateOf s) (resolve s input)
unfolding resolve
resolve-IsEstimateOf raw s input h =
    if-elim (OnOk (IsEstimateOf s)) (dynamic s)
      (λ _. elim (Option-cases (follow s.path input)) [
        | inl missing ↦ rw missing tt
        | inr (v, found) ↦ rw found (found-IsEstimateOf s (integer_micros v))
      ])
      (λ fixed. literal-IsEstimateOf raw s h fixed)

-- An estimate that a parsed specification resolves to is from 0 to math.MaxInt64, and to at most
-- math.MaxInt64/2 if it comes from a field of the input.
pub resolve_bounds :
    (raw : Text) (s : EstimateSpec) (input : Value) (n : ℤ)
    → parse_estimate_spec raw ≡ ok s
    → resolve s input ≡ ok n
    → IsEstimateOf s n
resolve_bounds raw s input n parsed e =
    OnOk-elim (IsEstimateOf s) (resolve s input) n
      (resolve-IsEstimateOf raw s input (parse_estimate_spec-IsSpec raw s parsed)) e
