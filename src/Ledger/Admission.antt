-- ===== src/Ledger/Admission.antt =====
-- What ledger.go's Reserve admits: the budget tests against the exact sums, under interference too.
use cost.Prelude.{
  ◌≡◌, ◌↔◌, ◌⊎◌, ℤ, pos, ◌+ℤ◌, ◌-ℤ◌, ◌≤ℤ◌, ◌<ℤ◌, true, false, none, some, List, [], ◌∷◌, arith,
}
use cost.Int64.{
  max_int64, half_max_int64, IsInt64, sub64, add64, add64_exact, wrap, of_bits, to_bits,
}
use cost.Errors.{
  Context, context_error, Error, err, is_ok, is, err_invalid_estimate, unwrap, err_budget_exceeded,
  background,
}
use cost.Ledger.{Ledger, Interference, invalid_estimate, budget_error, reserve_loop, reserve}

-- An amount that Reserve accepts as an estimate.
abbrev pub IsEstimate : ℤ → Type 0
IsEstimate estimate = (pos 0 ≤ℤ estimate) × (estimate ≤ℤ half_max_int64)

-- The budget rule in exact arithmetic: the sum is an int64, and it is within a limit that is not
-- negative.
abbrev pub Fits : (limit used estimate : ℤ) → Type 0
Fits limit used estimate =
    (used +ℤ estimate ≤ℤ max_int64) × ((limit <ℤ pos 0) ⊎ (used +ℤ estimate ≤ℤ limit))

module _ (limit used estimate : ℤ) where
  pub budget_error-Fits :
      IsInt64 limit
      → IsInt64 used
      → IsEstimate estimate
      → budget_error limit used estimate ≡ none
      → (pos 0 ≤ℤ used) × Fits limit used estimate
  unfolding budget_error sub64 wrap of_bits to_bits ◌+ℤ◌ ◌-ℤ◌
  budget_error-Fits hl hu he h = ground arith

  pub budget_error-none :
      IsInt64 limit
      → IsInt64 used
      → IsEstimate estimate
      → pos 0 ≤ℤ used
      → Fits limit used estimate
      → budget_error limit used estimate ≡ none
  unfolding budget_error sub64 wrap of_bits to_bits ◌+ℤ◌ ◌-ℤ◌
  budget_error-none hl hu he h f = ground arith

-- With a live context and nobody interfering, on a ledger whose counter and limit are int64s,
-- Reserve succeeds exactly when the estimate is valid, the counter is not negative, and the exact
-- sum fits; a counter that has wrapped to a negative number refuses every estimate.
pub reserve-Fits_iff :
    (estimate : ℤ) (l : Ledger)
    → IsInt64 l.limit_micros
    → IsInt64 l.used_micros
    → (is_ok (reserve background estimate [] l).0 ≡ true) ↔ (
        IsEstimate estimate × (pos 0 ≤ℤ l.used_micros) × Fits l.limit_micros l.used_micros estimate)
unfolding reserve
reserve-Fits_iff estimate l hl hu = (
  λ h. ground (arith, budget_error-Fits l.limit_micros l.used_micros estimate),
  λ h. ground (arith, budget_error-none l.limit_micros l.used_micros estimate),
)

-- The values that the loop can load: the first, and what each round leaves.
abbrev pub loads : ℤ → List Interference → List ℤ
loads used [] = used ∷ []
loads used (i ∷ rounds) = used ∷ loads i.found rounds

abbrev pub with_used : Ledger → ℤ → Ledger
with_used l used = record l { used_micros = used }

pub add64_estimate :
    (limit used estimate : ℤ)
    → IsEstimate estimate
    → Fits limit used estimate
    → pos 0 ≤ℤ used
    → add64 used estimate ≡ used +ℤ estimate
unfolding ◌+ℤ◌
add64_estimate limit used estimate he f h = add64_exact used estimate (ground arith)

pub invalid_estimate-IsEstimate :
    (estimate : ℤ) → invalid_estimate estimate ≡ false → IsEstimate estimate
invalid_estimate-IsEstimate estimate h = ground arith

-- Without interference, on a ledger whose counter and limit are int64s, every refusal leaves the
-- ledger as it was and names its reason: the context's error, an invalid estimate, or a budget
-- that does not admit the sum.
pub reserve_refusal :
    (ctx : Context) (estimate : ℤ) (l : Ledger) {e : Error}
    → IsInt64 l.limit_micros
    → IsInt64 l.used_micros
    → (reserve ctx estimate [] l).0 ≡ err e
    → ((reserve ctx estimate [] l).1 ≡ l)
      × ((context_error ctx ≡ some e)
          ⊎ (¬ IsEstimate estimate) × (is e err_invalid_estimate ≡ true)
          ⊎ IsEstimate estimate
            × (¬ ((pos 0 ≤ℤ l.used_micros) × Fits l.limit_micros l.used_micros estimate))
            × (is e err_budget_exceeded ≡ true))
unfolding reserve is unwrap budget_error
reserve_refusal ctx estimate l hl hu r =
    ground (arith, budget_error-none l.limit_micros l.used_micros estimate)

-- Every loaded value admits the estimate.
abbrev pub AllFit : ℤ → ℤ → List ℤ → Type 0
AllFit limit estimate [] = Unit
AllFit limit estimate (u ∷ us) =
    IsInt64 u × (pos 0 ≤ℤ u) × Fits limit u estimate × AllFit limit estimate us

abbrev pub NeverInterrupted : List Interference → Type 0
NeverInterrupted [] = Unit
NeverInterrupted (i ∷ rounds) = (i.interrupted ≡ none) × NeverInterrupted rounds

first_fit :
    (limit estimate used : ℤ) (rounds : List Interference)
    → AllFit limit estimate (loads used rounds)
    → IsInt64 used × (pos 0 ≤ℤ used) × Fits limit used estimate
first_fit limit estimate used [] f = (f.0, f.1, f.2)
first_fit limit estimate used (i ∷ rounds) f = (f.0, f.1, f.2)

reserve_loop_progress :
    (estimate : ℤ) (rounds : List Interference) (l : Ledger)
    → IsEstimate estimate
    → IsInt64 l.limit_micros
    → AllFit l.limit_micros estimate (loads l.used_micros rounds)
    → NeverInterrupted rounds
    → is_ok (reserve_loop estimate rounds l).0 ≡ true
unfolding reserve_loop
reserve_loop_progress estimate [] l he hl f n =
    ground (arith, budget_error-none l.limit_micros l.used_micros estimate)
reserve_loop_progress estimate (i ∷ rounds) l he hl f n = ground (
  arith,
  budget_error-none l.limit_micros l.used_micros estimate,
  reserve_loop_progress estimate rounds (with_used l i.found),
  first_fit l.limit_micros estimate i.found rounds,
)

-- The loop ends, and with success, after any finite number of lost swaps, if the context stays
-- live, the limit is an int64, and the estimate is valid and fits each of the values that are
-- loaded.
pub reserve_progress :
    (estimate : ℤ) (rounds : List Interference) (l : Ledger)
    → IsEstimate estimate
    → IsInt64 l.limit_micros
    → AllFit l.limit_micros estimate (loads l.used_micros rounds)
    → NeverInterrupted rounds
    → is_ok (reserve background estimate rounds l).0 ≡ true
unfolding reserve
reserve_progress estimate rounds l he hl f n =
    ground (arith, reserve_loop_progress estimate rounds l)
