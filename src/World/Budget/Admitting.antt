-- ===== src/World/Budget/Admitting.antt =====
-- Reserve keeps the budget invariant.
use cost.Prelude.{ℕ, ◌≡◌, ℤ, pos, ◌+ℤ◌, ◌≤ℤ◌, none, [], ◌∷◌, ◌++◌, if-elim, int_laws}
use cost.Int64.{IsInt64, max_int64, add64}
use cost.Errors.{Context, context_error, Result, err, checked-elim, validation}
use cost.Ledger.{
  Ledger, LocalReservation, fresh, budget_error, invalid_estimate, reserve_loop, reserve,
}
use cost.Ledger.Admission.{
  budget_error-Fits, IsEstimate, add64_estimate, invalid_estimate-IsEstimate,
}
use cost.World.{World, reserve_call, apply, held, handed_out}
use cost.World.Conservation.{held-append}
use cost.World.Budget.{IsBalanced}
use cost.World.Budget.Settling.{held_nonneg, AllNonneg-append}

-- The world after an estimate is admitted.
abbrev admitted : World → ℤ → World
admitted w estimate = record {
  ledger = record w.ledger { used_micros = add64 w.ledger.used_micros estimate };
  reservations = w.reservations ++ fresh estimate ∷ [];
}

admitted-IsBalanced :
    (estimate : ℤ) (over : ℕ) (w : World)
    → IsInt64 w.ledger.limit_micros
    → w.ledger.limit_micros +ℤ pos over ≤ℤ max_int64
    → IsEstimate estimate
    → budget_error w.ledger.limit_micros w.ledger.used_micros estimate ≡ none
    → IsBalanced over w
    → IsBalanced over (admitted w estimate)
admitted-IsBalanced estimate over w hl room he fits h =
    let l = w.ledger in
    let held_pos : pos 0 ≤ℤ held w.reservations = held_nonneg w.reservations h.amounts in
    let used_int : IsInt64 l.used_micros = grind int_laws in
    let (nonneg, f) = budget_error-Fits l.limit_micros l.used_micros estimate hl used_int he fits in
    let used_eq : add64 l.used_micros estimate ≡ l.used_micros +ℤ estimate =
      add64_estimate l.limit_micros l.used_micros estimate he f nonneg in
    record {
      limited = h.limited;
      exact = rw (used_eq, held-append w.reservations (fresh estimate)) (grind int_laws);
      spent = h.spent;
      amounts = AllNonneg-append w.reservations (fresh estimate) h.amounts he.0;
      within = rw used_eq (grind int_laws);
    }

pub reserve-IsBalanced :
    (ctx : Context) (estimate : ℤ) (over : ℕ) (w : World)
    → IsInt64 w.ledger.limit_micros
    → w.ledger.limit_micros +ℤ pos over ≤ℤ max_int64
    → IsBalanced over w
    → IsBalanced over (apply (reserve_call ctx estimate) w).1
unfolding apply reserve
reserve-IsBalanced ctx estimate over w hl room h =
    checked-elim P (context_error ctx) w.ledger (λ _ _. h)
      λ _.
        if-elim P (invalid_estimate estimate)
          {x = (err (validation "estimate_micros" estimate), w.ledger)}
          {y = reserve_loop estimate [] w.ledger} (λ _. h)
          (λ v.
            checked-elim P (budget_error w.ledger.limit_micros w.ledger.used_micros estimate)
              w.ledger (λ _ _. h)
              (λ fits.
                admitted-IsBalanced estimate over w hl room (invalid_estimate-IsEstimate estimate v)
                  fits h))
  where
    P : Result LocalReservation × Ledger → Type 0
    P c = IsBalanced over (handed_out w c).1
