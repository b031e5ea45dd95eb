-- ===== src/Postgres/Availability.antt =====
-- When the database answers, Reserve of adapters/postgres/ledger.go grants exactly what fits beside
-- the reservations that have not expired.
use cost.Prelude.{
  ℕ, ◌≡◌, refl, ◌↔◌, inl, inr, ℤ, pos, ◌+ℤ◌, ◌-ℤ◌, ◌≤ℤ◌, not, Bool, true, false, if◌then◌else◌,
  none, some, List, [], ◌∷◌, arith, int_laws, Bool-cases, ap, ◌∙◌,
}
use cost.Int64.{max_int64, sub64, wrap, to_bits, of_bits}
use cost.Text.{Text, text_eqb}
use cost.Errors.{background, ok, is_ok}
use cost.Currency.{to_string}
use cost.Ledger.{invalid_estimate}
use cost.Ledger.Admission.{IsEstimate}
use cost.Sql.{committed, fits_int64}
use cost.Sql.Rules.{bind-ok, granted, transaction-answers}
use cost.Postgres.Tables.{
  BudgetRow, ReservationRow, Database, find_budget, find_reservation, delete_expired, held,
}
use cost.Postgres.{
  Ledger, Environment, Statement, select_budget, reclaim, update_reclaimed, insert_reservation,
  update_budget, load_budget_and_reclaim, hold, admit, reserve_body, reserve_with, reserve,
}
use cost.Postgres.Rows.{
  expired_sum_nonneg, held-delete_expired, held_nonneg, delete_expired-AllNonneg,
}
use cost.Postgres.Steps.{used_after, reclaimed, reclaimed_database, over_budget}
use cost.Postgres.Accounts.{Accounted, used_after_exact}

-- The database answers every statement, and the new id is free.
pub record IsHealthy (env : Environment) (id : Text) (t : Database) : Type 0 where
  pub begins : env.faults.begin_error ≡ none
  pub answers : (s : Statement) → env.faults.statement_error s ≡ none
  pub commits : env.faults.commit_outcome ≡ committed
  pub identified : env.new_id ≡ ok id
  pub free : find_reservation id t.reservations ≡ none

pub find_reservation-delete_expired :
    (scope id : Text) (now : ℕ) (rows : List ReservationRow)
    → find_reservation id rows ≡ none
    → find_reservation id (delete_expired scope now rows) ≡ none
unfolding find_reservation delete_expired
find_reservation-delete_expired scope id now [] h = refl
find_reservation-delete_expired scope id now (r ∷ rows) h =
    ground (arith, find_reservation-delete_expired scope id now rows)

module _ (l : Ledger) (env : Environment) (id : Text) (estimate : ℤ) (t : Database)
    (healthy : IsHealthy env id t) where
  load_budget_and_reclaim-healthy :
      (row : BudgetRow)
      → find_budget l.scope t.budgets ≡ some row
      → text_eqb row.currency (to_string l.currency) ≡ true
      → fits_int64 (reclaimed l env t) ≡ true
      → load_budget_and_reclaim l env t
        ≡ (ok (used_after l env row t, row.limit_micros), reclaimed_database l env row t)
  unfolding load_budget_and_reclaim
  load_budget_and_reclaim-healthy row h c f = ground (
    arith,
    healthy.answers select_budget,
    healthy.answers reclaim,
    healthy.answers update_reclaimed,
  )

  hold-healthy :
      (used : ℤ) (t' : Database)
      → find_reservation id t'.reservations ≡ none
      → granted (hold l env id estimate used t') ≡ true
  unfolding hold
  hold-healthy used t' h =
      ground (arith, healthy.answers insert_reservation, healthy.answers update_budget)

  admit-healthy :
      (used limit : ℤ) (t' : Database)
      → find_reservation id t'.reservations ≡ none
      → granted (admit l env id estimate (used, limit) t')
        ≡ not (over_budget l env limit used estimate)
  unfolding admit
  admit-healthy used limit t' h = elim (Bool-cases (over_budget l env limit used estimate)) [
    | inl over ↦ rw over
    | inr fits ↦ rw fits (hold-healthy used t' h)
  ]

  -- The budget test in exact arithmetic.
  over_budget_iff :
      (limit used : ℤ)
      → IsEstimate estimate
      → pos 0 ≤ℤ limit
      → limit ≤ℤ max_int64
      → (over_budget l env limit used estimate ≡ false) ↔ (used +ℤ estimate ≤ℤ limit)
  unfolding sub64 wrap to_bits of_bits ◌+ℤ◌ ◌-ℤ◌
  over_budget_iff limit used he h0 hl = ground arith

  reserve_body-healthy :
      (row : BudgetRow)
      → find_budget l.scope t.budgets ≡ some row
      → text_eqb row.currency (to_string l.currency) ≡ true
      → fits_int64 (reclaimed l env t) ≡ true
      → granted (reserve_body l env id estimate t)
        ≡ not (over_budget l env row.limit_micros (used_after l env row t) estimate)
  unfolding reserve_body
  reserve_body-healthy row h c f =
      ap granted (
        bind-ok (load_budget_and_reclaim l env) (admit l env id estimate) t _ _
          (load_budget_and_reclaim-healthy row h c f))
      ∙ admit-healthy (used_after l env row t) row.limit_micros (reclaimed_database l env row t)
          (find_reservation-delete_expired l.scope id env.now t.reservations healthy.free)

  reserve-healthy :
      l.connected ≡ true
      → is_ok (reserve background l env estimate t).0
        ≡ (if invalid_estimate estimate then false else granted (reserve_body l env id estimate t))
  unfolding reserve reserve_with
  reserve-healthy c =
      simp (c, healthy.identified)
        (elim (Bool-cases (invalid_estimate estimate)) [
          | inl bad ↦ rw bad
          | inr good ↦ rw good (
              transaction-answers env.faults "postgres: begin: %w" (reserve_body l env id estimate)
                t healthy.begins healthy.commits)
        ])

  decided :
      (limit used : ℤ)
      → pos 0 ≤ℤ limit
      → limit ≤ℤ max_int64
      → ((if invalid_estimate estimate then false else not (over_budget l env limit used estimate))
          ≡ true)
        ↔ (IsEstimate estimate × (used +ℤ estimate ≤ℤ limit))
  decided limit used h0 hl = (
    λ h. ground (arith, over_budget_iff limit used),
    λ h. ground (arith, over_budget_iff limit used),
  )

  -- On a database that answers, with a fresh id, Reserve under a live context grants exactly the
  -- valid estimates that fit the limit together with what is settled and what the unexpired
  -- reservations hold, expired ones not counted; for a scope whose account holds within an int64,
  -- whose currency is that of the ledger and whose limit is not negative.
  pub reserve_iff :
      (limit cap settled : ℤ)
      → (a : Accounted l.scope limit cap settled t) → pos 0 ≤ℤ limit
      → limit ≤ℤ max_int64
      → cap ≤ℤ max_int64
      → l.connected ≡ true
      → text_eqb a.row.currency (to_string l.currency) ≡ true
      → (is_ok (reserve background l env estimate t).0 ≡ true) ↔ (
          IsEstimate estimate
          × (settled +ℤ held l.scope (delete_expired l.scope env.now t.reservations) +ℤ estimate
              ≤ℤ limit))
  reserve_iff limit cap settled a h0 hl small conn cur =
      let sum = reclaimed l env t in
      let kept = held l.scope (delete_expired l.scope env.now t.reservations) in
      let sum_nonneg : pos 0 ≤ℤ sum = expired_sum_nonneg l.scope env.now t.reservations a.amounts in
      let kept_nonneg : pos 0 ≤ℤ kept =
        held_nonneg l.scope _ (delete_expired-AllNonneg l.scope env.now t.reservations a.amounts) in
      let in_range : fits_int64 sum ≡ true = grind (
        int_laws,
        a.exact,
        a.spent,
        a.within,
        held-delete_expired l.scope env.now t.reservations,
      ) in
      let used_eq : used_after l env a.row t ≡ settled +ℤ kept =
        used_after_exact l env limit cap settled small t a
        ∙ grind (int_laws, a.exact, held-delete_expired l.scope env.now t.reservations) in
      let value : is_ok (reserve background l env estimate t).0 ≡ (
          if invalid_estimate estimate
          then false
          else not (over_budget l env limit (settled +ℤ kept) estimate)) =
        reserve-healthy conn
        ∙ ap (λ (b : Bool). if invalid_estimate estimate then false else b)
            (reserve_body-healthy a.row a.found cur in_range
              ∙ ap (λ (u : ℤ). not (over_budget l env a.row.limit_micros u estimate)) used_eq
              ∙ ap (λ (m : ℤ). not (over_budget l env m (settled +ℤ kept) estimate)) a.limited) in
      rw value (decided limit (settled +ℤ kept) h0 hl)
