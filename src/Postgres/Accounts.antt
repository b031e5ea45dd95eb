-- ===== src/Postgres/Accounts.antt =====
-- The account of one scope of the PostgreSQL ledger: what its row counts against what its
-- reservations hold.
use cost.Prelude.{
  ◌≡◌, refl, inl, inr, ℤ, pos, ◌+ℤ◌, ◌-ℤ◌, ◌≤ℤ◌, ltb_ℤ, true, false, if◌then◌else◌, some, arith,
  int_laws, Bool-cases,
}
use cost.Int64.{IsInt64, max_int64, add64, sub64, wrap, to_bits, of_bits}
use cost.Text.{Text, text_eqb, text_eqb_refl}
use cost.Ledger.Admission.{IsEstimate}
use cost.Postgres.Tables.{
  BudgetRow, ReservationRow, Database, find_budget, update_used, delete_expired, find_reservation,
  delete_reservation, held,
}
use cost.Postgres.{Ledger, Environment}
use cost.Postgres.Rows.{
  AllNonneg, find_budget-update_used, held-delete_expired, held_nonneg, expired_sum_nonneg,
  delete_expired-AllNonneg, held-delete_reservation, delete_reservation-AllNonneg,
}
use cost.Postgres.Steps.{reclaimed, used_after, reclaimed_database, held_database, over_budget}

-- The scope has a row with this limit; its counter is exactly what was settled for good plus what
-- the scope's reservations hold, neither below 0, and is at most `cap`.
pub record Accounted (scope : Text) (limit cap settled : ℤ) (t : Database) : Type 0 where
  pub row : BudgetRow
  pub found : find_budget scope t.budgets ≡ some row
  pub limited : row.limit_micros ≡ limit
  pub exact : row.used_micros ≡ settled +ℤ held scope t.reservations
  pub spent : pos 0 ≤ℤ settled
  pub amounts : AllNonneg t.reservations
  pub within : row.used_micros ≤ℤ cap

exact_difference :
    (used sum settled kept all : ℤ)
    → pos 0 ≤ℤ sum
    → pos 0 ≤ℤ kept
    → pos 0 ≤ℤ settled
    → used ≡ settled +ℤ all
    → kept +ℤ sum ≡ all
    → used ≤ℤ max_int64
    → (if ltb_ℤ (pos 0) sum then sub64 used sum else used) ≡ used -ℤ sum
unfolding sub64 wrap to_bits of_bits ◌+ℤ◌ ◌-ℤ◌
exact_difference used sum settled kept all hs hk h0 e1 e2 hm = ground arith

module _ (l : Ledger) (env : Environment) (limit cap settled : ℤ) (small : cap ≤ℤ max_int64) where
  -- What is left of the counter once the expired reservations are gone.
  pub used_after_exact :
      (t : Database) (a : Accounted l.scope limit cap settled t)
      → used_after l env a.row t ≡ a.row.used_micros -ℤ reclaimed l env t
  used_after_exact t a =
      let nonneg : pos 0 ≤ℤ reclaimed l env t =
        expired_sum_nonneg l.scope env.now t.reservations a.amounts in
      let kept : pos 0 ≤ℤ held l.scope (delete_expired l.scope env.now t.reservations) =
        held_nonneg l.scope _ (delete_expired-AllNonneg l.scope env.now t.reservations a.amounts) in
      exact_difference a.row.used_micros (reclaimed l env t) settled
        (held l.scope (delete_expired l.scope env.now t.reservations)) (held l.scope t.reservations)
        nonneg kept a.spent a.exact (held-delete_expired l.scope env.now t.reservations)
        (omega arith)

  -- The row of the scope, if something is written, or as it was.
  reclaimed_row : BudgetRow → Database → BudgetRow
  reclaimed_row row t = record row { used_micros = used_after l env row t }

  find_budget-reclaimed :
      (row : BudgetRow) (t : Database)
      → find_budget l.scope t.budgets ≡ some row
      → find_budget l.scope (reclaimed_database l env row t).budgets ≡ some (reclaimed_row row t)
  unfolding reclaimed_row
  find_budget-reclaimed row t h = elim (Bool-cases (ltb_ℤ (pos 0) (reclaimed l env t))) [
    | inl some_expired ↦ rw some_expired (
        find_budget-update_used l.scope (λ _. sub64 row.used_micros (reclaimed l env t)) t.budgets
          row h)
    | inr none_expired ↦ rw none_expired h
  ]

  pub reclaimed-Accounted :
      (t : Database) (a : Accounted l.scope limit cap settled t)
      → Accounted l.scope limit cap settled (reclaimed_database l env a.row t)
  unfolding reclaimed_row
  reclaimed-Accounted t a = record {
    row = reclaimed_row a.row t;
    found = find_budget-reclaimed a.row t a.found;
    limited = a.limited;
    exact =
        rw (used_after_exact t a)
          (grind (int_laws, a.exact, held-delete_expired l.scope env.now t.reservations));
    spent = a.spent;
    amounts = delete_expired-AllNonneg l.scope env.now t.reservations a.amounts;
    within =
        rw (used_after_exact t a)
          (grind (int_laws, a.within, expired_sum_nonneg l.scope env.now t.reservations a.amounts));
  }

  pub used_micros-reclaimed :
      (t : Database) (a : Accounted l.scope limit cap settled t)
      → (reclaimed-Accounted t a).row.used_micros ≡ used_after l env a.row t
  unfolding reclaimed-Accounted reclaimed_row
  used_micros-reclaimed t a = refl

  fitting_sum :
      (limit used estimate : ℤ)
      → IsInt64 limit
      → pos 0 ≤ℤ limit
      → IsEstimate estimate
      → pos 0 ≤ℤ used
      → over_budget l env limit used estimate ≡ false
      → (add64 used estimate ≡ used +ℤ estimate) × (used +ℤ estimate ≤ℤ limit)
  unfolding add64 sub64 wrap to_bits of_bits ◌+ℤ◌ ◌-ℤ◌
  fitting_sum limit used estimate hl h0 he hu fits = ground arith

  held-hold :
      (id : Text) (estimate : ℤ)
      → text_eqb l.scope l.scope ≡ true
      → (t : Database)
      → held l.scope (held_database l env id estimate (pos 0) t).reservations
        ≡ estimate +ℤ held l.scope t.reservations
  unfolding held
  held-hold id estimate own t = rw own

  -- An estimate that fits, on tables where nothing of the scope has expired.
  held-Accounted :
      (id : Text) (estimate : ℤ) (t : Database) (a : Accounted l.scope limit cap settled t)
      → IsInt64 limit
      → pos 0 ≤ℤ limit
      → limit ≤ℤ cap
      → IsEstimate estimate
      → over_budget l env limit a.row.used_micros estimate ≡ false
      → Accounted l.scope limit cap settled (held_database l env id estimate a.row.used_micros t)
  held-Accounted id estimate t a hl h0 hc he fits =
      let used = a.row.used_micros in
      let nonneg : pos 0 ≤ℤ held l.scope t.reservations =
        held_nonneg l.scope t.reservations a.amounts in
      let (sum_eq, below) =
        fitting_sum limit used estimate hl h0 he (grind (int_laws, a.exact, a.spent)) fits in
      let own : text_eqb l.scope l.scope ≡ true = text_eqb_refl l.scope in
      record {
        row = record (a.row) { used_micros = add64 used estimate };
        found = find_budget-update_used l.scope (λ _. add64 used estimate) t.budgets a.row a.found;
        limited = a.limited;
        exact = rw sum_eq (grind (int_laws, a.exact, held-hold id estimate own t));
        spent = a.spent;
        amounts = (he.0, a.amounts);
        within = rw sum_eq (omega arith);
      }

  pub held-Accounted_at :
      (id : Text) (estimate used : ℤ) (t : Database) (a : Accounted l.scope limit cap settled t)
      → a.row.used_micros ≡ used
      → IsInt64 limit
      → pos 0 ≤ℤ limit
      → limit ≤ℤ cap
      → IsEstimate estimate
      → over_budget l env limit used estimate ≡ false
      → Accounted l.scope limit cap settled (held_database l env id estimate used t)
  held-Accounted_at id estimate used t a eq hl h0 hc he fits =
      rw (← eq) (held-Accounted id estimate t a hl h0 hc he (rw eq fits))

module _ (scope : Text) (limit cap settled : ℤ) where
  -- A reservation of the scope is taken away and the counter changed by `change`.
  pub settled-Accounted :
      (id : Text) (change cap' : ℤ) (r : ReservationRow) (t : Database)
      (a : Accounted scope limit cap settled t)
      → find_reservation id t.reservations ≡ some r
      → r.scope ≡ scope
      → pos 0 ≤ℤ change +ℤ r.amount_micros
      → a.row.used_micros +ℤ change ≤ℤ cap'
      → Accounted scope limit cap' (settled +ℤ (change +ℤ r.amount_micros)) (record t {
        reservations = delete_reservation id t.reservations;
        budgets = update_used scope (λ used. used +ℤ change) t.budgets;
      })
  settled-Accounted id change cap' r t a h own gain small =
      let same : text_eqb r.scope scope ≡ true = rw own (text_eqb_refl scope) in
      record {
        row = record (a.row) { used_micros = a.row.used_micros +ℤ change };
        found = find_budget-update_used scope (λ used. used +ℤ change) t.budgets a.row a.found;
        limited = a.limited;
        exact =
            grind
              (int_laws, a.exact, rw same at (held-delete_reservation scope id t.reservations r h));
        spent = grind (int_laws, a.spent);
        amounts = delete_reservation-AllNonneg id t.reservations a.amounts;
        within = small;
      }
