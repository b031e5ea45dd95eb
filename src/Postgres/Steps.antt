-- ===== src/Postgres/Steps.antt =====
-- The tables that a successful body of a transaction of adapters/postgres/ledger.go leaves.
use Prim.Native.String.{String}
use cost.Prelude.{
  ◌+◌, ◌≡◌, refl, ◌⊎◌, inl, inr, ℤ, pos, ◌+ℤ◌, ltb_ℤ, leb_ℤ, ◌&&◌, Bool, true, false, if◌then◌else◌,
  some, ◌∷◌, arith, Bool-cases,
}
use cost.Int64.{add64, sub64}
use cost.Text.{Text}
use cost.Errors.{ok, is_ok}
use cost.Sql.{fits_int64, Finish}
use cost.Sql.Rules.{OnOk, bind-OnOk, OnOk-mono}
use cost.Postgres.Tables.{
  BudgetRow, ReservationRow, Database, find_budget, update_used, delete_expired, expired_sum,
  find_reservation, delete_reservation,
}
use cost.Postgres.{
  Ledger, Environment, Reservation, lease, load_budget_and_reclaim, hold, admit, reserve_body,
  settle_body,
}

module _ (l : Ledger) (env : Environment) where
  abbrev pub reclaimed : Database → ℤ
  reclaimed t = expired_sum l.scope env.now t.reservations

  -- What is used once the expired reservations are gone.
  abbrev pub used_after : BudgetRow → Database → ℤ
  used_after row t =
      if ltb_ℤ (pos 0) (reclaimed t) then sub64 row.used_micros (reclaimed t) else row.used_micros

  abbrev pub reclaimed_database : BudgetRow → Database → Database
  reclaimed_database row t = record t {
    reservations = delete_expired l.scope env.now t.reservations;
    budgets =
        if ltb_ℤ (pos 0) (reclaimed t)
        then update_used l.scope (λ _. used_after row t) t.budgets
        else t.budgets;
  }

  pub load_budget_and_reclaim-OnOk :
      (row : BudgetRow) (t : Database)
      → find_budget l.scope t.budgets ≡ some row
      → OnOk
          (λ p t'. (p ≡ (used_after row t, row.limit_micros)) × (t' ≡ reclaimed_database row t))
          (load_budget_and_reclaim l env t)
  unfolding load_budget_and_reclaim
  load_budget_and_reclaim-OnOk row t h = ground arith

  abbrev pub held_database : Text → (estimate used : ℤ) → Database → Database
  held_database id estimate used t = record t {
    reservations =
        record {
          id = id;
          scope = l.scope;
          amount_micros = estimate;
          expires_at = env.now + lease l;
        }
        ∷ t.reservations;
    budgets = update_used l.scope (λ _. add64 used estimate) t.budgets;
  }

  hold-OnOk :
      (id : Text) (estimate used : ℤ) (t : Database)
      → OnOk
          (λ f t'.
            (f.result ≡ ok (record { id = id; done = false }))
            × (t' ≡ held_database id estimate used t))
          (hold l env id estimate used t)
  unfolding hold
  hold-OnOk id estimate used t = ground arith

  -- The budget test of Reserve.
  abbrev pub over_budget : (limit used estimate : ℤ) → Bool
  over_budget limit used estimate = leb_ℤ (pos 0) limit && ltb_ℤ (sub64 limit estimate) used

  -- How a body of Reserve ends, if no statement fails: it has reclaimed what expired, and then
  -- refused or held the estimate.
  abbrev pub ReserveEffect :
      Text → ℤ → BudgetRow → Database → Finish Reservation → Database → Type 0
  ReserveEffect id estimate row t f t' =
      ((over_budget row.limit_micros (used_after row t) estimate ≡ true)
        × (is_ok f.result ≡ false)
        × (t' ≡ reclaimed_database row t))
      ⊎ ((over_budget row.limit_micros (used_after row t) estimate ≡ false)
          × (f.result ≡ ok (record { id = id; done = false }))
          × (t' ≡ held_database id estimate (used_after row t) (reclaimed_database row t)))

  admit-OnOk :
      (id : Text) (estimate : ℤ) (row : BudgetRow) (t : Database)
      → OnOk
          (ReserveEffect id estimate row t)
          (admit l env id estimate (used_after row t, row.limit_micros) (reclaimed_database row t))
  unfolding admit
  admit-OnOk id estimate row t =
      elim (Bool-cases (over_budget row.limit_micros (used_after row t) estimate)) [
        | inl over ↦ rw over (inl (over, refl, refl))
        | inr fits ↦ rw fits (
            OnOk-mono _ (ReserveEffect id estimate row t)
              (hold l env id estimate (used_after row t) (reclaimed_database row t))
              (λ f t' q. inr (fits, q.0, q.1))
              (hold-OnOk id estimate (used_after row t) (reclaimed_database row t)))
      ]

  pub reserve_body-OnOk :
      (id : Text) (estimate : ℤ) (row : BudgetRow) (t : Database)
      → find_budget l.scope t.budgets ≡ some row
      → OnOk (ReserveEffect id estimate row t) (reserve_body l env id estimate t)
  unfolding reserve_body
  reserve_body-OnOk id estimate row t h =
      bind-OnOk
        (λ p t'. (p ≡ (used_after row t, row.limit_micros)) × (t' ≡ reclaimed_database row t))
        (ReserveEffect id estimate row t) (load_budget_and_reclaim l env) (admit l env id estimate)
        t (load_budget_and_reclaim-OnOk row t h)
        (λ p t' q. rw (q.0, q.1) (admit-OnOk id estimate row t))

  -- A body of Commit or Release that ends without an error of a statement has deleted the row and
  -- changed the counter by a sum that is in range.
  pub settle_body-OnOk :
      (id : Text) (not_deleted not_updated not_committed : String) (change : ℤ → ℤ)
      (row : ReservationRow) (b : BudgetRow) (t : Database)
      → find_reservation id t.reservations ≡ some row
      → find_budget l.scope t.budgets ≡ some b
      → OnOk
          (λ f t'.
            (f.result ≡ ok tt)
            × (fits_int64 (b.used_micros +ℤ change row.amount_micros) ≡ true)
            × (t' ≡ record t {
              reservations = delete_reservation id t.reservations;
              budgets = update_used l.scope (λ used. used +ℤ change row.amount_micros) t.budgets;
            }))
          (settle_body l env id not_deleted not_updated not_committed change t)
  unfolding settle_body
  settle_body-OnOk id not_deleted not_updated not_committed change row b t h k = ground arith
