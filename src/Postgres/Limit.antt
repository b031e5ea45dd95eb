-- ===== src/Postgres/Limit.antt =====
-- Reserve of adapters/postgres/ledger.go keeps the account of its scope, and the limit, whatever
-- fails on the way.
use cost.Prelude.{inl, inr, ℤ, pos, ◌≤ℤ◌, not, if◌then◌else◌, arith, if-elim}
use cost.Int64.{IsInt64, max_int64}
use cost.Text.{Text}
use cost.Errors.{Context, context_error, Result, ok, err, checked-elim, validation}
use cost.Ledger.{invalid_estimate}
use cost.Ledger.Admission.{IsEstimate, invalid_estimate-IsEstimate}
use cost.Sql.{Finish}
use cost.Sql.Rules.{OnOk, OnOk-mono, transaction-keeps}
use cost.Postgres.Tables.{Database}
use cost.Postgres.{
  Ledger, Environment, Reservation, reserve_body, reserve_with, reserve, nil_database,
}
use cost.Postgres.Steps.{ReserveEffect, reserve_body-OnOk, reclaimed_database, used_after}
use cost.Postgres.Accounts.{
  Accounted, reclaimed-Accounted, used_micros-reclaimed, held-Accounted_at,
}

module _ (l : Ledger) (env : Environment) (limit cap settled : ℤ) where
  reserve_body-Accounted :
      (id : Text) (estimate : ℤ) (t : Database)
      → cap ≤ℤ max_int64
      → IsInt64 limit
      → pos 0 ≤ℤ limit
      → limit ≤ℤ cap
      → IsEstimate estimate
      → Accounted l.scope limit cap settled t
      → OnOk (λ f t'. Accounted l.scope limit cap settled t') (reserve_body l env id estimate t)
  reserve_body-Accounted id estimate t small hl h0 hc he a =
      OnOk-mono (ReserveEffect l env id estimate a.row t) _ (reserve_body l env id estimate t)
        (λ f t' effect. after f t' effect) (reserve_body-OnOk l env id estimate a.row t a.found)
    where
      b : Accounted l.scope limit cap settled (reclaimed_database l env a.row t)
      b = reclaimed-Accounted l env limit cap settled small t a

      after :
          (f : Finish Reservation) (t' : Database)
          → ReserveEffect l env id estimate a.row t f t'
          → Accounted l.scope limit cap settled t'
      after f t' (inl (_, _, e)) = rw e b
      after f t' (inr (fits, _, e)) = rw e (
          held-Accounted_at l env limit cap settled small id estimate (used_after l env a.row t) _ b
            (used_micros-reclaimed l env limit cap settled small t a) hl h0 hc he
            (rw a.limited at fits))

  -- Reserve on PostgreSQL, under any context and with any failing statement or commit, applied or
  -- not, keeps the account of its scope: what is used is what has been settled plus what all its
  -- reservations hold, and it is within the cap, if the limit is between 0 and the cap and the cap
  -- is an int64.
  pub reserve-Accounted :
      (ctx : Context) (estimate : ℤ) (t : Database)
      → pos 0 ≤ℤ limit
      → limit ≤ℤ cap
      → cap ≤ℤ max_int64
      → Accounted l.scope limit cap settled t
      → Accounted l.scope limit cap settled (reserve ctx l env estimate t).1
  unfolding reserve reserve_with
  reserve-Accounted ctx estimate t h0 hc small a =
      checked-elim P (context_error ctx) t (λ _ _. a)
        λ _.
          if-elim P (not l.connected) {x = (err nil_database, t)}
            {y = if invalid_estimate estimate
              then (err (validation "estimate_micros" estimate), t)
              else reserve_with l env estimate env.new_id t}
            (λ _. a)
            (λ _.
              if-elim P (invalid_estimate estimate)
                {x = (err (validation "estimate_micros" estimate), t)}
                {y = reserve_with l env estimate env.new_id t} (λ _. a)
                (λ v. with_id env.new_id (invalid_estimate-IsEstimate estimate v)))
    where
      P : Result Reservation × Database → Type 0
      P c = Accounted l.scope limit cap settled c.1

      with_id : (r : Result Text) → IsEstimate estimate → P (reserve_with l env estimate r t)
      with_id (err e) he = a
      with_id (ok id) he =
          transaction-keeps (λ t'. Accounted l.scope limit cap settled t') env.faults
            "postgres: begin: %w" (reserve_body l env id estimate) t a
            (reserve_body-Accounted id estimate t small (ground arith) h0 hc he a)
