-- ===== src/Postgres/Tests.antt =====
-- The PostgreSQL ledger at a concrete database.
use cost.Prelude.{
  ◌≡◌, refl, ◌↔◌, inl, pos, ◌+ℤ◌, ◌-ℤ◌, ◌≤ℤ◌, true, false, none, some, [], ◌∷◌, arith,
}
use cost.Int64.{add64, sub64, wrap, to_bits, of_bits}
use cost.Text.{text}
use cost.Errors.{background, message, ok, is_ok}
use cost.Currency.{usd, to_string}
use cost.Event.{Event}
use cost.Ledger.{empty_event}
use cost.Ledger.Admission.{IsEstimate}
use cost.Sql.{committed, commit_failed, transaction}
use cost.Sql.Rules.{OnOk}
use cost.Postgres.Tables.{
  BudgetRow, ReservationRow, Database, find_budget, find_reservation, delete_expired, expired_sum,
  update_used, has_entry, held,
}
use cost.Postgres.{
  Ledger, Environment, Reservation, reserve, reserve_with, reserve_body, load_budget_and_reclaim,
  admit, hold, commit, release, record_event, ensure_schema,
}
use cost.Postgres.Accounts.{Accounted}
use cost.Postgres.Limit.{reserve-Accounted}
use cost.Postgres.Settlement.{SettleOutcome, commit-SettleOutcome, release-SettleOutcome}
use cost.Postgres.Recording.{record_event_once}
use cost.Postgres.Availability.{reserve_iff}
use cost.Postgres.Schema.{Ensured, ensure_schema-Ensured}

abbrev ledger : Ledger
ledger = record {
  connected = true;
  scope = text "s";
  limit_micros = pos 100;
  currency = usd;
  ttl = pos 30000000000;
}

-- 30 are settled for good, and "a" holds 30 until time 5.
abbrev budget_row : BudgetRow
budget_row = record {
  scope = text "s";
  limit_micros = pos 100;
  used_micros = pos 60;
  currency = text "USD";
}

abbrev held_row : ReservationRow
held_row = record { id = text "a"; scope = text "s"; amount_micros = pos 30; expires_at = 5 }

abbrev database : Database
database = record { budgets = budget_row ∷ []; reservations = held_row ∷ []; entries = [] }

-- At time 9 everything answers.
abbrev calm : Environment
calm = record {
  now = 9;
  new_id = ok (text "b");
  faults = record { begin_error = none; statement_error = λ _. none; commit_outcome = committed };
}

-- The commit of the transaction reports an error, and has been applied.
abbrev torn : Environment
torn = record calm {
  faults = record {
    begin_error = none;
    statement_error = λ _. none;
    commit_outcome = commit_failed (message "connection lost" []) true;
  };
}

account : Accounted (text "s") (pos 100) (pos 100) (pos 30) database
unfolding find_budget held ◌+ℤ◌
account = record {
  row = budget_row;
  found = refl;
  limited = refl;
  exact = refl;
  spent = omega arith;
  amounts = omega arith;
  within = omega arith;
}

-- 65 fit only because "a" has expired.
expired_lease_freed :
    find_budget (text "s") (reserve background ledger calm (pos 65) database).1.budgets
    ≡ some (record budget_row { used_micros = pos 95 })
unfolding reserve reserve_with reserve_body load_budget_and_reclaim admit hold transaction
    find_budget find_reservation update_used delete_expired expired_sum to_string add64 sub64 wrap
    to_bits of_bits ◌+ℤ◌ ◌-ℤ◌
expired_lease_freed = refl

reserve-Accounted_example :
    Accounted
      (text "s")
      (pos 100)
      (pos 100)
      (pos 30)
      (reserve background ledger torn (pos 65) database).1
reserve-Accounted_example =
    reserve-Accounted ledger torn (pos 100) (pos 100) (pos 30) background (pos 65) database
      (omega arith) (omega arith) (omega arith) account

reserve_iff_example : (is_ok (reserve background ledger calm (pos 65) database).0 ≡ true) ↔ (
    IsEstimate (pos 65)
    × (pos 30 +ℤ held (text "s") (delete_expired (text "s") 9 database.reservations) +ℤ pos 65
        ≤ℤ pos 100))
unfolding find_reservation account to_string
reserve_iff_example =
    reserve_iff ledger calm (text "b") (pos 65) database
      (record {
        begins = refl;
        answers = λ _. refl;
        commits = refl;
        identified = refl;
        free = refl;
      })
      (pos 100) (pos 100) (pos 30) account (omega arith) (omega arith) (omega arith) refl refl

abbrev lease_a : Reservation
lease_a = record { id = text "a"; done = false }

commit-SettleOutcome_example :
    SettleOutcome ledger
      (pos 100)
      (pos 100)
      (pos 30)
      (pos 45)
      held_row
      lease_a
      database
      (commit background ledger torn (pos 45) lease_a database)
unfolding find_reservation
commit-SettleOutcome_example =
    commit-SettleOutcome background ledger torn (pos 100) (pos 100) (pos 30) (pos 45) lease_a
      held_row database (omega arith) (omega arith) account (refl, refl, refl)

release-SettleOutcome_example :
    SettleOutcome ledger
      (pos 100)
      (pos 100)
      (pos 30)
      (pos 0)
      held_row
      lease_a
      database
      (release background ledger calm lease_a database)
unfolding find_reservation
release-SettleOutcome_example =
    release-SettleOutcome background ledger calm (pos 100) (pos 100) (pos 30) lease_a held_row
      database account (refl, refl, refl)

-- Two events without an id, as the hooks record them: the second is lost.
abbrev first_call : Event
first_call = record empty_event { operation = text "x"; cost_micros = pos 5 }

abbrev second_call : Event
second_call = record empty_event { operation = text "y"; cost_micros = pos 7 }

record_event_once_example :
    let t' = (record_event background ledger committed first_call database).1 in
    (has_entry (text "s") [] t'.entries ≡ true)
    × (record_event background ledger committed second_call t' ≡ (ok tt, t'))
record_event_once_example =
    record_event_once ledger first_call second_call database refl (omega arith, inl refl)
      (omega arith, inl refl) refl

ensure_schema-Ensured_example :
    OnOk (λ _ t'. Ensured ledger calm database t') (ensure_schema false ledger calm none database)
ensure_schema-Ensured_example = ensure_schema-Ensured ledger calm false none database
