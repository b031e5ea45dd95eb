-- ===== src/Contract/Tests.antt =====
-- The contract on the local ledger and on PostgreSQL.
use cost.Prelude.{◌≡◌, refl, pos, ◌+ℤ◌, ◌-ℤ◌, none, [], ◌∷◌, true}
use cost.Int64.{add64, sub64, wrap, of_bits, to_bits}
use cost.Text.{text}
use cost.Errors.{ok}
use cost.Currency.{usd, to_string}
use cost.Sql.{committed, transaction}
use cost.World.{new_world, apply}
use cost.Ledger
use cost.Ledger.{new_ledger}
use cost.Reservation
use cost.Postgres
use cost.Postgres.Tables.{
  find_budget, expired_sum, find_reservation, delete_expired, delete_reservation, update_used,
}
use cost.Flow.Reserver.{local}
use cost.Flow.Middleware.Postgres.{Calls, monthly_reserver}
use cost.Contract.{run_contract}

local_keeps : (run_contract local (new_world (pos 100) usd)).0 ≡ ok tt
unfolding run_contract apply Ledger.reserve new_ledger Reservation.commit Reservation.release add64
    sub64 wrap of_bits to_bits ◌+ℤ◌ ◌-ℤ◌
local_keeps = refl

abbrev environment : Postgres.Environment
environment = record {
  now = 9;
  new_id = ok (text "c");
  faults = record { begin_error = none; statement_error = λ _. none; commit_outcome = committed };
}

abbrev ledger : Postgres.Ledger
ledger = record {
  connected = true;
  scope = text "s";
  limit_micros = pos 100;
  currency = usd;
  ttl = pos 300000000000;
}

abbrev database : Postgres.Tables.Database
database = record {
  budgets =
      record {
        scope = text "s";
        limit_micros = pos 100;
        used_micros = pos 0;
        currency = text "USD";
      }
      ∷ [];
  reservations = [];
  entries = [];
}

abbrev calls : Calls Postgres.Environment
calls = record {
  reserving = environment;
  committing = environment;
  releasing = environment;
  recording = committed;
}

postgres_keeps : (run_contract (monthly_reserver ledger calls) database).0 ≡ ok tt
unfolding run_contract Postgres.reserve Postgres.reserve_with Postgres.reserve_body
    Postgres.load_budget_and_reclaim Postgres.admit Postgres.hold Postgres.commit Postgres.release
    Postgres.settle_body transaction find_budget expired_sum find_reservation delete_expired
    delete_reservation update_used to_string add64 sub64 wrap of_bits to_bits ◌+ℤ◌ ◌-ℤ◌
postgres_keeps = refl
