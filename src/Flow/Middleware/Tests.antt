-- ===== src/Flow/Middleware/Tests.antt =====
-- Tests of the PostgreSQL middleware.
use cost.Prelude.{pos, false, none, some, [], ◌∷◌}
use cost.Text.{text}
use cost.Errors.{background, ok}
use cost.Currency.{usd}
use cost.Sql.{committed}
use cost.Postgres
use cost.Wallet.Tables.{Database}
use cost.Wallet.Base.{WalletIdentity, WalletReservation}
use cost.Wallet.Sample.{database, calm, wallet_row, hold_b}
use cost.Flow.Value.{Value, text_map}
use cost.Flow.Estimate.{EstimateSpec}
use cost.Flow.Settings.{PostgresSettings}
use cost.Flow.Accounts.{Accounts}
use cost.Flow.Middleware.{action_returned}
use cost.Flow.Middleware.Postgres.{Request}

abbrev settings : PostgresSettings
settings = record {
  dsn = text "postgres://db";
  budget = pos 500;
  currency = usd;
  schema_mode = text "external";
  accounting_mode = text "wallet";
  scope_prefix = text "support-quota";
  tenant_field = text "customer_id";
  user_field = text "user_id";
  wallet_field = text "wallet_id";
  reservation_ttl = pos 300000000000;
  max_open_conns = pos 3;
  max_idle_conns = pos 3;
}

abbrev input : Value
input = text_map (
    (text "customer_id", text "t")
    ∷ (text "user_id", text "u")
    ∷ (text "wallet_id", text " w")
    ∷ [])

abbrev quiet : Postgres.Environment
quiet = record {
  now = 9;
  new_id = ok (text "c");
  faults = record { begin_error = none; statement_error = λ _. none; commit_outcome = committed };
}

abbrev request : Request
request = record {
  ctx = background;
  name = text "llm.chat";
  input = input;
  action = action_returned input (some (pos 25));
  now = 7;
  lookup = record {
    hex_digest = λ t. t;
    month = text "2026-11";
    upserting = committed;
    affected_error = none;
    select_error = none;
    schema = quiet;
    created = none;
  };
  month_calls = record {
    reserving = quiet;
    committing = quiet;
    releasing = quiet;
    recording = committed;
  };
  wallet_calls = record {
    reserving = calm;
    committing = calm;
    releasing = calm;
    recording = committed;
  };
}

abbrev accounts : Accounts
accounts = record {
  quotas = record { budgets = []; reservations = []; entries = [] };
  wallets = database;
}

abbrev fixed_30 : EstimateSpec
fixed_30 = record { literal = pos 30; path = [] }

abbrev identity : WalletIdentity
identity = record { tenant_id = text "t"; user_id = text "u"; wallet_id = text "w" }

abbrev lease_c : WalletReservation
lease_c = record { id = text "c"; done = false }

-- The reservations that had expired are gone, and "c" holds 30.
abbrev reserved_30 : Database
reserved_30 = record database {
  wallets = record wallet_row { reserved_micros = pos 50 } ∷ [];
  reservations =
      record { id = text "c"; scope = text "w"; amount_micros = pos 30; expires_at = 300000009 }
      ∷ hold_b
      ∷ [];
}
