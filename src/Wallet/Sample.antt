-- ===== src/Wallet/Sample.antt =====
-- A wallet with two reservations, and what calls on it meet.
use cost.Prelude.{refl, pos, ◌+ℤ◌, true, none, [], ◌∷◌, arith}
use cost.Text.{text}
use cost.Errors.{message, ok}
use cost.Currency.{usd}
use cost.Sql.{committed, commit_failed}
use cost.Postgres.Tables.{ReservationRow, held}
use cost.Wallet.Tables.{WalletRow, WalletEntry, credit, Database, find_wallet, total}
use cost.Wallet.Base.{WalletLedger, Environment}
use cost.Wallet.Accounts.{Accounted}

abbrev pub ledger : WalletLedger
ledger = record {
  connected = true;
  identity = record { tenant_id = text "t"; user_id = text "u"; wallet_id = text "w" };
  currency = usd;
  ttl = pos 300000000000;
  domain = text "llm";
  operation = text "chat";
}

abbrev pub wallet_row : WalletRow
wallet_row = record {
  wallet_id = text "w";
  tenant_id = text "t";
  user_id = text "u";
  currency = text "USD";
  balance_micros = pos 100;
  reserved_micros = pos 50;
  status = text "active";
}

-- "a" holds 30 until time 5, and "b" 20 until time 50.
abbrev pub hold_a : ReservationRow
hold_a = record { id = text "a"; scope = text "w"; amount_micros = pos 30; expires_at = 5 }

abbrev pub hold_b : ReservationRow
hold_b = record { id = text "b"; scope = text "w"; amount_micros = pos 20; expires_at = 50 }

abbrev pub top_up : WalletEntry
top_up = record {
  wallet_id = text "w";
  entry_type = credit;
  amount_micros = pos 100;
  idempotency_key = text "top-up";
  domain = [];
  operation = [];
}

abbrev pub database : Database
database = record {
  tenants = record { tenant_id = text "t"; status = text "active" } ∷ [];
  users = record { tenant_id = text "t"; user_id = text "u"; status = text "active" } ∷ [];
  wallets = wallet_row ∷ [];
  reservations = hold_a ∷ hold_b ∷ [];
  entries = top_up ∷ [];
  usage_events = [];
}

-- At time 9 everything answers.
abbrev pub calm : Environment
calm = record {
  now = 9;
  new_id = ok (text "c");
  faults = record { begin_error = none; statement_error = λ _. none; commit_outcome = committed };
}

-- The commit of the transaction reports an error, and has been applied.
abbrev pub torn : Environment
torn = record calm {
  faults = record {
    begin_error = none;
    statement_error = λ _. none;
    commit_outcome = commit_failed (message "connection lost" []) true;
  };
}

unfoldable pub account : Accounted (text "w") (pos 0) database
unfolding find_wallet held total ◌+ℤ◌
account = record {
  row = wallet_row;
  found = refl;
  exact = refl;
  amounts = omega arith;
  covered = omega arith;
  small = omega arith;
  paid = refl;
}
