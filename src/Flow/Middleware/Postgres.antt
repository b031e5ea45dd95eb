-- ===== src/Flow/Middleware/Postgres.antt =====
-- nexssflow/postgres.go: the middleware on a monthly budget or a wallet in PostgreSQL.
use cost.Prelude.{ℕ, ℤ, Option, none, some, [], ◌∷◌}
use cost.Text.{Text, text}
use cost.Errors.{Context, txt, Result, ok, err}
use cost.Sql.{CommitOutcome}
use cost.Postgres
use cost.Wallet
use cost.Wallet.Base.{WalletLedger, WalletReservation}
use cost.Wallet.Reserve.{reserve}
use cost.Wallet.Settle.{commit, release}
use cost.Wallet.Record.{record_event}
use cost.Flow.Value.{Value, nil_value}
use cost.Flow.Estimate.{EstimateSpec, resolve}
use cost.Flow.Reserver.{Reserver}
use cost.Flow.Settings.{PostgresSettings}
use cost.Flow.Accounts.{Lookup, Accounts, AccountLedger, of_month, of_wallet, ledger_for_input}
use cost.Flow.Middleware.{ActionEnd, Reply, replied, Style, guarded_action}

-- What the calls of a ledger meet in one run of the middleware.
pub record Calls (Env : Type 0) : Type 0 where
  pub reserving : Env
  pub committing : Env
  pub releasing : Env
  pub recording : CommitOutcome

abbrev pub monthly_reserver :
    Postgres.Ledger
    → Calls Postgres.Environment
    → Reserver Postgres.Tables.Database Postgres.Reservation
monthly_reserver l calls = record {
  reserve = λ ctx estimate t. Postgres.reserve ctx l calls.reserving estimate t;
  commit = λ ctx actual r t. Postgres.commit ctx l calls.committing actual r t;
  release = λ ctx r t. Postgres.release ctx l calls.releasing r t;
  record_event = λ ctx now event t. Postgres.record_event ctx l calls.recording event t;
}

abbrev pub wallet_reserver :
    WalletLedger → Calls Wallet.Base.Environment → Reserver Wallet.Tables.Database WalletReservation
wallet_reserver l calls = record {
  reserve = λ ctx estimate t. reserve ctx l calls.reserving estimate t;
  commit = λ ctx actual r t. commit ctx l calls.committing actual r t;
  release = λ ctx r t. release ctx l calls.releasing r t;
  record_event = λ ctx now event t. record_event ctx l calls.recording event t;
}

-- The texts of the middleware in an accounting mode
abbrev pub postgres_style : PostgresSettings → (denied : Text) → (in_commit : Option Text) → Style
postgres_style s denied in_commit = record {
  reserve_format = "cost: reserve %s for account: %w";
  release_format = "cost: release %s reservation: %w";
  settle_format = "cost: settle %s reservation: %w";
  record_format = "cost: record durable usage: %w";
  operands = txt s.accounting_mode ∷ [];
  denied = denied;
  done = text "reserved";
  in_commit = in_commit;
  currency = s.currency;
}

abbrev pub wallet_style : PostgresSettings → Style
wallet_style s = postgres_style s (text "wallet_insufficient_funds") (some (text "wallet_charged"))

-- The run of a request: its context, action and input, how the action ends, the time of the event,
-- and what the calls meet.
pub record Request : Type 0 where
  pub ctx : Context
  pub name : Text
  pub input : Value
  pub action : ActionEnd
  pub now : ℕ
  pub lookup : Lookup
  pub month_calls : Calls Postgres.Environment
  pub wallet_calls : Calls Wallet.Base.Environment

abbrev pub with_quotas : Accounts → Reply × Postgres.Tables.Database → Reply × Accounts
with_quotas t (reply, quotas) = (reply, record t { quotas = quotas })

abbrev pub with_wallets : Accounts → Reply × Wallet.Tables.Database → Reply × Accounts
with_wallets t (reply, wallets) = (reply, record t { wallets = wallets })

-- The middleware on the ledger that it has found
abbrev pub on_account :
    PostgresSettings → Request → (estimate : ℤ) → Result AccountLedger × Accounts → Reply × Accounts
on_account s r estimate (err e, t) = (replied nil_value (e ∷ []), t)
on_account s r estimate (ok (of_month l), t) = with_quotas t (
    guarded_action (monthly_reserver l r.month_calls)
      (postgres_style s (text "monthly_quota_exceeded") none) r.ctx r.now r.name r.input estimate
      r.action t.quotas)
on_account s r estimate (ok (of_wallet l), t) = with_wallets t (
    guarded_action (wallet_reserver l r.wallet_calls) (wallet_style s) r.ctx r.now r.name r.input
      estimate r.action t.wallets)

-- The middleware after the resolution of the estimate
abbrev pub on_estimate : PostgresSettings → Request → Result ℤ → Accounts → Reply × Accounts
on_estimate s r (err e) t = (replied nil_value (e ∷ []), t)
on_estimate s r (ok estimate) t =
    on_account s r estimate (ledger_for_input s r.lookup r.ctx r.name r.input t)

-- (*postgresStore).quotaMiddleware
unfoldable pub postgres_middleware :
    PostgresSettings → EstimateSpec → Request → Accounts → Reply × Accounts
postgres_middleware s spec r t = on_estimate s r (resolve spec r.input) t
