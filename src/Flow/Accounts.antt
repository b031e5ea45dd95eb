-- ===== src/Flow/Accounts.antt =====
-- nexssflow/postgres.go: the ledger that an input names, a monthly budget or a wallet.
use cost.Prelude.{ℤ, Bool, true, false, if◌then◌else◌, Option, none, some, [], ◌∷◌, ◌++◌}
use cost.Text.{Text, text_eqb}
use cost.Text.Spaces.{trim_space}
use cost.Errors.{Context, nil_context, context, Error, message, errorf, txt, Result, ok, err}
use cost.Errors.Checks.{◌>>=◌}
use cost.Currency.{Currency, to_string}
use cost.Sql.{CommitOutcome, committed, commit_failed}
use cost.Postgres.Tables.{find_budget, upsert_budget}
use cost.Postgres
use cost.Wallet
use cost.Wallet.Base.{WalletIdentity, WalletLedger}
use cost.Flow.Value.{Value, string_value, any_map, text_map, find_entry, find_text, as_string}
use cost.Flow.Reserver.{action_domain_operation}
use cost.Flow.Settings.{PostgresSettings, wallet, auto}

-- stringField from the lookup on
abbrev pub non_empty_string : (field : Text) → Option Value → Result Text
non_empty_string field none =
    err (message "durable accounting input is missing identity field %q" (txt field ∷ []))
non_empty_string field (some (string_value s)) =
    if text_eqb (trim_space s) []
    then err
        (message "durable accounting identity field %q must be a non-empty string" (txt field ∷ []))
    else ok (trim_space s)
non_empty_string field (some _) =
    err (message "durable accounting identity field %q must be a non-empty string" (txt field ∷ []))

-- stringField
unfoldable pub string_field : Value → (field : Text) → Result Text
string_field (any_map object) field = non_empty_string field (find_entry field object)
string_field (text_map object) field = non_empty_string field (as_string (find_text field object))
string_field _ field = err (
    message "durable accounting requires an object input with string field %q, got %T"
      (txt field ∷ []))

-- `fmt.Errorf("cost: %w", err)`
abbrev pub in_cost : Result Text → Result Text
in_cost (ok s) = ok s
in_cost (err e) = err (errorf "cost: %w" [] e)

-- tenantValue
unfoldable pub tenant_value : Value → (field : Text) → Result Text
tenant_value input field = in_cost (string_field input field)

-- walletIdentityFromInput
unfoldable pub wallet_identity_from_input :
    Value → (tenant_field user_field wallet_field : Text) → Result WalletIdentity
wallet_identity_from_input input tenant_field user_field wallet_field = do
  tenant_id ← in_cost (string_field input tenant_field)
  user_id ← in_cost (string_field input user_field)
  wallet_id ← in_cost (string_field input wallet_field)
  ok (record { tenant_id = tenant_id; user_id = user_id; wallet_id = wallet_id })

-- What the lookup of a monthly ledger meets: the hexadecimal SHA-256 digest of a text, the month of
-- the call as in 2006-01, and how its statements end.
pub record Lookup : Type 0 where
  pub hex_digest : Text → Text
  pub month : Text
  pub upserting : CommitOutcome
  pub affected_error : Option Error
  pub select_error : Option Error
  pub schema : Postgres.Environment
  pub created : Option Error

-- monthlyScope
unfoldable pub monthly_scope :
    (hex_digest : Text → Text) → (prefix tenant month : Text) → Result Text
monthly_scope hex_digest prefix tenant month =
    if text_eqb (trim_space tenant) []
    then err (message "cost: tenant identifier is required for durable quota" [])
    else ok (prefix ++ 58 ∷ (hex_digest (trim_space tenant) ++ 58 ∷ month))

-- The INSERT … ON CONFLICT … WHERE of ensureBudgetRow: does it affect a row, and the tables after it.
abbrev pub upsert_row :
    (scope : Text)
    → (limit : ℤ) → (currency : Text) → Postgres.Tables.Database
    → Bool × Postgres.Tables.Database
upsert_row scope limit currency t =
    let written = record t { budgets = upsert_budget scope limit currency t.budgets } in
    elim (find_budget scope t.budgets) [
      | none ↦ (true, written)
      | some row ↦ if text_eqb row.currency currency then (true, written) else (false, t)
    ]

-- The SELECT of ensureBudgetRow where no row was affected
abbrev pub mismatch :
    (scope : Text) → Currency → Option Error → Option Postgres.Tables.BudgetRow → Error
mismatch scope currency (some e) row = e
mismatch scope currency none none = message "sql: no rows in result set" []
mismatch scope currency none (some row) =
    message "currency mismatch for scope %s: database has %s, config has %s"
      (txt scope ∷ txt row.currency ∷ txt (to_string currency) ∷ [])

-- What follows the upsert.
abbrev pub affected :
    PostgresSettings
    → Lookup
    → (scope : Text) → Option Error
    → Bool × Postgres.Tables.Database
    → Result (Unit {0}) × Postgres.Tables.Database
affected s lookup scope (some e) (_, t) = (err e, t)
affected s lookup scope none (true, t) = (ok tt, t)
affected s lookup scope none (false, t) =
    (err (mismatch scope s.currency lookup.select_error (find_budget scope t.budgets)), t)

-- The upsert as it ends.
abbrev pub upserted :
    PostgresSettings
    → Lookup
    → (scope : Text) → CommitOutcome
    → Postgres.Tables.Database
    → Bool × Postgres.Tables.Database
    → Result (Unit {0}) × Postgres.Tables.Database
upserted s lookup scope committed t written = affected s lookup scope lookup.affected_error written
upserted s lookup scope (commit_failed e applied) t written =
    (err e, if applied then written.1 else t)

-- ensureBudgetRow
unfoldable pub ensure_budget_row :
    PostgresSettings
    → Lookup
    → (scope : Text) → Postgres.Tables.Database
    → Result (Unit {0}) × Postgres.Tables.Database
ensure_budget_row s lookup scope t =
    upserted s lookup scope lookup.upserting t (upsert_row scope s.budget (to_string s.currency) t)

-- postgres.New(postgres.Config{...})
abbrev pub monthly_ledger : PostgresSettings → (scope : Text) → Postgres.Ledger
monthly_ledger s scope = Postgres.new (record {
  connected = true;
  scope = scope;
  limit_micros = s.budget;
  currency = s.currency;
  ttl = s.reservation_ttl;
})

abbrev pub is_nil : Context → Bool
is_nil nil_context = true
is_nil (context _) = false

abbrev pub initialized :
    Postgres.Ledger
    → Result (Unit {0}) × Postgres.Tables.Database
    → Result Postgres.Ledger × Postgres.Tables.Database
initialized l (ok _, t) = (ok l, t)
initialized l (err e, t) = (err (errorf "initialize PostgreSQL monthly quota: %w" [] e), t)

abbrev pub in_scope :
    PostgresSettings
    → Lookup
    → Context
    → Result Text
    → Postgres.Tables.Database
    → Result Postgres.Ledger × Postgres.Tables.Database
in_scope s lookup ctx (err e) t = (err e, t)
in_scope s lookup ctx (ok scope) t =
    let l = monthly_ledger s scope in
    if text_eqb s.schema_mode auto
    then initialized l (Postgres.ensure_schema (is_nil ctx) l lookup.schema lookup.created t)
    else initialized l (ensure_budget_row s lookup scope t)

-- ledgerForTenant
unfoldable pub ledger_for_tenant :
    PostgresSettings
    → Lookup
    → Context
    → (tenant : Text) → Postgres.Tables.Database
    → Result Postgres.Ledger × Postgres.Tables.Database
unfolding ensure_budget_row monthly_scope
ledger_for_tenant s lookup ctx tenant t =
    in_scope s lookup ctx (monthly_scope lookup.hex_digest s.scope_prefix tenant lookup.month) t

-- &walletLedger{...}
abbrev pub wallet_ledger : PostgresSettings → (name : Text) → WalletIdentity → WalletLedger
wallet_ledger s name identity =
    let (domain, operation) = action_domain_operation name in
    record {
      connected = true;
      identity = identity;
      currency = s.currency;
      ttl = s.reservation_ttl;
      domain = domain;
      operation = operation;
    }

-- The tables of the two accounting modes, which are apart
pub record Accounts : Type 0 where
  pub quotas : Postgres.Tables.Database
  pub wallets : Wallet.Tables.Database

-- The ledgers of ledgerForInput
pub data AccountLedger : Type 0 where
  of_month : Postgres.Ledger → AccountLedger
  of_wallet : WalletLedger → AccountLedger

abbrev pub found_month :
    Wallet.Tables.Database
    → Result Postgres.Ledger × Postgres.Tables.Database
    → Result AccountLedger × Accounts
found_month wallets (ok l, t) = (ok (of_month l), record { quotas = t; wallets = wallets })
found_month wallets (err e, t) = (err e, record { quotas = t; wallets = wallets })

abbrev pub for_tenant :
    PostgresSettings → Lookup → Context → Result Text → Accounts → Result AccountLedger × Accounts
for_tenant s lookup ctx (err e) t = (err e, t)
for_tenant s lookup ctx (ok tenant) t =
    found_month t.wallets (ledger_for_tenant s lookup ctx tenant t.quotas)

abbrev pub for_identity :
    PostgresSettings → (name : Text) → Result WalletIdentity → Result AccountLedger
for_identity s name (err e) = err e
for_identity s name (ok identity) = ok (of_wallet (wallet_ledger s name identity))

-- ledgerForInput. The factories are nil in a store that newPostgresStore has made.
unfoldable pub ledger_for_input :
    PostgresSettings
    → Lookup
    → Context
    → (name : Text) → Value
    → Accounts
    → Result AccountLedger × Accounts
unfolding tenant_value wallet_identity_from_input ledger_for_tenant
ledger_for_input s lookup ctx name input t =
    if text_eqb s.accounting_mode wallet
    then (
      for_identity s name
          (wallet_identity_from_input input s.tenant_field s.user_field s.wallet_field),
      t,
    )
    else for_tenant s lookup ctx (tenant_value input s.tenant_field) t
