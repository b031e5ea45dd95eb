-- ===== src/Flow/Settings.antt =====
-- nexssflow/postgres.go: parsePostgresSettings.
pub mod Bounds
use cost.Prelude.{
  ℕ, ◌+◌, ℤ, pos, ltb_ℤ, leb, ltb, ◌==◌, Bool, true, false, not, ◌&&◌, ◌||◌, if◌then◌else◌, Option,
  none, some, List, [], ◌∷◌, length,
}
use cost.Text.{Text, text, text_eqb}
use cost.Text.Spaces.{trim_space}
use cost.Errors.{Error, message, txt, Result, ok, err}
use cost.Errors.Checks.{◌>>=◌, ◌>>◌, check}
use cost.Currency.{Currency}
use cost.Flow.Estimate.{is_identifier}

-- type Config
pub record Config : Type 0 where
  pub backend : Text
  pub budget : ℤ
  pub currency : Text
  pub dsn : Text
  pub schema_mode : Text
  pub accounting_mode : Text
  pub scope_prefix : Text
  pub tenant_field : Text
  pub user_field : Text
  pub wallet_field : Text
  pub reservation_ttl : Text
  pub max_open_conns : ℤ
  pub max_idle_conns : ℤ
  pub storage_path : Text
  pub storage_namespace : Text

-- What the settings take from their surroundings: os.ExpandEnv, and the nanoseconds that
-- time.ParseDuration reads.
pub record Surroundings : Type 0 where
  pub expand_env : Text → Text
  pub parse_duration : Text → Option ℤ

-- type postgresSettings
pub record PostgresSettings : Type 0 where
  pub dsn : Text
  pub budget : ℤ
  pub currency : Currency
  pub schema_mode : Text
  pub accounting_mode : Text
  pub scope_prefix : Text
  pub tenant_field : Text
  pub user_field : Text
  pub wallet_field : Text
  pub reservation_ttl : ℤ
  pub max_open_conns : ℤ
  pub max_idle_conns : ℤ

-- strings.ToLower, of the ASCII letters. The words that the code compares the result with have no
-- letter that is the lower case of a character beyond ASCII.
abbrev pub lower : ℕ → ℕ
lower c = if leb 65 c && leb c 90 then c + 32 else c

unfoldable pub to_lower : Text → Text
to_lower [] = []
to_lower (c ∷ cs) = lower c ∷ to_lower cs

-- strings.ContainsAny(s, "\x00\r\n")
unfoldable pub contains_control : Text → Bool
contains_control [] = false
contains_control (c ∷ cs) = (c == 0 || (c == 13 || c == 10)) || contains_control cs

-- accountingModeMonthly, accountingModeWallet, and the schema modes
abbrev pub monthly : Text
monthly = text "monthly"

abbrev pub wallet : Text
wallet = text "wallet"

abbrev pub external : Text
external = text "external"

abbrev pub auto : Text
auto = text "auto"

-- time.Second
abbrev pub second : ℤ
second = pos 1000000000

-- postgresSettings{...}
abbrev pub initial_settings : Surroundings → Config → Currency → PostgresSettings
initial_settings env cfg currency = record {
  dsn = trim_space (env.expand_env cfg.dsn);
  budget = cfg.budget;
  currency = currency;
  schema_mode = to_lower (trim_space cfg.schema_mode);
  accounting_mode = to_lower (trim_space cfg.accounting_mode);
  scope_prefix = trim_space cfg.scope_prefix;
  tenant_field = cfg.tenant_field;
  user_field = cfg.user_field;
  wallet_field = cfg.wallet_field;
  reservation_ttl = pos 0;
  max_open_conns = cfg.max_open_conns;
  max_idle_conns = cfg.max_idle_conns;
}

-- An empty accounting mode is the monthly one.
abbrev pub with_default_mode : PostgresSettings → PostgresSettings
with_default_mode s =
    if text_eqb s.accounting_mode [] then record s { accounting_mode = monthly } else s

-- The monthly branch of validatePostgresAccountingSettings
abbrev pub validate_monthly : Config → PostgresSettings → Result (Unit {0})
validate_monthly cfg s = do
  check
      (not (
        text_eqb s.scope_prefix []
        || (ltb 128 (length s.scope_prefix) || contains_control s.scope_prefix)))
      (message "scope_prefix must be a non-empty string of at most 128 characters" [])
  check (not (ltb_ℤ s.budget (pos 0))) (
      message
        "a PostgreSQL monthly budget must be non-negative; unlimited budgets are unsupported for durable quota (accounting_mode=%q)"
        (txt cfg.accounting_mode ∷ []))

abbrev pub validate_wallet : PostgresSettings → Result (Unit {0})
validate_wallet s = do
  check (text_eqb s.schema_mode external) (
      message
        "accounting_mode=wallet requires schema_mode=external; provision wallet tables through migrations"
        [])
  check (is_identifier s.user_field)
      (message "user_field %q must be a top-level identifier" (txt s.user_field ∷ []))
  check (is_identifier s.wallet_field)
      (message "wallet_field %q must be a top-level identifier" (txt s.wallet_field ∷ []))

-- validatePostgresAccountingSettings
unfoldable pub validate_postgres_accounting_settings : Config → PostgresSettings → Result (Unit {0})
validate_postgres_accounting_settings cfg s = do
  check (is_identifier s.tenant_field)
      (message "tenant_field %q must be a top-level identifier" (txt s.tenant_field ∷ []))
  if text_eqb s.accounting_mode monthly then validate_monthly cfg s else validate_wallet s

-- The reservation_ttl of a configuration
abbrev pub checked_ttl : Config → Option ℤ → Result ℤ
checked_ttl cfg none =
    err (message "reservation_ttl must be at least 1s: %q" (txt cfg.reservation_ttl ∷ []))
checked_ttl cfg (some ttl) =
    if ltb_ℤ ttl second
    then err (message "reservation_ttl must be at least 1s: %q" (txt cfg.reservation_ttl ∷ []))
    else ok ttl

-- parsePostgresSettings from the TTL on
abbrev pub with_connections : PostgresSettings → (ttl : ℤ) → Result PostgresSettings
with_connections s ttl = do
  check (not (ltb_ℤ s.max_open_conns (pos 1))) (message "max_open_conns must be at least 1" [])
  check (not (ltb_ℤ s.max_idle_conns (pos 0))) (message "max_idle_conns must not be negative" [])
  ok (record s {
    reservation_ttl = ttl;
    max_idle_conns =
        if ltb_ℤ s.max_open_conns s.max_idle_conns then s.max_open_conns else s.max_idle_conns;
  })

-- parsePostgresSettings from the accounting mode on
abbrev pub with_mode : Surroundings → Config → PostgresSettings → Result PostgresSettings
with_mode env cfg s = do
  check (text_eqb s.accounting_mode monthly || text_eqb s.accounting_mode wallet)
      (message "accounting_mode %q must be monthly or wallet" (txt cfg.accounting_mode ∷ []))
  validate_postgres_accounting_settings cfg s
  ttl ← checked_ttl cfg (env.parse_duration (trim_space cfg.reservation_ttl))
  with_connections s ttl

abbrev pub checked_settings : Surroundings → Config → PostgresSettings → Result PostgresSettings
checked_settings env cfg s = do
  check (not (text_eqb s.dsn [])) (
      message
        "backend=postgres requires dsn; use an environment reference such as $COST_POSTGRES_DSN" [])
  check (text_eqb s.schema_mode external || text_eqb s.schema_mode auto)
      (message "schema_mode %q must be external or auto" (txt cfg.schema_mode ∷ []))
  with_mode env cfg (with_default_mode s)

-- parsePostgresSettings
unfoldable pub parse_postgres_settings : Surroundings → Config → Currency → Result PostgresSettings
unfolding to_lower validate_postgres_accounting_settings
parse_postgres_settings env cfg currency =
    checked_settings env cfg (initial_settings env cfg currency)
