-- ===== src/Flow/Settings/Bounds.antt =====
-- What parsePostgresSettings accepts.
use cost.Prelude.{
  ◌≤◌, ◌≡◌, ap, ◌⊎◌, inl, inr, ℤ, pos, ◌≤ℤ◌, true, false, not, ◌||◌, if◌then◌else◌, Option, none,
  some, [], ◌∷◌, length, if-elim, arith,
}
use cost.Text.{Text, text_eqb, text_eqb_iff}
use cost.Text.Spaces.{trim_space}
use cost.Errors.{Result, ok, err, message, txt}
use cost.Errors.Checks.{◌>>=◌, ◌>>◌, check, OnOk, OnOk-bind, OnOk-check}
use cost.Currency.{Currency}
use cost.Flow.Estimate.{is_identifier}
use cost.Flow.Settings.{
  Config, Surroundings, PostgresSettings, contains_control, monthly, wallet, external, auto, second,
  initial_settings, with_default_mode, validate_monthly, validate_wallet,
  validate_postgres_accounting_settings, checked_ttl, with_connections, with_mode, checked_settings,
  parse_postgres_settings,
}

-- The two accounting modes
abbrev pub IsMonthly : PostgresSettings → Type 0
IsMonthly s =
    (s.accounting_mode ≡ monthly)
    × (text_eqb s.scope_prefix [] ≡ false)
    × (length s.scope_prefix ≤ 128)
    × (contains_control s.scope_prefix ≡ false)
    × (pos 0 ≤ℤ s.budget)

abbrev pub IsWallet : PostgresSettings → Type 0
IsWallet s =
    (s.accounting_mode ≡ wallet)
    × (s.schema_mode ≡ external)
    × (is_identifier s.user_field ≡ true)
    × (is_identifier s.wallet_field ≡ true)

abbrev pub IsNamed : PostgresSettings → Type 0
IsNamed s =
    (text_eqb s.dsn [] ≡ false)
    × ((s.schema_mode ≡ external) ⊎ (s.schema_mode ≡ auto))
    × (is_identifier s.tenant_field ≡ true)
    × (IsMonthly s ⊎ IsWallet s)

abbrev pub IsConnected : PostgresSettings → Type 0
IsConnected s =
    (second ≤ℤ s.reservation_ttl)
    × (pos 1 ≤ℤ s.max_open_conns)
    × (pos 0 ≤ℤ s.max_idle_conns)
    × (s.max_idle_conns ≤ℤ s.max_open_conns)

abbrev pub IsPostgresSettings : PostgresSettings → Type 0
IsPostgresSettings s = IsNamed s × IsConnected s

one_of : (a b c : Text) → (text_eqb a b || text_eqb a c) ≡ true → (a ≡ b) ⊎ (a ≡ c)
one_of a b c h = ground (arith, text_eqb_iff a b, text_eqb_iff a c)

validate_monthly-IsMonthly :
    (cfg : Config) (s : PostgresSettings)
    → s.accounting_mode ≡ monthly
    → OnOk (λ _. IsMonthly s) (validate_monthly cfg s)
validate_monthly-IsMonthly cfg s mode = ground (arith, mode)

validate_wallet-IsWallet :
    (s : PostgresSettings) → s.accounting_mode ≡ wallet → OnOk (λ _. IsWallet s) (validate_wallet s)
validate_wallet-IsWallet s mode = ground (arith, mode, text_eqb_iff s.schema_mode external)

with_connections-IsPostgresSettings :
    (s : PostgresSettings) (ttl : ℤ)
    → IsNamed s
    → second ≤ℤ ttl
    → OnOk IsPostgresSettings (with_connections s ttl)
with_connections-IsPostgresSettings s ttl named long = ground arith

checked_ttl-le : (cfg : Config) (o : Option ℤ) → OnOk (λ ttl. second ≤ℤ ttl) (checked_ttl cfg o)
checked_ttl-le cfg none = tt
checked_ttl-le cfg (some ttl) = ground arith

-- What validatePostgresAccountingSettings accepts, in a mode that is known
abbrev IsAccounted : PostgresSettings → Unit {0} → Type 0
IsAccounted s _ = (is_identifier s.tenant_field ≡ true) × (IsMonthly s ⊎ IsWallet s)

accounted :
    (s : PostgresSettings) {P : Type 0} (c : Result (Unit {0}))
    → is_identifier s.tenant_field ≡ true
    → (P → IsMonthly s ⊎ IsWallet s)
    → OnOk (λ _. P) c
    → OnOk (IsAccounted s) c
accounted s (ok _) tenant f h = (tenant, f h)
accounted s (err _) tenant f h = tt

in_mode-IsAccounted :
    (cfg : Config) (s : PostgresSettings)
    → (s.accounting_mode ≡ monthly) ⊎ (s.accounting_mode ≡ wallet)
    → is_identifier s.tenant_field ≡ true
    → OnOk
        (IsAccounted s)
        (if text_eqb s.accounting_mode monthly then validate_monthly cfg s else validate_wallet s)
in_mode-IsAccounted cfg s (inl is_monthly) tenant =
    rw ((text_eqb_iff s.accounting_mode monthly).1 is_monthly) (
      accounted s (validate_monthly cfg s) tenant inl (validate_monthly-IsMonthly cfg s is_monthly))
in_mode-IsAccounted cfg s (inr is_wallet) tenant =
    let other : text_eqb s.accounting_mode monthly ≡ false =
      ap (λ t. text_eqb t monthly) is_wallet in
    rw other (accounted s (validate_wallet s) tenant inr (validate_wallet-IsWallet s is_wallet))

validate-IsAccounted :
    (cfg : Config) (s : PostgresSettings)
    → (s.accounting_mode ≡ monthly) ⊎ (s.accounting_mode ≡ wallet)
    → OnOk (IsAccounted s) (validate_postgres_accounting_settings cfg s)
unfolding validate_postgres_accounting_settings
validate-IsAccounted cfg s mode =
    OnOk-check (IsAccounted s) (is_identifier s.tenant_field)
      (message "tenant_field %q must be a top-level identifier" (txt s.tenant_field ∷ []))
      (if text_eqb s.accounting_mode monthly then validate_monthly cfg s else validate_wallet s)
      (λ tenant. in_mode-IsAccounted cfg s mode tenant)

with_mode-IsPostgresSettings :
    (env : Surroundings) (cfg : Config) (s : PostgresSettings)
    → text_eqb s.dsn [] ≡ false
    → (s.schema_mode ≡ external) ⊎ (s.schema_mode ≡ auto)
    → OnOk IsPostgresSettings (with_mode env cfg s)
with_mode-IsPostgresSettings env cfg s source schema =
    OnOk-check IsPostgresSettings
      (text_eqb s.accounting_mode monthly || text_eqb s.accounting_mode wallet)
      (message "accounting_mode %q must be monthly or wallet" (txt cfg.accounting_mode ∷ []))
      (validate_postgres_accounting_settings cfg s >> read_ttl)
      (λ mode.
        OnOk-bind (IsAccounted s) IsPostgresSettings (validate_postgres_accounting_settings cfg s)
          (λ _. read_ttl)
          (validate-IsAccounted cfg s (one_of s.accounting_mode monthly wallet mode))
          (λ _ (tenant, accounting).
            OnOk-bind (λ ttl. second ≤ℤ ttl) IsPostgresSettings
              (checked_ttl cfg (env.parse_duration (trim_space cfg.reservation_ttl)))
              (with_connections s)
              (checked_ttl-le cfg (env.parse_duration (trim_space cfg.reservation_ttl)))
              (λ ttl long.
                with_connections-IsPostgresSettings s ttl (source, schema, tenant, accounting)
                  long)))
  where
    read_ttl : Result PostgresSettings
    read_ttl =
        checked_ttl cfg (env.parse_duration (trim_space cfg.reservation_ttl)) >>= with_connections s

default_mode-IsPostgresSettings :
    (env : Surroundings) (cfg : Config) (s : PostgresSettings)
    → text_eqb s.dsn [] ≡ false
    → (s.schema_mode ≡ external) ⊎ (s.schema_mode ≡ auto)
    → OnOk IsPostgresSettings (with_mode env cfg (with_default_mode s))
default_mode-IsPostgresSettings env cfg s source schema =
    if-elim (λ t. OnOk IsPostgresSettings (with_mode env cfg t)) (text_eqb s.accounting_mode [])
      (λ _.
        with_mode-IsPostgresSettings env cfg (record s { accounting_mode = monthly }) source schema)
      (λ _. with_mode-IsPostgresSettings env cfg s source schema)

checked_settings-IsPostgresSettings :
    (env : Surroundings) (cfg : Config) (s : PostgresSettings)
    → OnOk IsPostgresSettings (checked_settings env cfg s)
checked_settings-IsPostgresSettings env cfg s =
    OnOk-check IsPostgresSettings (not (text_eqb s.dsn []))
      (message
        "backend=postgres requires dsn; use an environment reference such as $COST_POSTGRES_DSN" [])
      known_schema
      (λ source.
        OnOk-check IsPostgresSettings
          (text_eqb s.schema_mode external || text_eqb s.schema_mode auto)
          (message "schema_mode %q must be external or auto" (txt cfg.schema_mode ∷ []))
          (with_mode env cfg (with_default_mode s))
          (λ schema.
            default_mode-IsPostgresSettings env cfg s (ground (arith, source))
              (one_of s.schema_mode external auto schema)))
  where
    known_schema : Result PostgresSettings
    known_schema =
        check (text_eqb s.schema_mode external || text_eqb s.schema_mode auto)
          (message "schema_mode %q must be external or auto" (txt cfg.schema_mode ∷ []))
        >> with_mode env cfg (with_default_mode s)

pub parse_postgres_settings-IsPostgresSettings :
    (env : Surroundings) (cfg : Config) (currency : Currency)
    → OnOk IsPostgresSettings (parse_postgres_settings env cfg currency)
unfolding parse_postgres_settings
parse_postgres_settings-IsPostgresSettings env cfg currency =
    checked_settings-IsPostgresSettings env cfg (initial_settings env cfg currency)
