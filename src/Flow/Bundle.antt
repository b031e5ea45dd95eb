-- ===== src/Flow/Bundle.antt =====
-- nexssflow/library.go: the options of the bundle, and the backend that they choose.
pub mod Checks
mod Tests
use cost.Prelude.{
  ℕ, ◌+◌, ◌-◌, ltb, leb, ◌==◌, ◌&&◌, ◌||◌, not, Bool, true, false, if◌then◌else◌, Option, none,
  some, List, [], ◌∷◌, length,
}
use Prim.Native.String.{String}
use cost.Text.{Text, text, text_eqb}
use cost.Text.Spaces.{trim_space}
use cost.Errors.{Error, message, errorf, txt, Result, ok, err}
use cost.Errors.Checks.{◌>>=◌, ◌>>◌, check, require}
use cost.Currency.{Currency, empty_currency, unmarshal_text}
use cost.Ledger.{Ledger, new_ledger}
use cost.Flow.Value.{find_text}
use cost.Flow.Settings.{
  Config, Surroundings, PostgresSettings, to_lower, contains_control, wallet,
  parse_postgres_settings,
}

-- A map[string]string
abbrev pub Options : Type 0
Options = List (Text × Text)

-- postgresOnlyOptions
abbrev pub postgres_only_options : List Text
postgres_only_options =
    text "dsn"
    ∷ text "schema_mode"
    ∷ text "accounting_mode"
    ∷ text "scope_prefix"
    ∷ text "tenant_field"
    ∷ text "user_field"
    ∷ text "wallet_field"
    ∷ text "reservation_ttl"
    ∷ text "max_open_conns"
    ∷ text "max_idle_conns"
    ∷ []

-- storageOnlyOptions
abbrev pub storage_only_options : List Text
storage_only_options = text "storage_path" ∷ text "storage_namespace" ∷ []

-- What the bundle calls of other packages: compiler.Decode; sql.Open and the ping of the
-- connection; and storage: the registration of its backend, Open, and AssertAtomicKV.
pub record Packages : Type 0 where
  pub decode : Options → Result Config
  pub surroundings : Surroundings
  pub open_database : (dsn : Text) → Option Error
  pub ping : (dsn : Text) → Option Error
  pub register_backend : Option Error
  pub open_storage : (path namespace : Text) → Option Error
  pub assert_atomic : (path namespace : Text) → Option Error

-- The options of the storage that newStorageQuotaStore opens
pub record StorageSettings : Type 0 where
  pub path : Text
  pub namespace : Text

-- A compiler.Bundle, as the ledger or the store that its actions and modifiers use
pub data Bundle : Type 0 where
  ledger_bundle : Ledger → Bundle
  postgres_bundle : PostgresSettings → Bundle
  storage_bundle : StorageSettings → Bundle

-- strings.ToUpper. The two characters beyond ASCII with an upper case in ASCII are U+0131 and U+017F,
-- 196 177 and 197 191 in UTF-8; others stay as they are here, and no currency has them.
abbrev pub upper : ℕ → ℕ
upper c = if leb 97 c && leb c 122 then c - 32 else c

unfoldable pub to_upper : Text → Text
to_upper [] = []
to_upper (a ∷ []) = upper a ∷ []
to_upper (a ∷ b ∷ cs) =
    let rest = to_upper (b ∷ cs) in
    let after_two = to_upper cs in
    if a == 196 && b == 177
    then 73 ∷ after_two
    else if a == 197 && b == 191
    then 83 ∷ after_two
    else upper a ∷ rest

-- parseCurrency. Here and below an error stands for the panic with its text after "cost: ".
unfoldable pub parse_currency : Text → Result Currency
unfolding to_upper
parse_currency code = unmarshal_text (some empty_currency) (to_upper (trim_space code))

-- A round of the loop of rejectOptionsForBackend
abbrev pub rejected : (key backend : Text) → Option Text → Result (Unit {0}) → Result (Unit {0})
rejected key backend (some _) rest =
    err (message "option %q requires backend=%s" (txt key ∷ txt backend ∷ []))
rejected key backend none rest = rest

-- rejectOptionsForBackend
unfoldable pub reject_options_for_backend :
    Options → (keys : List Text) → (backend : Text) → Result (Unit {0})
reject_options_for_backend opts [] backend = ok tt
reject_options_for_backend opts (key ∷ keys) backend =
    rejected key backend (find_text key opts) (reject_options_for_backend opts keys backend)

-- `if _, ok := opts[key]; ok { panic(reason) }`
abbrev pub without_option : Options → (key : Text) → (reason : Error) → Result (Unit {0})
without_option opts key reason = elim (find_text key opts) [ some _ ↦ err reason | none ↦ ok tt ]

-- `if err := …; err != nil { return fmt.Errorf(format, err) }`
abbrev pub attempted : (format : String) → Option Error → Result (Unit {0})
attempted format none = ok tt
attempted format (some e) = err (errorf format [] e)

-- NewBundle; none is a nil ledger.
unfoldable pub new_bundle : Option Ledger → Result Bundle
new_bundle none = err (message "nil ledger" [])
new_bundle (some l) = ok (ledger_bundle l)

-- memoryBundle
unfoldable pub memory_bundle : Options → Config → Currency → Result Bundle
unfolding new_bundle
memory_bundle opts cfg currency = do
  reject_options_for_backend opts postgres_only_options (text "postgres")
  reject_options_for_backend opts storage_only_options (text "storage")
  new_bundle (some (new_ledger cfg.budget currency))

-- newPostgresStore
unfoldable pub new_postgres_store : Packages → Config → Currency → Result PostgresSettings
new_postgres_store packages cfg currency = do
  settings ← parse_postgres_settings packages.surroundings cfg currency
  attempted "open PostgreSQL connection: %w" (packages.open_database settings.dsn)
  attempted "connect to PostgreSQL: %w" (packages.ping settings.dsn)
  ok settings

-- The budget option of configuredPostgresBundle
abbrev pub reject_wallet_budget : Options → Config → Result (Unit {0})
reject_wallet_budget opts cfg =
    if text_eqb (to_lower (trim_space cfg.accounting_mode)) wallet
    then without_option opts (text "budget") (
        message
          "budget is not accepted with accounting_mode=wallet; provision wallet balances in PostgreSQL"
          [])
    else ok tt

-- configuredPostgresBundle
unfoldable pub configured_postgres_bundle : Packages → Options → Config → Currency → Result Bundle
unfolding new_postgres_store to_lower
configured_postgres_bundle packages opts cfg currency = do
  reject_options_for_backend opts storage_only_options (text "storage")
  reject_wallet_budget opts cfg
  settings ← new_postgres_store packages cfg currency
  ok (postgres_bundle settings)

-- newStorageQuotaStore after the options
abbrev pub opened_storage : Packages → StorageSettings → Result StorageSettings
opened_storage packages s = do
  check (not (text_eqb s.path [])) (message "backend=storage requires storage_path" [])
  check
      (not
        (text_eqb s.namespace [] || (ltb 128 (length s.namespace) || contains_control s.namespace)))
      (message "storage_namespace must be a non-empty string of at most 128 characters" [])
  attempted "register SQLite storage backend: %w" packages.register_backend
  attempted "open runtime budget storage: %w" (packages.open_storage s.path s.namespace)
  attempted "runtime budget storage needs atomic KV support: %w"
      (packages.assert_atomic s.path s.namespace)
  ok s

abbrev pub storage_settings : Packages → Config → StorageSettings
storage_settings packages cfg = record {
  path = trim_space (packages.surroundings.expand_env cfg.storage_path);
  namespace = trim_space cfg.storage_namespace;
}

-- newStorageQuotaStore
unfoldable pub new_storage_quota_store : Packages → Config → Result StorageSettings
new_storage_quota_store packages cfg = opened_storage packages (storage_settings packages cfg)

-- configuredStorageBundle
unfoldable pub configured_storage_bundle : Packages → Options → Config → Result Bundle
unfolding new_storage_quota_store
configured_storage_bundle packages opts cfg = do
  without_option opts (text "budget")
      (message "budget is stored per tenant in Storage; do not set budget in @require" [])
  reject_options_for_backend opts postgres_only_options (text "postgres")
  settings ← new_storage_quota_store packages cfg
  ok (storage_bundle settings)

-- The switch of Bundle
unfoldable pub for_backend : Packages → Options → Config → Currency → Result Bundle
unfolding memory_bundle configured_postgres_bundle configured_storage_bundle
for_backend packages opts cfg currency =
    let backend = to_lower (trim_space cfg.backend) in
    if text_eqb backend (text "memory")
    then memory_bundle opts cfg currency
    else if text_eqb backend (text "postgres")
    then configured_postgres_bundle packages opts cfg currency
    else if text_eqb backend (text "storage")
    then configured_storage_bundle packages opts cfg
    else err (
        message "unsupported backend %q (want memory, postgres, or storage)" (txt cfg.backend ∷ []))

-- Bundle
unfoldable pub bundle : Packages → Options → Result Bundle
unfolding for_backend parse_currency
bundle packages opts = do
  cfg ← packages.decode opts
  currency ← parse_currency cfg.currency
  for_backend packages opts cfg currency
