-- ===== src/Flow/Bundle/Checks.antt =====
-- What the options of the bundle lead to.
use cost.Prelude.{
  ◌≤◌, ◌≡◌, refl, ◌⊎◌, false, Option, none, some, List, [], ◌∷◌, length, if-elim, arith,
}
use cost.Text.{Text, text, text_eqb, text_eqb_iff}
use cost.Text.Spaces.{trim_space}
use cost.Errors.{Error, Result, ok, err, message}
use cost.Errors.Checks.{◌>>=◌, ◌>>◌, OnOk, bind-ok_inv, OnOk-elim, OnOk-bind}
use cost.Currency.{Currency}
use cost.Ledger.{new_ledger}
use cost.Flow.Value.{find_text}
use cost.Flow.Settings.{Config, to_lower, contains_control, wallet, parse_postgres_settings}
use cost.Flow.Settings.Bounds.{IsPostgresSettings, parse_postgres_settings-IsPostgresSettings}
use cost.Flow.Bundle.{
  Options, postgres_only_options, storage_only_options, Packages, StorageSettings, Bundle,
  ledger_bundle, postgres_bundle, storage_bundle, parse_currency, rejected,
  reject_options_for_backend, without_option, attempted, new_bundle, memory_bundle,
  new_postgres_store, reject_wallet_budget, configured_postgres_bundle, storage_settings,
  opened_storage, new_storage_quota_store, configured_storage_bundle, for_backend, bundle,
}

-- None of the keys is an option.
unfoldable pub AllMissing : Options → List Text → Type 0
AllMissing opts [] = Unit
AllMissing opts (key ∷ keys) = (find_text key opts ≡ none) × AllMissing opts keys

abbrev pub IsStorage : StorageSettings → Type 0
IsStorage s =
    (text_eqb s.path [] ≡ false)
    × (text_eqb s.namespace [] ≡ false)
    × (length s.namespace ≤ 128)
    × (contains_control s.namespace ≡ false)

-- What the options say of the bundle that they lead to
abbrev pub IsConfigured : Options → Config → Bundle → Type 0
IsConfigured opts cfg (ledger_bundle l) =
    (to_lower (trim_space cfg.backend) ≡ text "memory")
    × AllMissing opts postgres_only_options
    × AllMissing opts storage_only_options
    × (parse_currency cfg.currency ≡ ok l.currency)
    × (l ≡ new_ledger cfg.budget l.currency)
IsConfigured opts cfg (postgres_bundle s) =
    (to_lower (trim_space cfg.backend) ≡ text "postgres")
    × AllMissing opts storage_only_options
    × ((text_eqb (to_lower (trim_space cfg.accounting_mode)) wallet ≡ false)
        ⊎ (find_text (text "budget") opts ≡ none))
    × IsPostgresSettings s
IsConfigured opts cfg (storage_bundle s) =
    (to_lower (trim_space cfg.backend) ≡ text "storage")
    × AllMissing opts postgres_only_options
    × (find_text (text "budget") opts ≡ none)
    × IsStorage s

rejected_lem {ℓ} :
    (Q : Type ℓ) (key backend : Text) (o : Option Text) (c : Result (Unit {0}))
    → OnOk (λ _. Q) c
    → OnOk (λ _. (o ≡ none) × Q) (rejected key backend o c)
rejected_lem Q key backend none (ok _) h = (refl, h)
rejected_lem Q key backend none (err _) h = tt
rejected_lem Q key backend (some _) c h = tt

reject-AllMissing :
    (opts : Options) (keys : List Text) (backend : Text)
    → OnOk (λ _. AllMissing opts keys) (reject_options_for_backend opts keys backend)
unfolding AllMissing reject_options_for_backend
reject-AllMissing opts [] backend = tt
reject-AllMissing opts (key ∷ keys) backend =
    rejected_lem (AllMissing opts keys) key backend (find_text key opts)
      (reject_options_for_backend opts keys backend) (reject-AllMissing opts keys backend)

without_option_lem :
    (opts : Options) (key : Text) (reason : Error)
    → OnOk (λ _. find_text key opts ≡ none) (without_option opts key reason)
without_option_lem opts key reason = ground arith

reject_wallet_budget_lem :
    (opts : Options) (cfg : Config)
    → OnOk
        (λ _.
          (text_eqb (to_lower (trim_space cfg.accounting_mode)) wallet ≡ false)
          ⊎ (find_text (text "budget") opts ≡ none))
        (reject_wallet_budget opts cfg)
reject_wallet_budget_lem opts cfg = ground arith

opened_storage-IsStorage :
    (packages : Packages) (s : StorageSettings) → OnOk IsStorage (opened_storage packages s)
opened_storage-IsStorage packages s = ground arith

new_postgres_store-IsPostgresSettings :
    (packages : Packages) (cfg : Config) (currency : Currency)
    → OnOk IsPostgresSettings (new_postgres_store packages cfg currency)
unfolding new_postgres_store
new_postgres_store-IsPostgresSettings packages cfg currency =
    OnOk-bind IsPostgresSettings IsPostgresSettings
      (parse_postgres_settings packages.surroundings cfg currency)
      (λ settings.
        attempted "open PostgreSQL connection: %w" (packages.open_database settings.dsn)
        >> (attempted "connect to PostgreSQL: %w" (packages.ping settings.dsn) >> ok settings))
      (parse_postgres_settings-IsPostgresSettings packages.surroundings cfg currency)
      (λ settings h. ground arith)

memory_bundle-IsConfigured :
    (opts : Options) (cfg : Config) (currency : Currency)
    → to_lower (trim_space cfg.backend) ≡ text "memory"
    → parse_currency cfg.currency ≡ ok currency
    → OnOk (IsConfigured opts cfg) (memory_bundle opts cfg currency)
unfolding memory_bundle new_ledger
memory_bundle-IsConfigured opts cfg currency backend parsed =
    OnOk-bind (λ _. AllMissing opts postgres_only_options) (IsConfigured opts cfg)
      (reject_options_for_backend opts postgres_only_options (text "postgres")) (λ _. not_storage)
      (reject-AllMissing opts postgres_only_options (text "postgres"))
      (λ _ postgres.
        OnOk-bind (λ _. AllMissing opts storage_only_options) (IsConfigured opts cfg)
          (reject_options_for_backend opts storage_only_options (text "storage"))
          (λ _. new_bundle (some (new_ledger cfg.budget currency)))
          (reject-AllMissing opts storage_only_options (text "storage"))
          (λ _ storage. (backend, postgres, storage, parsed, refl)))
  where
    not_storage : Result Bundle
    not_storage =
        reject_options_for_backend opts storage_only_options (text "storage")
        >> new_bundle (some (new_ledger cfg.budget currency))

postgres_bundle-IsConfigured :
    (packages : Packages) (opts : Options) (cfg : Config) (currency : Currency)
    → to_lower (trim_space cfg.backend) ≡ text "postgres"
    → OnOk (IsConfigured opts cfg) (configured_postgres_bundle packages opts cfg currency)
unfolding configured_postgres_bundle
postgres_bundle-IsConfigured packages opts cfg currency backend =
    OnOk-bind (λ _. AllMissing opts storage_only_options) (IsConfigured opts cfg)
      (reject_options_for_backend opts storage_only_options (text "storage"))
      (λ _. reject_wallet_budget opts cfg >> opened)
      (reject-AllMissing opts storage_only_options (text "storage"))
      (λ _ storage.
        OnOk-bind
          (λ _.
            (text_eqb (to_lower (trim_space cfg.accounting_mode)) wallet ≡ false)
            ⊎ (find_text (text "budget") opts ≡ none))
          (IsConfigured opts cfg) (reject_wallet_budget opts cfg) (λ _. opened)
          (reject_wallet_budget_lem opts cfg)
          (λ _ budget.
            OnOk-bind IsPostgresSettings (IsConfigured opts cfg)
              (new_postgres_store packages cfg currency) (λ s. ok (postgres_bundle s))
              (new_postgres_store-IsPostgresSettings packages cfg currency)
              (λ s settings. (backend, storage, budget, settings))))
  where
    opened : Result Bundle
    opened = new_postgres_store packages cfg currency >>= λ s. ok (postgres_bundle s)

storage_bundle-IsConfigured :
    (packages : Packages) (opts : Options) (cfg : Config)
    → to_lower (trim_space cfg.backend) ≡ text "storage"
    → OnOk (IsConfigured opts cfg) (configured_storage_bundle packages opts cfg)
unfolding configured_storage_bundle new_storage_quota_store
storage_bundle-IsConfigured packages opts cfg backend =
    OnOk-bind (λ _. find_text (text "budget") opts ≡ none) (IsConfigured opts cfg)
      (without_option opts (text "budget") in_storage)
      (λ _. reject_options_for_backend opts postgres_only_options (text "postgres") >> opened)
      (without_option_lem opts (text "budget") in_storage)
      (λ _ budget.
        OnOk-bind (λ _. AllMissing opts postgres_only_options) (IsConfigured opts cfg)
          (reject_options_for_backend opts postgres_only_options (text "postgres")) (λ _. opened)
          (reject-AllMissing opts postgres_only_options (text "postgres"))
          (λ _ postgres.
            OnOk-bind IsStorage (IsConfigured opts cfg) (new_storage_quota_store packages cfg)
              (λ s. ok (storage_bundle s))
              (opened_storage-IsStorage packages (storage_settings packages cfg))
              (λ s settings. (backend, postgres, budget, settings))))
  where
    in_storage : Error
    in_storage = message "budget is stored per tenant in Storage; do not set budget in @require" []

    opened : Result Bundle
    opened = new_storage_quota_store packages cfg >>= λ s. ok (storage_bundle s)

for_backend-IsConfigured :
    (packages : Packages) (opts : Options) (cfg : Config) (currency : Currency)
    → parse_currency cfg.currency ≡ ok currency
    → OnOk (IsConfigured opts cfg) (for_backend packages opts cfg currency)
unfolding for_backend
for_backend-IsConfigured packages opts cfg currency parsed =
    let backend = to_lower (trim_space cfg.backend) in
    if-elim Q (text_eqb backend (text "memory"))
      (λ e.
        memory_bundle-IsConfigured opts cfg currency ((text_eqb_iff backend (text "memory")).0 e)
          parsed)
      (λ _.
        if-elim Q (text_eqb backend (text "postgres"))
          (λ e.
            postgres_bundle-IsConfigured packages opts cfg currency
              ((text_eqb_iff backend (text "postgres")).0 e))
          (λ _.
            if-elim Q (text_eqb backend (text "storage"))
              (λ e.
                storage_bundle-IsConfigured packages opts cfg
                  ((text_eqb_iff backend (text "storage")).0 e))
              (λ _. tt)))
  where
    Q : Result Bundle → Type 0
    Q = OnOk (IsConfigured opts cfg)

-- Where Bundle does not panic, its options decode to a configuration, and the bundle is that of
-- its backend: a new ledger with the budget and the parsed currency, without options of the other
-- backends; or a PostgreSQL store without storage options and, in wallet mode, without a budget
-- option, whose settings have a source, identifiers as fields, a TTL of at least a second, at
-- least one connection and no more idle ones than open ones, a budget that is not negative and a
-- scope prefix of 1 to 128 bytes without NUL, CR and LF if they are monthly, and an external
-- schema if they are those of wallets; or a storage with a path and a namespace of 1 to 128 bytes
-- without NUL, CR and LF, without a budget or PostgreSQL options.
pub bundle-IsConfigured :
    (packages : Packages) (opts : Options) (b : Bundle)
    → bundle packages opts ≡ ok b
    → (cfg : Config) × ((packages.decode opts ≡ ok cfg) × IsConfigured opts cfg b)
unfolding bundle
bundle-IsConfigured packages opts b e =
    let (cfg, decoded, rest) =
      bind-ok_inv (packages.decode opts)
        (λ cfg. parse_currency cfg.currency >>= for_backend packages opts cfg) b e in
    let (currency, parsed, made) =
      bind-ok_inv (parse_currency cfg.currency) (for_backend packages opts cfg) b rest in
    (
      cfg,
      (
        decoded,
        OnOk-elim (IsConfigured opts cfg) (for_backend packages opts cfg currency) b
            (for_backend-IsConfigured packages opts cfg currency parsed) made,
      ),
    )
