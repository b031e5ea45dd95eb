-- ===== src/Flow/Bundle/Tests.antt =====
-- Tests of the options of the bundle.
use cost.Prelude.{◌≡◌, refl, pos, none, some, [], ◌∷◌}
use cost.Text.{Text, text}
use cost.Text.Spaces.{trim_space, space_width, space_width_back}
use cost.Errors.{ok, err, message, txt}
use cost.Currency.{usd, unmarshal_text}
use cost.Flow.Value.{find_text}
use cost.Flow.Estimate.{is_identifier}
use cost.Flow.Settings.{Config, PostgresSettings, contains_control, parse_postgres_settings}
use cost.Flow.Bundle.{Options, Packages, postgres_bundle, bundle, reject_options_for_backend}
use cost.Flow.Bundle.Checks.{IsConfigured, bundle-IsConfigured}

abbrev given : Options → Text → Text → Text
given opts key default = elim (find_text key opts) [ none ↦ default | some value ↦ value ]

abbrev decoded : Options → Config
decoded opts = record {
  backend = given opts (text "backend") (text "memory");
  budget = pos 500;
  currency = text " usd";
  dsn = given opts (text "dsn") [];
  schema_mode = text "external";
  accounting_mode = given opts (text "accounting_mode") (text "monthly");
  scope_prefix = text "support-quota";
  tenant_field = text "customer_id";
  user_field = text "user_id";
  wallet_field = text "wallet_id";
  reservation_ttl = text "5m";
  max_open_conns = pos 3;
  max_idle_conns = pos 5;
  storage_path = [];
  storage_namespace = text "cost-runtime-v1";
}

abbrev packages : Packages
packages = record {
  decode = λ opts. ok (decoded opts);
  surroundings = record { expand_env = λ t. t; parse_duration = λ _. some (pos 300000000000) };
  open_database = λ _. none;
  ping = λ _. none;
  register_backend = none;
  open_storage = λ _ _. none;
  assert_atomic = λ _ _. none;
}

abbrev postgres_options : Options
postgres_options = (text "backend", text "Postgres ") ∷ (text "dsn", text "postgres://db") ∷ []

-- No more connections may be idle than open.
abbrev settings : PostgresSettings
settings = record {
  dsn = text "postgres://db";
  budget = pos 500;
  currency = usd;
  schema_mode = text "external";
  accounting_mode = text "monthly";
  scope_prefix = text "support-quota";
  tenant_field = text "customer_id";
  user_field = text "user_id";
  wallet_field = text "wallet_id";
  reservation_ttl = pos 300000000000;
  max_open_conns = pos 3;
  max_idle_conns = pos 3;
}

configured : bundle packages postgres_options ≡ ok (postgres_bundle settings)
unfolding bundle find_text unmarshal_text trim_space space_width space_width_back
    reject_options_for_backend parse_postgres_settings is_identifier contains_control
configured = refl

misplaced :
    bundle packages ((text "dsn", text "postgres://db") ∷ [])
    ≡ err (message "option %q requires backend=%s" (txt (text "dsn") ∷ txt (text "postgres") ∷ []))
unfolding bundle find_text unmarshal_text trim_space space_width space_width_back
    reject_options_for_backend
misplaced = refl

wallet_budget :
    bundle packages (
      (text "backend", text "postgres")
      ∷ (text "accounting_mode", text " Wallet")
      ∷ (text "budget", text "500")
      ∷ [])
    ≡ err (
        message
          "budget is not accepted with accounting_mode=wallet; provision wallet balances in PostgreSQL"
          [])
unfolding bundle find_text unmarshal_text trim_space space_width space_width_back
    reject_options_for_backend
wallet_budget = refl

bundle-IsConfigured_example :
    (cfg : Config) × ((ok (decoded postgres_options) ≡ ok cfg)
      × IsConfigured postgres_options cfg (postgres_bundle settings))
bundle-IsConfigured_example =
    bundle-IsConfigured packages postgres_options (postgres_bundle settings) configured
