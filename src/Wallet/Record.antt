-- ===== src/Wallet/Record.antt =====
-- nexssflow/wallet.go: Record.
use cost.Prelude.{pos, leb_ℤ, Bool, false, not, if◌then◌else◌, Option, none, some, List, [], ◌∷◌}
use cost.Text.{Text}
use cost.Errors.{Context, context_error, validation, message, errorf, Result, ok, err, checked}
use cost.Currency.{currency_eqb, empty_currency, to_string}
use cost.Event.{Event}
use cost.Sql.{Tx, CommitOutcome, committed, commit_failed}
use cost.Wallet.Tables.{UsageRow, Database, has_usage}
use cost.Wallet.Base.{WalletLedger, nil_database}

-- NULLIF($6, '')
abbrev pub nullif_empty : Text → Option Text
nullif_empty [] = none
nullif_empty (c ∷ s) = some (c ∷ s)

-- The conflict of the INSERT: is the id, if there is one, known for the wallet?
abbrev pub known_usage : (wallet : Text) → Option Text → List UsageRow → Bool
known_usage wallet none rows = false
known_usage wallet (some i) rows = has_usage wallet i rows

abbrev pub with_usage : WalletLedger → Event → Database → Database
with_usage l event t = record t {
  usage_events =
      record {
        wallet_id = l.identity.wallet_id;
        domain = event.domain;
        operation = event.operation;
        cost_micros = event.cost_micros;
        currency = to_string l.currency;
        event_id = nullif_empty event.id;
      }
      ∷ t.usage_events;
}

-- INSERT INTO cost_wallet_usage_events … ON CONFLICT … DO NOTHING
unfoldable pub insert_usage : WalletLedger → Event → Database → Database
insert_usage l event t =
    if known_usage l.identity.wallet_id (nullif_empty event.id) t.usage_events
    then t
    else with_usage l event t

-- The single statement of Record, and how it ends.
abbrev pub executed : CommitOutcome → (t t' : Database) → Result (Unit {0}) × Database
executed committed t t' = (ok tt, t')
executed (commit_failed e applied) t t' =
    (err (errorf "postgres wallet: record usage event: %w" [] e), if applied then t' else t)

-- (*walletLedger).Record
unfoldable pub record_event :
    Context → WalletLedger → CommitOutcome → Event → Tx Database (Unit {0})
record_event ctx l outcome event t =
    let currency =
      if currency_eqb event.currency empty_currency then l.currency else event.currency in
    checked (context_error ctx) t (
      if not l.connected
      then (err nil_database, t)
      else if leb_ℤ event.cost_micros (pos 0)
      then (err (validation "cost_micros" event.cost_micros), t)
      else if not (currency_eqb currency l.currency)
      then (err (message "postgres wallet: currency mismatch" []), t)
      else executed outcome t (insert_usage l event t))
