-- ===== src/Flow/Middleware/Storage.antt =====
-- nexssflow/storage_backend.go: the middleware on the runtime budgets.
use cost.Prelude.{true, ℕ, ℤ, none, [], ◌∷◌, if◌then◌else◌}
use cost.Text.{Text, text, text_eqb}
use cost.Text.Spaces.{trim_space}
use cost.Errors.{Context, Error, message, Result, ok, err}
use cost.Currency.{empty_currency}
use cost.Quota.Base.{
  Storage, RuntimeQuotaLedger, RuntimeQuotaReservation, reserve, commit, release, record_event,
}
use cost.Flow.Value.{Value, nil_value}
use cost.Flow.Estimate.{EstimateSpec, resolve}
use cost.Flow.Reserver.{Reserver}
use cost.Flow.Middleware.{ActionEnd, Reply, replied, Style, guarded_action}

module _ {S V : Type 0} (storage : Storage S V) where
  -- The ledger of a tenant, with what newRuntimeReservationID returns.
  abbrev pub storage_reserver :
      RuntimeQuotaLedger → (new_id : Result Text) → Reserver S RuntimeQuotaReservation
  storage_reserver l new_id = record {
    reserve = λ ctx estimate s. reserve storage ctx l new_id estimate s;
    commit = λ ctx actual h s. commit storage ctx actual h s;
    release = λ ctx h s. release storage ctx h s;
    record_event = λ ctx now event s. (record_event ctx event, s);
  }

  abbrev pub storage_style : Style
  storage_style = record {
    reserve_format = "cost: load or reserve runtime tenant budget: %w";
    release_format = "cost: release runtime tenant reservation: %w";
    settle_format = "cost: settle runtime tenant reservation: %w";
    record_format = "cost: record runtime tenant usage: %w";
    operands = [];
    denied = text "runtime_budget_exceeded";
    done = text "runtime_reserved";
    in_commit = none;
    currency = empty_currency;
  }

  abbrev pub no_tenant : Error
  no_tenant =
      message
        "cost: trusted tenant identity is required in context (set by the authenticated host, not the Flow input)"
        []

  -- The middleware after the resolution of the estimate.
  abbrev pub for_tenant :
      (name : Text)
      → Context
      → (tenant_id : Text) → (new_id : Result Text) → (now : ℕ) → (input : Value) → ActionEnd
      → Result ℤ
      → S
      → Reply × S
  for_tenant name ctx tenant_id new_id now input action (err e) s = (replied nil_value (e ∷ []), s)
  for_tenant name ctx tenant_id new_id now input action (ok estimate) s =
      if text_eqb tenant_id []
      then (replied nil_value (no_tenant ∷ []), s)
      else guarded_action
          (storage_reserver (record { connected = true; tenant_id = tenant_id }) new_id)
          storage_style ctx now name input estimate action s

  -- (*storageQuotaStore).quotaMiddleware; `tenant` is xctx.TenantIDFrom(ctx). The kv of a store that
  -- has been opened is not nil.
  unfoldable pub storage_middleware :
      EstimateSpec
      → (name : Text) → Context
      → (tenant : Text) → (new_id : Result Text) → (now : ℕ) → (input : Value) → ActionEnd
      → S
      → Reply × S
  storage_middleware spec name ctx tenant new_id now input action s =
      for_tenant name ctx (trim_space tenant) new_id now input action (resolve spec input) s
