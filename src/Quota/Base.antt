-- ===== src/Quota/Base.antt =====
-- nexssflow/storage_backend.go: SetRuntimeBudget and the ledger over the store.
use cost.Prelude.{
  ℤ, pos, ltb_ℤ, Bool, not, true, false, if◌then◌else◌, Option, none, some, [], ◌∷◌, ◌++◌,
}
use cost.Text.{Text, text, text_eqb}
use cost.Text.Spaces.{trim_space}
use cost.Errors.{
  Error, Context, nil_context, context, context_error, sentinel, err_nil_context, validation,
  message, errorf, num, err_reservation_not_found, Result, ok, err, checked,
}
use cost.Event.{Event}
use cost.Ledger.{invalid_estimate}
use cost.Reservation.{clamp}
use cost.Quota.Record.{
  ◌>>=◌, RuntimeQuotaRecord, new_record, Reencoded, decode_record, policy_missing, with_budget,
  admit, charge, drop_reservation,
}

-- storage.AtomicKV, a store `S` of values `V` of any type, with encoding/json on them and SHA-256.
-- `update` runs its function on the value under the key, if there is one; `any_of` is a
-- record as a value, and `reencode` what json.Marshal and then json.Unmarshal make of a value.
pub record Storage (S V : Type 0) : Type 0 where
  pub lookup : Text → S → Option V
  pub update : Context → Text → (Option V → Result V) → S → Result (Unit {0}) × S
  pub any_of : RuntimeQuotaRecord → V
  pub reencode : V → Reencoded
  pub hex_digest : Text → Text

-- runtimeQuotaKeyPrefix
abbrev pub runtime_quota_key_prefix : Text
runtime_quota_key_prefix = text "cost/runtime-budget/v1/"

-- type runtimeQuotaLedger; `connected` is that neither it nor its kv is nil.
pub record RuntimeQuotaLedger : Type 0 where
  pub connected : Bool
  pub tenant_id : Text

-- type runtimeQuotaReservation, but for its ledger and its mutex.
pub record RuntimeQuotaReservation : Type 0 where
  pub key : Text
  pub id : Text
  pub done : Bool

abbrev pub no_storage : Error
no_storage = message "cost: runtime budget requires an atomic Storage KV" []

-- `if ctx == nil { return ErrNilContext }`
abbrev pub nil_error : Context → Option Error
nil_error nil_context = some (sentinel err_nil_context)
nil_error (context _) = none

-- The error of SetRuntimeBudget's update, as it wraps it.
abbrev pub wrapped : Result (Unit {0}) → Result (Unit {0})
wrapped (ok _) = ok tt
wrapped (err e) = err (errorf "cost: update runtime budget for trusted tenant: %w" [] e)

-- recordForSettlement on a key that is not there
abbrev pub disappeared : Result RuntimeQuotaRecord
disappeared = err (
    errorf "%w: record disappeared while a reservation was in flight" []
      (sentinel err_reservation_not_found))

module _ {S V : Type 0} (storage : Storage S V) where
  -- runtimeQuotaKey
  unfoldable pub runtime_quota_key : Text → Result Text
  runtime_quota_key tenant_id =
      let trimmed = trim_space tenant_id in
      if text_eqb trimmed []
      then err (message "cost: trusted tenant identity is required" [])
      else ok (runtime_quota_key_prefix ++ storage.hex_digest trimmed)

  -- What the update functions do with the current value: decode it, change the record, store that.
  abbrev pub change :
      Result RuntimeQuotaRecord
      → (RuntimeQuotaRecord → Result RuntimeQuotaRecord)
      → Option V
      → Result V
  change missing f none = missing >>= f >>= λ r. ok (storage.any_of r)
  change missing f (some v) =
      decode_record (storage.reencode v) >>= f >>= λ r. ok (storage.any_of r)

  -- SetRuntimeBudget once the key is there.
  unfoldable pub set_under : Context → ℤ → Result Text → S → Result (Unit {0}) × S
  set_under ctx limit (err e) s = (err e, s)
  set_under ctx limit (ok key) s =
      let (answer, s') =
        storage.update ctx key (change (ok new_record) (λ r. ok (with_budget limit r))) s in
      (wrapped answer, s')

  -- SetRuntimeBudget; `connected` is kv != nil.
  unfoldable pub set_runtime_budget :
      Context → (connected : Bool) → Text → ℤ → S → Result (Unit {0}) × S
  set_runtime_budget ctx connected tenant_id limit s =
      let rest = set_under ctx limit (runtime_quota_key tenant_id) s in
      checked (nil_error ctx) s (
        if not connected
        then (err no_storage, s)
        else if ltb_ℤ limit (pos 0)
        then (err (message "cost: runtime budget must be non-negative, got %d" (num limit ∷ [])), s)
        else rest)

  -- Reserve once the estimate and the ledger are valid: the key, the id and the update.
  unfoldable pub reserve_under :
      Context → (key id : Result Text) → ℤ → S → Result RuntimeQuotaReservation × S
  reserve_under ctx (err e) id estimate s = (err e, s)
  reserve_under ctx (ok key) (err e) estimate s =
      (err (errorf "cost: generate runtime reservation ID: %w" [] e), s)
  reserve_under ctx (ok key) (ok id) estimate s =
      let (answer, s') =
        storage.update ctx key (change (err policy_missing) (admit estimate id)) s in
      (answer >>= λ _. ok (record { key = key; id = id; done = false }), s')

  -- (*runtimeQuotaLedger).Reserve, with what newRuntimeReservationID returns.
  unfoldable pub reserve :
      Context
      → RuntimeQuotaLedger
      → (new_id : Result Text) → ℤ
      → S
      → Result RuntimeQuotaReservation × S
  reserve ctx l new_id estimate s =
      let rest = reserve_under ctx (runtime_quota_key l.tenant_id) new_id estimate s in
      checked (context_error ctx) s (
        if invalid_estimate estimate
        then (err (validation "estimate_micros" estimate), s)
        else if not l.connected
        then (err no_storage, s)
        else rest)

  -- `r.done = true` after an update that reported success.
  abbrev pub mark_done :
      RuntimeQuotaReservation
      → Result (Unit {0}) × S
      → Result (Unit {0}) × (RuntimeQuotaReservation × S)
  mark_done r (ok _, s) = (ok tt, (record r { done = true }, s))
  mark_done r (err e, s) = (err e, (r, s))

  -- (*runtimeQuotaReservation).Commit
  unfoldable pub commit :
      Context → ℤ → RuntimeQuotaReservation → S → Result (Unit {0}) × (RuntimeQuotaReservation × S)
  commit ctx actual r s =
      let settled = storage.update ctx r.key (change disappeared (charge (clamp actual) r.id)) s in
      checked (context_error ctx) (r, s) (if r.done then (ok tt, (r, s)) else mark_done r settled)

  -- (*runtimeQuotaReservation).Release
  unfoldable pub release :
      Context → RuntimeQuotaReservation → S → Result (Unit {0}) × (RuntimeQuotaReservation × S)
  release ctx r s =
      let settled = storage.update ctx r.key (change disappeared (drop_reservation r.id)) s in
      checked (context_error ctx) (r, s) (if r.done then (ok tt, (r, s)) else mark_done r settled)

-- (*runtimeQuotaLedger).Record
unfoldable pub record_event : Context → Event → Result (Unit {0})
record_event ctx event = elim (context_error ctx) [ none ↦ ok tt | some e ↦ err e ]
