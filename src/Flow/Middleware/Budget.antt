-- ===== src/Flow/Middleware/Budget.antt =====
-- The middleware of nexssflow/storage_backend.go and the budget of its tenant.
use cost.Prelude.{
  ℕ, ◌≤◌, ◌≡◌, refl, sym, ap, subst, ℤ, pos, pos_part, ◌≤ℤ◌, ltb_ℤ, true, false, Option, none, some,
  List, [], ◌∷◌, arith, if-elim,
}
use cost.Text.{Text, text_eqb}
use cost.Text.Spaces.{trim_space}
use cost.Text.Decimal.{format_int, parse_int-format_int}
use cost.Errors.{
  Context, background, context_error, Error, is, err_budget_exceeded, Result, ok, err, checked-elim,
}
use cost.Quota.Record.{RuntimeQuotaRecord, entries, get_amount, with_reservation}
use cost.Quota.Base.{
  Storage, RuntimeQuotaLedger, RuntimeQuotaReservation, runtime_quota_key, mark_done, reserve,
  commit, release,
}
use cost.Quota.Amounts.{micros, micros-lt, micros_lem}
use cost.Quota.Records.{Same}
use cost.Quota.Store.{IsAtomic, Reads}
use cost.Quota.Admission.{Granted, ReserveOutcome, quota_reserve_lem}
use cost.Quota.Within.{IsWithinBudget, reserve-IsWithinBudget, Granted-IsWithinBudget}
use cost.Quota.Entries.{AllAt-set_amount, AllAt-Permᴰ, AllAt-get_amount, Reads-unique}
use cost.Quota.History.{commit-IsWithinBudget, release-IsWithinBudget}
use cost.Flow.Value.{Value, nil_value}
use cost.Flow.Estimate.{EstimateSpec, resolve}
use cost.Flow.Reserver.{finish_reservation, actual_cost}
use cost.Flow.Middleware.{
  ActionEnd, action_panicked, action_failed, action_returned, Reply, released, recorded, committed,
  answered, with_reservation as under_reservation, guarded_action,
}
use cost.Flow.Middleware.Storage.{storage_reserver, storage_style, storage_middleware}

-- What the action reports is not above the estimate.
abbrev pub CostsAtMost : ℤ → ActionEnd → Type 0
CostsAtMost estimate (action_returned output (some cost)) = cost ≤ℤ estimate
CostsAtMost estimate _ = Unit

actual_cost-le :
    (n : ℕ) (output : Value) (reported : Option ℤ)
    → CostsAtMost (pos n) (action_returned output reported)
    → pos_part (actual_cost (pos n) reported) ≤ n
actual_cost-le n output none h = omega arith
actual_cost-le n output (some cost) h = ground arith

module _ {S V : Type 0} (storage : Storage S V) where
  -- Under the id of a new reservation stands its amount.
  granted_amount :
      (key id raw : Text) (n : ℕ) (r r2 r3 : RuntimeQuotaRecord) (s : S)
      → n ≤ micros r.budget_micros
      → micros r.budget_micros ≤ 9223372036854775807
      → Reads storage key s r2
      → Same (with_reservation (pos n) id r) r2
      → Reads storage key s r3
      → get_amount id (entries r3) ≡ some raw
      → n ≤ micros raw
  granted_amount key id raw n r r2 r3 s fits bound reads same reads' held =
      let found =
        AllAt-get_amount id (format_int (pos n)) raw (entries r2)
          (AllAt-Permᴰ id (format_int (pos n)) (entries (with_reservation (pos n) id r))
            (entries r2) same.reservations (AllAt-set_amount id (format_int (pos n)) (entries r)))
          (subst (λ x. get_amount id (entries x) ≡ some raw)
            (Reads-unique storage key s r3 r2 reads' reads) held) in
      omega (
        arith,
        ap micros found,
        micros_lem (format_int (pos n)) n (parse_int-format_int n (omega (arith, fits, bound))),
      )

  -- A commit leaves the key of the handle.
  commit_key :
      (ctx : Context) (actual : ℤ) (h : RuntimeQuotaReservation) (s : S)
      → (commit storage ctx actual h s).1.0.key ≡ h.key
  unfolding commit
  commit_key ctx actual h s =
      checked-elim SameKey (context_error ctx) (h, s) (λ _ _. refl)
        (λ _. if-elim SameKey h.done (λ _. refl) (λ _. marked _))
    where
      SameKey : Result (Unit {0}) × (RuntimeQuotaReservation × S) → Type 0
      SameKey c = c.1.0.key ≡ h.key

      marked : (c : Result (Unit {0}) × S) → SameKey (mark_done storage h c)
      marked (ok _, s') = refl
      marked (err e, s') = refl

  module _ (atomic : IsAtomic storage) (l : RuntimeQuotaLedger) (id : Text) (now : ℕ)
      (name key : Text) where
    abbrev Kept : Reply × S → Type 0
    Kept c = IsWithinBudget storage key c.1

    released-Kept :
        (output : Value) (errors : List Error) (h : RuntimeQuotaReservation) (s : S)
        → h.key ≡ key
        → IsWithinBudget storage key s
        → Kept (
            released (storage_reserver storage l (ok id)) (storage_style storage) output errors h s)
    unfolding released finish_reservation
    released-Kept output errors h s named within =
        subst (λ k. IsWithinBudget storage k (release storage background h s).1.1) named
          (release-IsWithinBudget storage atomic background h s
            (subst (λ k. IsWithinBudget storage k s) (sym named) within))

    recorded-Kept :
        (output : Value) (result : Result (Unit {0})) (s : S)
        → IsWithinBudget storage key s
        → Kept (
            recorded
              (storage_reserver storage l (ok id))
              (storage_style storage)
              output
              (result, s))
    recorded-Kept output (ok _) s within = within
    recorded-Kept output (err e) s within = within

    committed-Kept :
        (output : Value) (actual : ℤ) (c : Result (Unit {0}) × (RuntimeQuotaReservation × S))
        → c.1.0.key ≡ key
        → IsWithinBudget storage key c.1.1
        → Kept (
            committed
              (storage_reserver storage l (ok id))
              (storage_style storage)
              now
              name
              output
              actual
              c)
    committed-Kept output actual (err e, (h, s)) named within =
        released-Kept nil_value _ h s named within
    committed-Kept output actual (ok _, (h, s)) named within =
        if-elim Kept (ltb_ℤ (pos 0) actual) (λ _. recorded-Kept output _ s within) (λ _. within)

    abbrev new_handle : RuntimeQuotaReservation
    new_handle = record { key = key; id = id; done = false }

    under_reservation-Kept :
        (n : ℕ) (action : ActionEnd) (r : RuntimeQuotaRecord) (s : S)
        → CostsAtMost (pos n) action
        → Granted storage key id n r s
        → Kept (
            under_reservation
              (storage_reserver storage l (ok id))
              (storage_style storage)
              now
              name
              (pos n)
              action
              new_handle
              s)
    unfolding under_reservation finish_reservation
    under_reservation-Kept n action_panicked r s modest granted =
        release-IsWithinBudget storage atomic background new_handle s
          (Granted-IsWithinBudget storage key id n r s granted)
    under_reservation-Kept n (action_failed output e) r s modest granted =
        released-Kept output (e ∷ []) new_handle s refl
          (Granted-IsWithinBudget storage key id n r s granted)
    under_reservation-Kept n (action_returned output reported) r s modest granted =
        let actual = actual_cost (pos n) reported in
        let (budget, fits, (r2, reads, same)) = granted in
        let number = micros-lt r.budget_micros (micros r.budget_micros) budget in
        committed-Kept output actual (commit storage background actual new_handle s)
          (commit_key background actual new_handle s)
          (commit-IsWithinBudget storage atomic background actual new_handle s
            (λ r3 raw reads' held. omega (
              arith,
              actual_cost-le n output reported modest,
              granted_amount key id raw n r r2 r3 s (omega (arith, fits)) (omega (arith, number))
                  reads same reads' held,
            ))
            (Granted-IsWithinBudget storage key id n r s granted))

    answered-Kept :
        (input : Value) (estimate : ℤ) (action : ActionEnd) (r : RuntimeQuotaRecord)
        (c : Result RuntimeQuotaReservation × S)
        → CostsAtMost estimate action
        → ReserveOutcome storage key id estimate r c
        → IsWithinBudget storage key c.1
        → Kept (
            answered
              (storage_reserver storage l (ok id))
              (storage_style storage)
              now
              name
              input
              estimate
              action
              c)
    answered-Kept input estimate action r (err e, s) modest outcome within =
        if-elim Kept (is e err_budget_exceeded) (λ _. within) (λ _. within)
    answered-Kept input estimate action r (ok h, s) modest (made, (n, amount, granted)) within =
        rw (made, amount)
          (under_reservation-Kept n action r s (subst (λ e. CostsAtMost e action) amount modest)
            granted)

  -- On an atomic store, where the record of a tenant keeps what is spent and reserved within its
  -- budget, it does so after the storage middleware has run an action, however the action ends and
  -- whatever errors the store reports, if the action reports no more than the estimate.
  pub storage_middleware-IsWithinBudget :
      (atomic : IsAtomic storage) (spec : EstimateSpec) (name tenant key id : Text) (ctx : Context)
      (now : ℕ) (input : Value) (estimate : ℤ) (action : ActionEnd) (s : S)
      → resolve spec input ≡ ok estimate
      → CostsAtMost estimate action
      → runtime_quota_key storage (trim_space tenant) ≡ ok key
      → text_eqb id [] ≡ false
      → IsWithinBudget storage key s
      → IsWithinBudget storage key
          (storage_middleware storage spec name ctx tenant (ok id) now input action s).1
  unfolding storage_middleware guarded_action
  storage_middleware-IsWithinBudget atomic spec name tenant key id ctx now input estimate action s
        resolved modest named given (r, reads, within) =
      let l : RuntimeQuotaLedger = record { connected = true; tenant_id = trim_space tenant } in
      let outcome = quota_reserve_lem storage atomic ctx l key id estimate s r named given reads in
      rw resolved (
        if-elim (λ (c : Reply × S). IsWithinBudget storage key c.1)
          (text_eqb (trim_space tenant) []) (λ _. (r, reads, within))
          (λ _.
            answered-Kept atomic l id now name key input estimate action r
              (reserve storage ctx l (ok id) estimate s) modest outcome
              (reserve-IsWithinBudget storage key id estimate r
                (reserve storage ctx l (ok id) estimate s) within outcome)))
