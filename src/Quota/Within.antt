-- ===== src/Quota/Within.antt =====
-- The budget of a tenant in nexssflow/storage_backend.go: what keeps its use within it.
use cost.Prelude.{ℕ, ◌+◌, ◌≤◌, ◌<◌, ◌≡◌, ap, subst, inl, inr, ℤ, pos, some, arith}
use cost.Text.{Text}
use cost.Text.Decimal.{format_int, parse_int-format_int}
use cost.Errors.{Context, Result, ok, err}
use cost.Quota.Record.{
  RuntimeQuotaRecord, ok_inj, new_record, entries, get_amount, delete_amount, with_budget,
  with_reservation, with_spent,
}
use cost.Quota.Base.{Storage, RuntimeQuotaReservation, change, set_under}
use cost.Quota.Amounts.{IsMicros, micros, micros-lt, micros_lem, micros-IsMicros}
use cost.Quota.Records.{Same, IsSoundRecord, used, used-Same}
use cost.Quota.Updates.{with_budget-IsSoundRecord, used-with_spent, used-dropped}
use cost.Quota.Admitting.{used-with_reservation}
use cost.Quota.Store.{
  IsAtomic, Reads, Reads-IsSoundRecord, Changed, ChangeOutcome, update-ChangeOutcome,
}
use cost.Quota.Admission.{Granted, ReserveOutcome}
use cost.Quota.Settlement.{Charged, Dropped, SettleOutcome}

module _ {S V : Type 0} (storage : Storage S V) where
  -- What is spent and what is held are within the budget of the record.
  abbrev pub IsWithin : RuntimeQuotaRecord → Type 0
  IsWithin r = IsMicros r.budget_micros (micros r.budget_micros) × (used r ≤ micros r.budget_micros)

  abbrev pub IsWithinBudget : Text → S → Type 0
  IsWithinBudget key s = (r : RuntimeQuotaRecord) × Reads storage key s r × IsWithin r

  IsWithin-Same : (r r' : RuntimeQuotaRecord) → Same r r' → IsWithin r → IsWithin r'
  IsWithin-Same r r' same (b, fits) = (
    subst (λ raw. IsMicros raw (micros raw)) same.budget b,
    omega (arith, used-Same r r' same, ap micros same.budget),
  )

  pub Granted-IsWithinBudget :
      (key id : Text) (estimate : ℕ) (r : RuntimeQuotaRecord) (s' : S)
      → Granted storage key id estimate r s'
      → IsWithinBudget key s'
  Granted-IsWithinBudget key id estimate r s' (b, fits, (r2, reads, same)) = (
    r2,
    reads,
    IsWithin-Same (with_reservation (pos estimate) id r) r2 same (
      b,
      omega (
        arith,
        used-with_reservation estimate id r
            (omega (arith, micros-lt r.budget_micros (micros r.budget_micros) b)),
      ),
    ),
  )

  pub Charged-IsWithinBudget :
      (key id : Text) (actual : ℕ) (r : RuntimeQuotaRecord) (s' : S)
      → ((raw : Text) → get_amount id (entries r) ≡ some raw → actual ≤ micros raw)
      → IsWithin r
      → Charged storage key id actual r s'
      → IsWithinBudget key s'
  Charged-IsWithinBudget key id actual r s' modest (b, within)
        (raw, held, fits, (r2, reads, same)) =
      (
        r2,
        reads,
        IsWithin-Same (with_spent id (pos (micros r.spent_micros + actual)) r) r2 same
            (b, omega (arith, used-with_spent actual id raw r fits held, modest raw held)),
      )

  pub Dropped-IsWithinBudget :
      (key id : Text) (r : RuntimeQuotaRecord) (s' : S)
      → IsWithin r
      → Dropped storage key id r s'
      → IsWithinBudget key s'
  Dropped-IsWithinBudget key id r s' (b, within) (raw, held, (r2, reads, same)) = (
    r2,
    reads,
    IsWithin-Same (record r { reservations = some (delete_amount id (entries r)) }) r2 same
        (b, omega (arith, used-dropped id r)),
  )

  pub budgeted-IsWithinBudget :
      (key : Text) (limit : ℕ) (r : RuntimeQuotaRecord) (s' : S)
      → limit < 9223372036854775808
      → used r ≤ limit
      → Changed storage key (λ r. ok (with_budget (pos limit) r)) r s'
      → IsWithinBudget key s'
  budgeted-IsWithinBudget key limit r s' lt fits (r1, e, (r2, reads, same)) =
      let number = parse_int-format_int limit lt in
      (
        r2,
        reads,
        IsWithin-Same r1 r2 same (
            subst IsWithin (ok_inj (with_budget (pos limit) r) r1 e) (
              micros-IsMicros (format_int (pos limit)) limit number,
              omega (arith, micros_lem (format_int (pos limit)) limit number),
            )),
      )

  pub reserve-IsWithinBudget :
      (key id : Text) (estimate : ℤ) (r : RuntimeQuotaRecord)
      (c : Result RuntimeQuotaReservation × S)
      → IsWithin r
      → ReserveOutcome storage key id estimate r c
      → IsWithinBudget key c.1
  reserve-IsWithinBudget key id estimate r (ok h, s') within (_, (n, _, granted)) =
      Granted-IsWithinBudget key id n r s' granted
  reserve-IsWithinBudget key id estimate r (err _, s') within (inl reads) = (r, reads, within)
  reserve-IsWithinBudget key id estimate r (err _, s') within (inr (n, _, granted)) =
      Granted-IsWithinBudget key id n r s' granted

  pub settle-IsWithinBudget :
      (Done : S → Type 0) (h : RuntimeQuotaReservation) (r : RuntimeQuotaRecord)
      (c : Result (Unit {0}) × (RuntimeQuotaReservation × S))
      → IsWithin r
      → ((s' : S) → Done s' → IsWithinBudget h.key s')
      → SettleOutcome storage Done h r c
      → IsWithinBudget h.key c.1.1
  settle-IsWithinBudget Done h r (ok _, (h', s')) within done (_, after) = done s' after
  settle-IsWithinBudget Done h r (err _, (h', s')) within done (_, inl reads) = (r, reads, within)
  settle-IsWithinBudget Done h r (err _, (h', s')) within done (_, inr after) = done s' after

  module _ (atomic : IsAtomic storage) where
    pub set_under-IsWithinBudget :
        (ctx : Context) (key : Text) (limit : ℕ) (s : S) (r : RuntimeQuotaRecord)
        → limit < 9223372036854775808
        → used r ≤ limit
        → Reads storage key s r
        → IsWithin r
        → IsWithinBudget key (set_under storage ctx (pos limit) (ok key) s).1
    unfolding set_under
    set_under-IsWithinBudget ctx key limit s r lt fits reads within =
        outcome
          (storage.update ctx key
            (change storage (ok new_record) (λ r. ok (with_budget (pos limit) r))) s)
          (update-ChangeOutcome storage atomic ctx (ok new_record)
            (λ r. ok (with_budget (pos limit) r)) key s r
            (λ r1 e.
              subst IsSoundRecord (ok_inj (with_budget (pos limit) r) r1 e) (
                with_budget-IsSoundRecord (pos limit) r
                  (Reads-IsSoundRecord storage key s r reads)))
            reads)
      where
        outcome :
            (c : Result (Unit {0}) × S)
            → ChangeOutcome storage key (λ r. ok (with_budget (pos limit) r)) r c
            → IsWithinBudget key c.1
        outcome (ok _, s') changed = budgeted-IsWithinBudget key limit r s' lt fits changed
        outcome (err _, s') (inl same) = (r, same, within)
        outcome (err _, s') (inr changed) = budgeted-IsWithinBudget key limit r s' lt fits changed
