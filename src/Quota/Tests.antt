-- ===== src/Quota/Tests.antt =====
-- Tests of the runtime budgets on a store that is a function.
use mathlib.Core.List.{Permᴰ}
use cost.Prelude.{◌≡◌, refl, ◌↔◌, pos, ◌+ℤ◌, ◌≤ℤ◌, some, List, [], ◌∷◌, true, false, arith}
use cost.Text.{text}
use cost.Errors.{background, ok, is_ok}
use cost.Ledger.{invalid_estimate}
use cost.Quota.Record.{RuntimeQuotaRecord, admit}
use cost.Quota.Base.{RuntimeQuotaReservation, reserve, commit}
use cost.Quota.Amounts.{micros}
use cost.Quota.Records.{Same, used}
use cost.Quota.Admitting.{admit_any_order}
use cost.Quota.Store.{Reads-IsSoundRecord}
use cost.Quota.Admission.{quota_reserve_iff}
use cost.Quota.Settlement.{Charged, SettleOutcome, quota_commit_lem}
use cost.Quota.History.{
  QuotaCall, AllModest, reserve_call, commit_call, release_call, run, run-IsWithinBudget,
}
use cost.Quota.Within.{IsWithinBudget}
use cost.Quota.Cells.{
  cells, cells-IsAtomic, cells-Answers, stored, tenant_key, store, ledger, ledger-named,
  store-Reads, stored-budget, store-IsWithinBudget,
}

abbrev handle : RuntimeQuotaReservation
handle = record { key = tenant_key; id = text "a"; done = false }

quota_reserve_iff_example :
    (is_ok (reserve cells background ledger (ok (text "c")) (pos 45) store).0 ≡ true) ↔ (
      (invalid_estimate (pos 45) ≡ false)
      × (pos (used stored) +ℤ pos 45 ≤ℤ pos (micros stored.budget_micros)))
quota_reserve_iff_example =
    quota_reserve_iff cells background ledger tenant_key (text "c") (pos 45) store stored refl refl
      ledger-named (cells-Answers background store) store-Reads stored-budget

quota_commit_lem_example :
    SettleOutcome cells
      (Charged cells tenant_key (text "a") 50 stored)
      handle
      stored
      (commit cells background (pos 50) handle store)
quota_commit_lem_example =
    quota_commit_lem cells cells-IsAtomic background (pos 50) handle store stored refl store-Reads

abbrev reordered : RuntimeQuotaRecord
reordered = record stored {
  reservations = some ((text "b", text "5") ∷ (text "a", text "30") ∷ []);
}

stored-reordered : Same stored reordered
stored-reordered = record {
  version = refl;
  budget = refl;
  spent = refl;
  reservations = Permᴰ.swap refl refl;
}

admit_any_order_example :
    (is_ok (admit (pos 45) (text "c") stored) ≡ true)
    ↔ (is_ok (admit (pos 45) (text "c") reordered) ≡ true)
admit_any_order_example =
    admit_any_order 45 (text "c") stored reordered stored-reordered
      (Reads-IsSoundRecord cells tenant_key store stored store-Reads)

abbrev calls : List QuotaCall
calls =
    reserve_call background ledger (text "c") (pos 45)
    ∷ commit_call background (pos 0) handle
    ∷ release_call background (record handle { id = text "b" })
    ∷ []

calls-AllModest : AllModest cells tenant_key calls store
unfolding AllModest
calls-AllModest = ((ledger-named, refl), ((refl, λ r raw _ _. omega arith), (refl, tt)))

run-IsWithinBudget_example : IsWithinBudget cells tenant_key (run cells calls store)
run-IsWithinBudget_example =
    run-IsWithinBudget cells cells-IsAtomic tenant_key calls store calls-AllModest
      store-IsWithinBudget
