-- ===== src/Wallet/Tests.antt =====
-- A wallet at a concrete database.
use cost.Prelude.{◌≡◌, refl, ◌↔◌, pos, ◌+ℤ◌, ◌-ℤ◌, ◌≤ℤ◌, true, false, some, [], ◌∷◌, arith}
use cost.Int64.{sub64, wrap, to_bits, of_bits}
use cost.Text.{text}
use cost.Errors.{background, is_ok}
use cost.Currency.{to_string}
use cost.Ledger.Admission.{IsEstimate}
use cost.Sql.{transaction}
use cost.Postgres.Tables.{find_reservation, delete_reservation, delete_expired, held}
use cost.Wallet.Tables.{find_wallet, find_tenant, find_user, update_wallet, has_key}
use cost.Wallet.Base.{WalletReservation, lock_wallet}
use cost.Wallet.Reserve.{reserve}
use cost.Wallet.Settle.{debit_funds, write_debit_entry, settle, commit_body, commit}
use cost.Wallet.Accounts.{Accounted}
use cost.Wallet.History.{reserve_call, commit_call, release_call, run, run-Accounted}
use cost.Wallet.Settlement.{CommitEffect, commit_lem}
use cost.Wallet.Availability.{IsActive, IsHealthy, wallet_reserve_iff}
use cost.Wallet.Payment.{commit_succeeds}
use cost.Wallet.Sample.{ledger, wallet_row, hold_b, database, calm, torn, account}

active : IsActive ledger wallet_row database
unfolding find_tenant find_user to_string
active = record {
  tenant = record { tenant_id = text "t"; status = text "active" };
  user = record { tenant_id = text "t"; user_id = text "u"; status = text "active" };
  tenant_found = refl;
  user_found = refl;
  owner = refl;
  owning_user = refl;
  same_currency = refl;
  tenant_active = refl;
  user_active = refl;
  wallet_active = refl;
}

healthy : IsHealthy calm
healthy = record { begins = refl; answers = λ _. refl; commits = refl }

abbrev lease_b : WalletReservation
lease_b = record { id = text "b"; done = false }

-- 25 are debited for what held 20, beside the 30 of "a".
debited_25 :
    find_wallet (text "w") (commit background ledger calm (pos 25) lease_b database).1.1.wallets
    ≡ some (record wallet_row { balance_micros = pos 75; reserved_micros = pos 30 })
unfolding commit commit_body settle debit_funds write_debit_entry transaction lock_wallet
    find_wallet find_tenant find_user find_reservation update_wallet delete_reservation has_key
    to_string sub64 wrap to_bits of_bits ◌+ℤ◌ ◌-ℤ◌
debited_25 = refl

run-Accounted_example : Accounted (text "w") (pos 0) (
    run
      (commit_call ledger background torn (pos 25) lease_b
        ∷ reserve_call ledger background calm (pos 70)
        ∷ release_call ledger background calm lease_b
        ∷ [])
      database)
run-Accounted_example =
    run-Accounted (text "w") (pos 0)
      (commit_call ledger background torn (pos 25) lease_b
        ∷ reserve_call ledger background calm (pos 70)
        ∷ release_call ledger background calm lease_b
        ∷ [])
      database (refl, (refl, (refl, tt))) account

commit_lem_example :
    CommitEffect ledger torn
      (pos 0)
      (pos 25)
      lease_b
      account
      (commit background ledger torn (pos 25) lease_b database)
commit_lem_example =
    commit_lem ledger torn (pos 0) background (pos 25) lease_b database account refl

wallet_reserve_iff_example : (is_ok (reserve background ledger calm (pos 80) database).0 ≡ true) ↔ (
    IsEstimate (pos 80)
    × (held (text "w") (delete_expired (text "w") 9 database.reservations) +ℤ pos 80
        ≤ℤ account.row.balance_micros))
unfolding account find_reservation
wallet_reserve_iff_example =
    wallet_reserve_iff ledger calm healthy (pos 0) (text "c") (pos 80) database account active refl
      refl refl

commit_succeeds_example : is_ok (commit background ledger calm (pos 25) lease_b database).0 ≡ true
unfolding account find_reservation has_key ◌+ℤ◌ ◌-ℤ◌
commit_succeeds_example =
    commit_succeeds ledger calm healthy (pos 0) (pos 25) lease_b hold_b database account active refl
      (refl, refl, refl) (omega arith) refl
