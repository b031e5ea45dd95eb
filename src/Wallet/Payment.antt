-- ===== src/Wallet/Payment.antt =====
-- When the database answers, Commit of nexssflow/wallet.go settles a live reservation whose actual
-- cost is affordable.
use cost.Prelude.{
  ◌≡◌, refl, ap, ◌∙◌, ℤ, pos, ◌-ℤ◌, ◌≤ℤ◌, ltb_ℤ, leb_ℤ, ◌&&◌, true, false, some, arith, int_laws,
}
use cost.Text.{Text}
use cost.Errors.{background, Result, ok, err, is_ok}
use cost.Reservation.{clamp, clamp_nonneg}
use cost.Sql.{fits_int64, ◌>>◌}
use cost.Sql.Rules.{bind-ok, granted, transaction-answers}
use cost.Postgres.Tables.{ReservationRow, delete_reservation}
use cost.Wallet.Tables.{Database, WalletRow, find_wallet, has_key, update_wallet}
use cost.Wallet.Base.{
  WalletLedger, Environment, WalletReservation, delete_returning, debit_wallet, write_debit,
  lock_wallet, check_status,
}
use cost.Wallet.Settle.{
  available_after_release, debit_funds, write_debit_entry, settle, commit_body, mark_done, commit,
}
use cost.Wallet.Accounts.{Accounted}
use cost.Wallet.Keeps.{affordable_exact, amount-le}
use cost.Wallet.Settlement.{IsLive, Affords}
use cost.Wallet.Availability.{IsActive, IsHealthy, lock_wallet-healthy}

module _ (l : WalletLedger) (env : Environment) (healthy : IsHealthy env) where
  abbrev funded : (actual amount : ℤ) → Database → Database
  funded actual amount t = record t {
    wallets =
        update_wallet l.identity.wallet_id
          (λ w. record w {
            balance_micros = w.balance_micros -ℤ actual;
            reserved_micros = w.reserved_micros -ℤ amount;
          })
          t.wallets;
  }

  debit_funds-healthy :
      (actual amount : ℤ) (row : WalletRow) (t : Database)
      → find_wallet l.identity.wallet_id t.wallets ≡ some row
      → (fits_int64 (row.balance_micros -ℤ actual) && fits_int64 (row.reserved_micros -ℤ amount))
        ≡ true
      → debit_funds l env actual amount t ≡ (ok tt, funded actual amount t)
  unfolding debit_funds
  debit_funds-healthy actual amount row t found fits = ground (arith, healthy.answers debit_wallet)

  write_debit_entry-healthy :
      (id : Text) (actual : ℤ) (t : Database)
      → has_key l.identity.wallet_id id t.entries ≡ false
      → is_ok (write_debit_entry l env id actual t).0 ≡ true
  unfolding write_debit_entry
  write_debit_entry-healthy id actual t fresh = ground (arith, healthy.answers write_debit)

  settle-healthy :
      (id : Text) (actual : ℤ) (hold : ReservationRow) (row : WalletRow) (t : Database)
      → IsLive l env id hold t
      → find_wallet l.identity.wallet_id t.wallets ≡ some row
      → leb_ℤ hold.amount_micros row.reserved_micros ≡ true
      → ltb_ℤ (available_after_release row hold.amount_micros) (pos 0) ≡ false
      → ltb_ℤ (available_after_release row hold.amount_micros) actual ≡ false
      → (fits_int64 (row.balance_micros -ℤ actual)
          && fits_int64 (row.reserved_micros -ℤ hold.amount_micros))
        ≡ true
      → has_key l.identity.wallet_id id t.entries ≡ false
      → granted (settle l env id actual row t) ≡ true
  unfolding settle
  settle-healthy id actual hold row t (h, own, live) found small nonneg affordable fits fresh =
      let deleted : Database = record t { reservations = delete_reservation id t.reservations } in
      let debits = debit_funds-healthy actual hold.amount_micros row deleted found fits in
      let written =
        write_debit_entry-healthy id actual (funded actual hold.amount_micros deleted) fresh in
      ground (arith, healthy.answers delete_returning, debits, written)

  commit_body-healthy :
      (opening : ℤ) (id : Text) (actual : ℤ) (hold : ReservationRow) (t : Database)
      (a : Accounted l.identity.wallet_id opening t)
      → IsActive l a.row t
      → IsLive l env id hold t
      → pos 0 ≤ℤ actual
      → Affords l env opening actual hold a
      → has_key l.identity.wallet_id id t.entries ≡ false
      → granted (commit_body l env id actual t) ≡ true
  unfolding commit_body
  commit_body-healthy opening id actual hold t a active live h0 room fresh =
      let (found, own, _) = live in
      let (amount0, below) = amount-le l env opening id hold t a found own in
      let exact = affordable_exact l env opening id hold t a found own in
      let checked_status : check_status l a.row t ≡ (ok tt, t) = rw (active.wallet_active) refl in
      ap granted (
        bind-ok (lock_wallet l env true) (λ row. check_status l row >> settle l env id actual row) t
          a.row t (lock_wallet-healthy l env healthy a.row t a.found active)
        ∙ bind-ok (check_status l a.row) (λ _. settle l env id actual a.row) t tt t checked_status)
      ∙ settle-healthy id actual hold a.row t live a.found (grind (int_laws, below))
          (rw exact (grind (int_laws, below, a.covered))) (rw exact (grind (int_laws, room)))
          (grind (int_laws, below, amount0, a.covered, a.small, room)) fresh

  -- On a wallet whose account holds, with a database that does not fail, an active wallet of an
  -- active user of an active tenant, an open handle whose reservation has not expired, an actual
  -- cost that the balance affords, and no entry under its key yet, Commit reports success.
  pub commit_succeeds :
      (opening : ℤ) (actual : ℤ) (r : WalletReservation) (hold : ReservationRow) (t : Database)
      (a : Accounted l.identity.wallet_id opening t)
      → IsActive l a.row t
      → r.done ≡ false
      → IsLive l env r.id hold t
      → Affords l env opening (clamp actual) hold a
      → has_key l.identity.wallet_id r.id t.entries ≡ false
      → is_ok (commit background l env actual r t).0 ≡ true
  unfolding commit
  commit_succeeds opening actual r hold t a active is_open live room fresh =
      let good =
        transaction-answers env.faults "postgres wallet: begin settlement: %w"
          (commit_body l env r.id (clamp actual)) t healthy.begins healthy.commits
        ∙ commit_body-healthy opening r.id (clamp actual) hold t a active live (clamp_nonneg actual)
            room fresh in
      simp is_open (marked _ good)
    where
      marked :
          (c : Result (Unit {0}) × Database) → is_ok c.0 ≡ true → is_ok (mark_done r c).0 ≡ true
      marked (ok _, t') e = refl
      marked (err _, t') e = e
