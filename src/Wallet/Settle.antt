-- ===== src/Wallet/Settle.antt =====
-- nexssflow/wallet.go: Commit, settle and Release.
use cost.Prelude.{
  ℤ, pos, ◌-ℤ◌, ltb_ℤ, leb_ℤ, true, false, not, ◌&&◌, ◌||◌, if◌then◌else◌, none, some, [], ◌∷◌,
}
use cost.Int64.{sub64}
use cost.Text.{Text}
use cost.Errors.{
  Context, context_error, sentinel, message, errorf, num, txt, err_budget_exceeded,
  err_reservation_not_found, Result, ok, err, checked,
}
use cost.Reservation.{clamp}
use cost.Sql.{
  Tx, ◌>>=◌, ◌>>◌, pure, gets, modify, attempt, require, check, fits_int64, Finish, transaction,
}
use cost.Postgres.Tables.{find_reservation, delete_reservation}
use cost.Wallet.Tables.{WalletRow, debit, Database, find_wallet, update_wallet, held_by, has_key}
use cost.Wallet.Base.{
  WalletLedger, delete_returning, debit_wallet, write_debit, release_funds, Environment,
  lock_wallet, check_status, out_of_range, WalletReservation,
}

-- `balance - (reserved - held)` of settle
abbrev pub available_after_release : WalletRow → ℤ → ℤ
available_after_release row amount = sub64 row.balance_micros (sub64 row.reserved_micros amount)

-- The debit entry of settle, if there is one.
unfoldable pub write_debit_entry : WalletLedger → Environment → Text → ℤ → Tx Database (Unit {0})
write_debit_entry l env id actual =
    if ltb_ℤ (pos 0) actual
    then attempt "postgres wallet: write debit entry: %w" (env.faults.statement_error write_debit)
      >> (gets (λ t. has_key l.identity.wallet_id id t.entries) >>= λ known.
          check (not known)
            (errorf "postgres wallet: write debit entry: %w" [] (message "duplicate key value" [])))
      >> modify (λ t. record t {
        entries =
            record {
              wallet_id = l.identity.wallet_id;
              entry_type = debit;
              amount_micros = actual;
              idempotency_key = id;
              domain = l.domain;
              operation = l.operation;
            }
            ∷ t.entries;
      })
    else pure tt

-- The debit of settle: the expressions of its UPDATE, on the row as it is then.
unfoldable pub debit_funds :
    WalletLedger → Environment → (actual amount : ℤ) → Tx Database (Unit {0})
debit_funds l env actual amount = do
  attempt "postgres wallet: debit wallet: %w" (env.faults.statement_error debit_wallet)
  wallet ← gets (λ t. find_wallet l.identity.wallet_id t.wallets)
  check
      (elim wallet [
        | none ↦ true
        | some w ↦
            fits_int64 (w.balance_micros -ℤ actual) && fits_int64 (w.reserved_micros -ℤ amount)
      ])
      (errorf "postgres wallet: debit wallet: %w" [] out_of_range)
  modify (λ t. record t {
    wallets =
        update_wallet l.identity.wallet_id
          (λ w. record w {
            balance_micros = w.balance_micros -ℤ actual;
            reserved_micros = w.reserved_micros -ℤ amount;
          })
          t.wallets;
  })

-- (*walletReservation).settle, with the row that lockWallet has read.
unfoldable pub settle :
    WalletLedger → Environment → Text → ℤ → WalletRow → Tx Database (Finish (Unit {0}))
settle l env id actual row = do
  attempt "postgres wallet: load settlement reservation: %w"
      (env.faults.statement_error delete_returning)
  hold ← λ t.
      require (held_by l.identity.wallet_id env.now true (find_reservation id t.reservations))
        (errorf "%w: %s" (txt id ∷ []) (sentinel err_reservation_not_found)) t
  modify (λ t. record t { reservations = delete_reservation id t.reservations })
  check (leb_ℤ hold.amount_micros row.reserved_micros) (
      message "postgres wallet: reservation invariant violated for wallet %q"
        (txt l.identity.wallet_id ∷ []))
  let available = available_after_release row hold.amount_micros
  check (not (ltb_ℤ available (pos 0) || ltb_ℤ available actual)) (
      errorf "%w: wallet=%s available_after_release=%d actual=%d"
        (txt l.identity.wallet_id ∷ num available ∷ num actual ∷ []) (sentinel err_budget_exceeded))
  debit_funds l env actual hold.amount_micros
  write_debit_entry l env id actual
  pure (record { commit_format = "postgres wallet: commit settlement: %w"; result = ok tt })

-- The body of Commit's transaction.
unfoldable pub commit_body : WalletLedger → Environment → Text → ℤ → Tx Database (Finish (Unit {0}))
commit_body l env id actual = do
  row ← lock_wallet l env true
  check_status l row
  settle l env id actual row

-- `r.done = true` after a transaction that reported success.
abbrev pub mark_done :
    WalletReservation
    → Result (Unit {0}) × Database
    → Result (Unit {0}) × (WalletReservation × Database)
mark_done r (ok _, t) = (ok tt, (record r { done = true }, t))
mark_done r (err e, t) = (err e, (r, t))

-- (*walletReservation).Commit
unfoldable pub commit :
    Context
    → WalletLedger
    → Environment
    → ℤ
    → WalletReservation
    → Database
    → Result (Unit {0}) × (WalletReservation × Database)
commit ctx l env actual r t =
    let settled =
      transaction env.faults "postgres wallet: begin settlement: %w"
        (commit_body l env r.id (clamp actual)) t in
    checked (context_error ctx) (r, t) (if r.done then (ok tt, (r, t)) else mark_done r settled)

-- Release after lockWallet, up to the Commit of the transaction.
unfoldable pub release_locked : WalletLedger → Environment → Text → Tx Database (Finish (Unit {0}))
release_locked l env id = do
  attempt "postgres wallet: release reservation: %w" (env.faults.statement_error delete_returning)
  hold ← λ t.
      require (held_by l.identity.wallet_id env.now false (find_reservation id t.reservations))
        (errorf "%w: %s" (txt id ∷ []) (sentinel err_reservation_not_found)) t
  modify (λ t. record t { reservations = delete_reservation id t.reservations })
  attempt "postgres wallet: release held funds: %w" (env.faults.statement_error release_funds)
  wallet ← gets (λ t. find_wallet l.identity.wallet_id t.wallets)
  check
      (elim wallet [ none ↦ true | some w ↦ fits_int64 (w.reserved_micros -ℤ hold.amount_micros) ])
      (errorf "postgres wallet: release held funds: %w" [] out_of_range)
  modify (λ t. record t {
    wallets =
        update_wallet l.identity.wallet_id
          (λ w. record w { reserved_micros = w.reserved_micros -ℤ hold.amount_micros }) t.wallets;
  })
  pure (record { commit_format = "postgres wallet: commit release: %w"; result = ok tt })

-- The body of Release's transaction.
unfoldable pub release_body : WalletLedger → Environment → Text → Tx Database (Finish (Unit {0}))
release_body l env id = do _ ← lock_wallet l env false; release_locked l env id

-- (*walletReservation).Release
unfoldable pub release :
    Context
    → WalletLedger
    → Environment
    → WalletReservation
    → Database
    → Result (Unit {0}) × (WalletReservation × Database)
release ctx l env r t =
    let settled =
      transaction env.faults "postgres wallet: begin release: %w" (release_body l env r.id) t in
    checked (context_error ctx) (r, t) (if r.done then (ok tt, (r, t)) else mark_done r settled)
