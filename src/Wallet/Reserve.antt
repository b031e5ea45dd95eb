-- ===== src/Wallet/Reserve.antt =====
-- nexssflow/wallet.go: Reserve and its helpers.
use cost.Prelude.{
  ◌+◌, ℤ, pos, ltb_ℤ, leb_ℤ, true, false, not, ◌||◌, if◌then◌else◌, none, some, [], ◌∷◌,
}
use cost.Int64.{add64, sub64}
use cost.Text.{Text}
use cost.Errors.{
  Context, context_error, sentinel, validation, message, errorf, num, txt, err_budget_exceeded,
  Result, ok, err, checked,
}
use cost.Ledger.{invalid_estimate}
use cost.Sql.{Tx, ◌>>=◌, ◌>>◌, pure, gets, modify, attempt, check, fits_int64, Finish, transaction}
use cost.Postgres.Tables.{find_reservation, delete_expired, expired_sum}
use cost.Wallet.Tables.{WalletRow, Database}
use cost.Wallet.Base.{
  WalletLedger, reclaim, insert_reservation, Environment, lease, wrapped, update_reserved_amount,
  lock_wallet, check_status, out_of_range, nil_database, WalletReservation,
}

-- (*walletLedger).reclaimExpired
unfoldable pub reclaim_expired : WalletLedger → Environment → ℤ → Tx Database ℤ
unfolding update_reserved_amount
reclaim_expired l env reserved = do
  attempt "postgres wallet: reclaim expired reservations: %w" (env.faults.statement_error reclaim)
  reclaimed ← gets (λ t. expired_sum l.identity.wallet_id env.now t.reservations)
  check (fits_int64 reclaimed)
      (errorf "postgres wallet: reclaim expired reservations: %w" [] out_of_range)
  modify
      (λ t. record t { reservations = delete_expired l.identity.wallet_id env.now t.reservations })
  check (leb_ℤ reclaimed reserved) (
      message "postgres wallet: reservation invariant violated for wallet %q"
        (txt l.identity.wallet_id ∷ []))
  let left = sub64 reserved reclaimed
  if ltb_ℤ (pos 0) reclaimed
      then wrapped "postgres wallet: release expired holds: %w" (update_reserved_amount l env left)
        >> pure left
      else pure left

-- (*walletLedger).insertReservation
unfoldable pub insert_reservation_row :
    WalletLedger → Environment → Text → ℤ → Tx Database (Unit {0})
insert_reservation_row l env id estimate = do
  attempt "postgres wallet: insert reservation: %w" (env.faults.statement_error insert_reservation)
  known ← gets (λ t. find_reservation id t.reservations)
  check (elim known [ none ↦ true | some _ ↦ false ])
      (errorf "postgres wallet: insert reservation: %w" [] (message "duplicate key value" []))
  modify (λ t. record t {
    reservations =
        record {
          id = id;
          scope = l.identity.wallet_id;
          amount_micros = estimate;
          expires_at = env.now + lease l;
        }
        ∷ t.reservations;
  })

-- The tests of Reserve on the balance, and what follows them. A refusal commits too, so that what
-- was reclaimed stays free.
unfoldable pub hold_funds :
    WalletLedger
    → Environment
    → Text
    → (estimate balance reserved : ℤ) → Tx Database (Finish WalletReservation)
unfolding insert_reservation_row update_reserved_amount
hold_funds l env id estimate balance reserved = do
  check (not (ltb_ℤ balance (pos 0) || (ltb_ℤ reserved (pos 0) || ltb_ℤ balance reserved))) (
      message "postgres wallet: invalid balance state for wallet %q"
        (txt l.identity.wallet_id ∷ []))
  if ltb_ℤ (sub64 balance reserved) estimate
      then pure (record {
        commit_format = "postgres wallet: commit expired-reservation cleanup: %w";
        result = err (
            errorf "%w: wallet=%s available=%d estimate=%d"
              (txt l.identity.wallet_id ∷ num (sub64 balance reserved) ∷ num estimate ∷ [])
              (sentinel err_budget_exceeded));
      })
      else insert_reservation_row l env id estimate
        >> update_reserved_amount l env (add64 reserved estimate)
        >> pure (record {
          commit_format = "postgres wallet: commit reservation: %w";
          result = ok (record { id = id; done = false });
        })

-- Reserve from the status of the locked row on.
unfoldable pub reserve_locked :
    WalletLedger → Environment → Text → ℤ → WalletRow → Tx Database (Finish WalletReservation)
reserve_locked l env id estimate row = do
  check_status l row
  reserved ← reclaim_expired l env row.reserved_micros
  hold_funds l env id estimate row.balance_micros reserved

-- The body of Reserve's transaction.
unfoldable pub reserve_body :
    WalletLedger → Environment → Text → ℤ → Tx Database (Finish WalletReservation)
reserve_body l env id estimate = do
  row ← lock_wallet l env true
  reserve_locked l env id estimate row

-- The rest of beginReservation once the estimate is valid, and the transaction.
unfoldable pub reserve_with :
    WalletLedger → Environment → ℤ → Result Text → Tx Database WalletReservation
reserve_with l env estimate (err e) t = (err (errorf "postgres wallet: reservation id: %w" [] e), t)
reserve_with l env estimate (ok id) t =
    transaction env.faults "postgres wallet: begin reservation: %w" (reserve_body l env id estimate)
      t

-- (*walletLedger).Reserve, with validateWalletContext, validateEstimate and beginReservation
unfoldable pub reserve : Context → WalletLedger → Environment → ℤ → Tx Database WalletReservation
reserve ctx l env estimate t =
    let rest = reserve_with l env estimate env.new_id t in
    checked (context_error ctx) t (
      if invalid_estimate estimate
      then (err (validation "estimate_micros" estimate), t)
      else if not l.connected
      then (err nil_database, t)
      else rest)
