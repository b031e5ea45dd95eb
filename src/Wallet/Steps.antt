-- ===== src/Wallet/Steps.antt =====
-- What the parts of a transaction of nexssflow/wallet.go do to the tables when no statement fails.
use cost.Prelude.{
  ltb, ◌≡◌, ◌⊎◌, ℤ, pos, ◌-ℤ◌, ltb_ℤ, leb_ℤ, Bool, true, false, if◌then◌else◌, some, none, List,
  ◌∷◌, arith,
}
use cost.Int64.{sub64}
use cost.Text.{Text, text_eqb}
use cost.Errors.{ok, is_ok}
use cost.Sql.{◌>>=◌, ◌>>◌, Finish}
use cost.Sql.Rules.{OnOk, bind-OnOk, check-OnOk}
use cost.Postgres.Tables.{ReservationRow, find_reservation, delete_reservation}
use cost.Wallet.Tables.{WalletRow, WalletEntry, debit, Database, find_wallet, update_wallet}
use cost.Wallet.Base.{
  WalletLedger, Environment, WalletReservation, lock_wallet, check_status, active_status,
}
use cost.Wallet.Reserve.{reclaim_expired, hold_funds, reserve_locked, reserve_body}
use cost.Wallet.Settle.{
  debit_funds, write_debit_entry, available_after_release, settle, commit_body, release_locked,
  release_body,
}
use cost.Wallet.Accounts.{left_after, reclaimed_database, held_database}

module _ (l : WalletLedger) (env : Environment) where
  -- The row comes from the table, and nothing is written.
  pub lock_wallet-OnOk :
      (require_active_owner : Bool) (row : WalletRow) (t : Database)
      → find_wallet l.identity.wallet_id t.wallets ≡ some row
      → OnOk (λ w t'. (w ≡ row) × (t' ≡ t)) (lock_wallet l env require_active_owner t)
  unfolding lock_wallet
  lock_wallet-OnOk true row t h = ground arith
  lock_wallet-OnOk false row t h = ground arith

  pub reclaim_expired-OnOk :
      (row : WalletRow) (t : Database)
      → OnOk
          (λ left t'. (left ≡ left_after l env row t) × (t' ≡ reclaimed_database l env row t))
          (reclaim_expired l env row.reserved_micros t)
  unfolding reclaim_expired
  reclaim_expired-OnOk row t = ground arith

  abbrev pub HoldEffect :
      Text
      → (estimate balance reserved : ℤ) → Database
      → Finish WalletReservation
      → Database
      → Type 0
  HoldEffect id estimate balance reserved t f t' =
      ((is_ok f.result ≡ false) × (t' ≡ t))
      ⊎ ((ltb_ℤ (sub64 balance reserved) estimate ≡ false)
          × (f.result ≡ ok (record { id = id; done = false }))
          × (t' ≡ held_database l env id estimate reserved t))

  hold_funds-OnOk :
      (id : Text) (estimate balance reserved : ℤ) (t : Database)
      → OnOk
          (HoldEffect id estimate balance reserved t)
          (hold_funds l env id estimate balance reserved t)
  unfolding hold_funds
  hold_funds-OnOk id estimate balance reserved t = ground arith

  -- How the body of Reserve ends, if no statement fails: it has reclaimed what expired, and then
  -- refused or held the estimate.
  module _ (id : Text) (estimate : ℤ) (row : WalletRow) where
    abbrev pub ReserveEffect : Database → Finish WalletReservation → Database → Type 0
    ReserveEffect t =
        HoldEffect id estimate row.balance_micros (left_after l env row t)
          (reclaimed_database l env row t)

    reserve_locked-OnOk :
        (t : Database) → OnOk (ReserveEffect t) (reserve_locked l env id estimate row t)
    unfolding reserve_locked
    reserve_locked-OnOk t =
        bind-OnOk (λ _ t'. (text_eqb row.status active_status ≡ true) × (t' ≡ t)) (ReserveEffect t)
          (check_status l row)
          (λ _.
            reclaim_expired l env row.reserved_micros
            >>= hold_funds l env id estimate row.balance_micros)
          t (check-OnOk (text_eqb row.status active_status) _ t)
          (λ _ t' q. rw q.1 (
            bind-OnOk
              (λ left t'. (left ≡ left_after l env row t) × (t' ≡ reclaimed_database l env row t))
              (ReserveEffect t) (reclaim_expired l env row.reserved_micros)
              (hold_funds l env id estimate row.balance_micros) t (reclaim_expired-OnOk row t)
              (λ left t' q.
                rw (q.0, q.1)
                  (hold_funds-OnOk id estimate row.balance_micros (left_after l env row t)
                    (reclaimed_database l env row t)))))

    pub reserve_body-OnOk :
        (t : Database)
        → find_wallet l.identity.wallet_id t.wallets ≡ some row
        → OnOk (ReserveEffect t) (reserve_body l env id estimate t)
    unfolding reserve_body
    reserve_body-OnOk t h =
        bind-OnOk (λ w t'. (w ≡ row) × (t' ≡ t)) (ReserveEffect t) (lock_wallet l env true)
          (reserve_locked l env id estimate) t (lock_wallet-OnOk true row t h)
          (λ w t' q. rw (q.0, q.1) (reserve_locked-OnOk t))

  abbrev debited : ℤ → ReservationRow → WalletRow → WalletRow
  debited actual hold w = record w {
    balance_micros = w.balance_micros -ℤ actual;
    reserved_micros = w.reserved_micros -ℤ hold.amount_micros;
  }

  -- The entries with the debit, if there is one.
  abbrev pub debit_entries : Text → ℤ → List WalletEntry → List WalletEntry
  debit_entries id actual entries =
      if ltb_ℤ (pos 0) actual
      then record {
        wallet_id = l.identity.wallet_id;
        entry_type = debit;
        amount_micros = actual;
        idempotency_key = id;
        domain = l.domain;
        operation = l.operation;
      }
        ∷ entries
      else entries

  abbrev pub settled_database : Text → ℤ → ReservationRow → Database → Database
  settled_database id actual hold t = record t {
    reservations = delete_reservation id t.reservations;
    wallets = update_wallet l.identity.wallet_id (debited actual hold) t.wallets;
    entries = debit_entries id actual t.entries;
  }

  -- What settle does, if no statement fails: the hold is of this wallet and has not expired, and
  -- the actual cost fits beside the other holds.
  abbrev pub SettleEffect :
      Text → ℤ → ReservationRow → WalletRow → Database → Finish (Unit {0}) → Database → Type 0
  SettleEffect id actual hold row t f t' =
      (text_eqb hold.scope l.identity.wallet_id ≡ true)
      × (ltb env.now hold.expires_at ≡ true)
      × (leb_ℤ hold.amount_micros row.reserved_micros ≡ true)
      × (ltb_ℤ (available_after_release row hold.amount_micros) actual ≡ false)
      × (f.result ≡ ok tt)
      × (t' ≡ settled_database id actual hold t)

  pub settle-OnOk :
      (id : Text) (actual : ℤ) (hold : ReservationRow) (row : WalletRow) (t : Database)
      → find_reservation id t.reservations ≡ some hold
      → OnOk (SettleEffect id actual hold row t) (settle l env id actual row t)
  unfolding settle debit_funds write_debit_entry
  settle-OnOk id actual hold row t h = ground arith

  pub settle_missing :
      (id : Text) (actual : ℤ) (row : WalletRow) (t : Database)
      → find_reservation id t.reservations ≡ none
      → OnOk (λ _ _. ⊥) (settle l env id actual row t)
  unfolding settle debit_funds write_debit_entry
  settle_missing id actual row t h = ground arith

  -- Commit does what settle does on the locked row.
  pub commit_body-OnOk :
      (Q : Finish (Unit {0}) → Database → Type 0) (id : Text) (actual : ℤ) (row : WalletRow)
      (t : Database)
      → find_wallet l.identity.wallet_id t.wallets ≡ some row
      → OnOk Q (settle l env id actual row t)
      → OnOk Q (commit_body l env id actual t)
  unfolding commit_body
  commit_body-OnOk Q id actual row t h after =
      bind-OnOk (λ w t'. (w ≡ row) × (t' ≡ t)) Q (lock_wallet l env true)
        (λ w. check_status l w >> settle l env id actual w) t (lock_wallet-OnOk true row t h)
        (λ w t' q.
          rw (q.0, q.1)
            (bind-OnOk (λ _ t'. (text_eqb row.status active_status ≡ true) × (t' ≡ t)) Q
              (check_status l row) (λ _. settle l env id actual row) t
              (check-OnOk (text_eqb row.status active_status) _ t) (λ _ t' q. rw q.1 after)))

  abbrev pub released_database : Text → ReservationRow → Database → Database
  released_database id hold t = record t {
    reservations = delete_reservation id t.reservations;
    wallets =
        update_wallet l.identity.wallet_id
          (λ w. record w { reserved_micros = w.reserved_micros -ℤ hold.amount_micros }) t.wallets;
  }

  abbrev pub ReleaseEffect :
      Text → ReservationRow → Database → Finish (Unit {0}) → Database → Type 0
  ReleaseEffect id hold t f t' =
      (text_eqb hold.scope l.identity.wallet_id ≡ true)
      × (f.result ≡ ok tt)
      × (t' ≡ released_database id hold t)

  pub release_locked-OnOk :
      (id : Text) (hold : ReservationRow) (t : Database)
      → find_reservation id t.reservations ≡ some hold
      → OnOk (ReleaseEffect id hold t) (release_locked l env id t)
  unfolding release_locked
  release_locked-OnOk id hold t h = ground arith

  pub release_missing :
      (id : Text) (t : Database)
      → find_reservation id t.reservations ≡ none
      → OnOk (λ _ _. ⊥) (release_locked l env id t)
  unfolding release_locked
  release_missing id t h = ground arith

  pub release_body-OnOk :
      (Q : Finish (Unit {0}) → Database → Type 0) (id : Text) (row : WalletRow) (t : Database)
      → find_wallet l.identity.wallet_id t.wallets ≡ some row
      → OnOk Q (release_locked l env id t)
      → OnOk Q (release_body l env id t)
  unfolding release_body
  release_body-OnOk Q id row t h after =
      bind-OnOk (λ w t'. (w ≡ row) × (t' ≡ t)) Q (lock_wallet l env false)
        (λ _. release_locked l env id) t (lock_wallet-OnOk false row t h) (λ w t' q. rw q.1 after)
