-- ===== src/Wallet/Availability.antt =====
-- When the database answers, Reserve of nexssflow/wallet.go grants exactly what the wallet can pay
-- beside the holds that have not expired, and Commit settles what is live and affordable.
use cost.Prelude.{
  ◌≡◌, refl, ap, ◌∙◌, ◌↔◌, inl, inr, ℤ, pos, ◌+ℤ◌, ◌-ℤ◌, ◌≤ℤ◌, ltb_ℤ, leb_ℤ, not, Bool, true, false,
  if◌then◌else◌, none, some, arith, int_laws, Bool-cases,
}
use cost.Int64.{max_int64, sub64, wrap, to_bits, of_bits}
use cost.Text.{Text, text_eqb}
use cost.Errors.{background, ok, is_ok}
use cost.Currency.{to_string}
use cost.Ledger.{invalid_estimate}
use cost.Ledger.Admission.{IsEstimate}
use cost.Sql.{committed, fits_int64, ◌>>=◌}
use cost.Sql.Rules.{bind-ok, granted, transaction-answers}
use cost.Postgres.Tables.{find_reservation, delete_expired, held}
use cost.Postgres.Rows.{
  held-delete_expired, held_nonneg, expired_sum_nonneg, delete_expired-AllNonneg,
}
use cost.Postgres.Availability.{find_reservation-delete_expired}
use cost.Wallet.Tables.{
  WalletRow, TenantRow, UserRow, Database, find_wallet, find_tenant, find_user,
}
use cost.Wallet.Base.{
  WalletLedger, Environment, Statement, lock, reclaim, update_reserved, insert_reservation,
  lock_wallet, check_status, active_status,
}
use cost.Wallet.Reserve.{
  reclaim_expired, hold_funds, reserve_locked, reserve_body, reserve_with, reserve,
}
use cost.Wallet.Accounts.{Accounted, left_after, left_after_exact, reclaimed, reclaimed_database}

-- The wallet belongs to the identity of the ledger, all of it is active, and the currency is the
-- ledger's.
pub record IsActive (l : WalletLedger) (row : WalletRow) (t : Database) : Type 0 where
  pub tenant : TenantRow
  pub user : UserRow
  pub tenant_found : find_tenant l.identity.tenant_id t.tenants ≡ some tenant
  pub user_found : find_user l.identity.tenant_id l.identity.user_id t.users ≡ some user
  pub owner : text_eqb row.tenant_id l.identity.tenant_id ≡ true
  pub owning_user : text_eqb row.user_id l.identity.user_id ≡ true
  pub same_currency : text_eqb row.currency (to_string l.currency) ≡ true
  pub tenant_active : text_eqb tenant.status active_status ≡ true
  pub user_active : text_eqb user.status active_status ≡ true
  pub wallet_active : text_eqb row.status active_status ≡ true

-- The database answers every statement.
pub record IsHealthy (env : Environment) : Type 0 where
  pub begins : env.faults.begin_error ≡ none
  pub answers : (s : Statement) → env.faults.statement_error s ≡ none
  pub commits : env.faults.commit_outcome ≡ committed

module _ (l : WalletLedger) (env : Environment) (healthy : IsHealthy env) where
  pub lock_wallet-healthy :
      (row : WalletRow) (t : Database)
      → find_wallet l.identity.wallet_id t.wallets ≡ some row
      → IsActive l row t
      → lock_wallet l env true t ≡ (ok row, t)
  unfolding lock_wallet
  lock_wallet-healthy row t h active = ground (arith, healthy.answers lock)

  reclaim_expired-healthy :
      (row : WalletRow) (t : Database)
      → fits_int64 (reclaimed l env t) ≡ true
      → leb_ℤ (reclaimed l env t) row.reserved_micros ≡ true
      → reclaim_expired l env row.reserved_micros t
        ≡ (ok (left_after l env row t), reclaimed_database l env row t)
  unfolding reclaim_expired
  reclaim_expired-healthy row t f h =
      ground (arith, healthy.answers reclaim, healthy.answers update_reserved)

  hold_funds-healthy :
      (id : Text) (estimate balance reserved : ℤ) (t : Database)
      → find_reservation id t.reservations ≡ none
      → pos 0 ≤ℤ reserved
      → reserved ≤ℤ balance
      → granted (hold_funds l env id estimate balance reserved t)
        ≡ not (ltb_ℤ (sub64 balance reserved) estimate)
  unfolding hold_funds
  hold_funds-healthy id estimate balance reserved t free h0 h =
      ground (arith, healthy.answers insert_reservation, healthy.answers update_reserved)

  -- Does the balance left by the other holds admit the estimate?
  abbrev admits : ℤ → WalletRow → Database → Bool
  admits estimate row t = not (ltb_ℤ (sub64 row.balance_micros (left_after l env row t)) estimate)

  reserve_locked-healthy :
      (id : Text) (estimate : ℤ) (row : WalletRow) (t : Database)
      → text_eqb row.status active_status ≡ true
      → fits_int64 (reclaimed l env t) ≡ true
      → leb_ℤ (reclaimed l env t) row.reserved_micros ≡ true
      → find_reservation id t.reservations ≡ none
      → pos 0 ≤ℤ left_after l env row t
      → left_after l env row t ≤ℤ row.balance_micros
      → granted (reserve_locked l env id estimate row t) ≡ admits estimate row t
  unfolding reserve_locked
  reserve_locked-healthy id estimate row t active f h free h0 hb =
      let checked_status : check_status l row t ≡ (ok tt, t) = rw active refl in
      ap granted (
        bind-ok (check_status l row)
          (λ _.
            reclaim_expired l env row.reserved_micros
            >>= hold_funds l env id estimate row.balance_micros)
          t tt t checked_status
        ∙ bind-ok (reclaim_expired l env row.reserved_micros)
            (hold_funds l env id estimate row.balance_micros) t _ _
            (reclaim_expired-healthy row t f h))
      ∙ hold_funds-healthy id estimate row.balance_micros (left_after l env row t)
          (reclaimed_database l env row t)
          (find_reservation-delete_expired l.identity.wallet_id id env.now t.reservations free) h0
          hb

  reserve-healthy :
      (id : Text) (estimate : ℤ) (t : Database)
      → l.connected ≡ true
      → env.new_id ≡ ok id
      → is_ok (reserve background l env estimate t).0
        ≡ (if invalid_estimate estimate then false else granted (reserve_body l env id estimate t))
  unfolding reserve reserve_with
  reserve-healthy id estimate t c identified =
      simp (c, identified)
        (elim (Bool-cases (invalid_estimate estimate)) [
          | inl bad ↦ rw bad
          | inr good ↦ rw good (
              transaction-answers env.faults "postgres wallet: begin reservation: %w"
                (reserve_body l env id estimate) t healthy.begins healthy.commits)
        ])

  reserve_body-healthy :
      (opening : ℤ) (id : Text) (estimate : ℤ) (t : Database)
      (a : Accounted l.identity.wallet_id opening t)
      → IsActive l a.row t
      → find_reservation id t.reservations ≡ none
      → granted (reserve_body l env id estimate t) ≡ admits estimate a.row t
  unfolding reserve_body
  reserve_body-healthy opening id estimate t a active free =
      let left : left_after l env a.row t
          ≡ held l.identity.wallet_id (delete_expired l.identity.wallet_id env.now t.reservations) =
        left_after_exact l env opening t a in
      let sums = held-delete_expired l.identity.wallet_id env.now t.reservations in
      let sum0 : pos 0 ≤ℤ reclaimed l env t =
        expired_sum_nonneg l.identity.wallet_id env.now t.reservations a.amounts in
      let kept0 =
        held_nonneg l.identity.wallet_id _
          (delete_expired-AllNonneg l.identity.wallet_id env.now t.reservations a.amounts) in
      ap granted (
        bind-ok (lock_wallet l env true) (reserve_locked l env id estimate) t a.row t
          (lock_wallet-healthy a.row t a.found active))
      ∙ reserve_locked-healthy id estimate a.row t active.wallet_active
          (grind (int_laws, sums, sum0, kept0, a.exact, a.covered, a.small))
          (grind (int_laws, sums, kept0, a.exact)) free (rw left kept0)
          (rw left (grind (int_laws, sums, sum0, a.exact, a.covered)))

  -- The tests of Reserve in exact arithmetic.
  admits_iff :
      (balance left estimate : ℤ)
      → pos 0 ≤ℤ left
      → left ≤ℤ balance
      → balance ≤ℤ max_int64
      → ((if invalid_estimate estimate then false else not (ltb_ℤ (sub64 balance left) estimate))
          ≡ true)
        ↔ (IsEstimate estimate × (left +ℤ estimate ≤ℤ balance))
  unfolding sub64 wrap to_bits of_bits ◌+ℤ◌ ◌-ℤ◌
  admits_iff balance left estimate h0 hb hm = (λ h. ground arith, λ h. ground arith)

  -- On a wallet whose account holds, with a database that does not fail, an active wallet of an
  -- active user of an active tenant, and a new id that is fresh, Reserve grants a reservation
  -- exactly for the valid estimates that fit in the balance beside what the unexpired reservations
  -- hold.
  pub wallet_reserve_iff :
      (opening : ℤ) (id : Text) (estimate : ℤ) (t : Database)
      (a : Accounted l.identity.wallet_id opening t)
      → IsActive l a.row t
      → l.connected ≡ true
      → env.new_id ≡ ok id
      → find_reservation id t.reservations ≡ none
      → (is_ok (reserve background l env estimate t).0 ≡ true) ↔ (
          IsEstimate estimate
          × (held l.identity.wallet_id (delete_expired l.identity.wallet_id env.now t.reservations)
                +ℤ estimate
              ≤ℤ a.row.balance_micros))
  wallet_reserve_iff opening id estimate t a active connected identified free =
      let left = left_after_exact l env opening t a in
      let kept0 =
        held_nonneg l.identity.wallet_id _
          (delete_expired-AllNonneg l.identity.wallet_id env.now t.reservations a.amounts) in
      let sums = held-delete_expired l.identity.wallet_id env.now t.reservations in
      let sum0 = expired_sum_nonneg l.identity.wallet_id env.now t.reservations a.amounts in
      rw
        (
          reserve-healthy id estimate t connected identified,
          reserve_body-healthy opening id estimate t a active free,
          left,
        )
        (admits_iff a.row.balance_micros _ estimate kept0
          (grind (int_laws, sums, sum0, a.exact, a.covered)) a.small)
