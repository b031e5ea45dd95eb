-- ===== src/Wallet/Holding.antt =====
-- What Reserve of nexssflow/wallet.go holds when it grants, and what Release gives back.
use cost.Prelude.{◌≡◌, refl, ℤ, not, true, false, some, inl, inr, arith, if-elim}
use cost.Text.{Text}
use cost.Errors.{Context, context_error, background, Result, ok, err, is_ok, checked-elim}
use cost.Ledger.{invalid_estimate}
use cost.Sql.{Finish}
use cost.Sql.Rules.{OnOk, OnOk-mono, transaction-OnOk}
use cost.Postgres.Tables.{ReservationRow, find_reservation}
use cost.Wallet.Tables.{Database}
use cost.Wallet.Base.{WalletLedger, Environment, WalletReservation}
use cost.Wallet.Reserve.{reserve, reserve_with, reserve_body}
use cost.Wallet.Settle.{release, release_body, mark_done}
use cost.Wallet.Accounts.{Accounted, left_after, reclaimed_database, held_database}
use cost.Wallet.Steps.{
  HoldEffect, reserve_body-OnOk, ReleaseEffect, release_locked-OnOk, release_body-OnOk,
  released_database,
}

module _ (l : WalletLedger) (env : Environment) (opening : ℤ) where
  -- The handle is open, and the tables hold the estimate, without what had expired.
  abbrev pub IsHeld :
      ℤ
      → {t : Database} → Accounted l.identity.wallet_id opening t
      → WalletReservation
      → Database
      → Type 0
  IsHeld estimate {t} a r t' =
      (id : Text) × (r ≡ record { id = id; done = false })
      × (t'
          ≡ held_database l env id estimate (left_after l env a.row t)
              (reclaimed_database l env a.row t))

  finished :
      (estimate : ℤ) (id : Text) (t : Database) (a : Accounted l.identity.wallet_id opening t)
      (f : Finish WalletReservation) (t' : Database)
      → HoldEffect l env id estimate a.row.balance_micros
          (left_after l env a.row t)
          (reclaimed_database l env a.row t)
          f
          t'
      → OnOk (IsHeld estimate a) (f.result, t')
  finished estimate id t a f t' (inl (refused, _)) = ground (arith, refused)
  finished estimate id t a f t' (inr (_, made, tables)) = rw (made, tables) (id, refl, refl)

  with_id :
      (estimate : ℤ) (new_id : Result Text) (t : Database)
      (a : Accounted l.identity.wallet_id opening t)
      → OnOk (IsHeld estimate a) (reserve_with l env estimate new_id t)
  unfolding reserve_with
  with_id estimate (err e) t a = tt
  with_id estimate (ok id) t a =
      transaction-OnOk (IsHeld estimate a) env.faults "postgres wallet: begin reservation: %w"
        (reserve_body l env id estimate) t
        (OnOk-mono _ _ (reserve_body l env id estimate t) (finished estimate id t a)
          (reserve_body-OnOk l env id estimate a.row t a.found))

  pub reserve-IsHeld :
      (ctx : Context) (estimate : ℤ) (t : Database) (a : Accounted l.identity.wallet_id opening t)
      → OnOk (IsHeld estimate a) (reserve ctx l env estimate t)
  unfolding reserve
  reserve-IsHeld ctx estimate t a =
      checked-elim P (context_error ctx) t (λ _ _. tt)
        (λ _.
          if-elim P (invalid_estimate estimate) (λ _. tt)
            (λ _. if-elim P (not l.connected) (λ _. tt) (λ _. with_id estimate env.new_id t a)))
    where
      P : Result WalletReservation × Database → Type 0
      P = OnOk (IsHeld estimate a)

  -- A release that reports success has deleted the reservation and given its amount back.
  pub release_lem :
      (r : WalletReservation) (hold : ReservationRow) (t : Database)
      → Accounted l.identity.wallet_id opening t
      → r.done ≡ false
      → find_reservation r.id t.reservations ≡ some hold
      → is_ok (release background l env r t).0 ≡ true
      → (release background l env r t).1.1 ≡ released_database l env r.id hold t
  unfolding release
  release_lem r hold t a is_open found good =
      if-elim P r.done (λ closed _. ground (arith, is_open, closed))
        (λ _ granted. marked _ granted (
          transaction-OnOk (λ _ t'. t' ≡ released_database l env r.id hold t) env.faults
            "postgres wallet: begin release: %w" (release_body l env r.id) t
            (OnOk-mono _ _ (release_body l env r.id t) (λ f t' q. rw q.1 q.2)
              (release_body-OnOk l env (ReleaseEffect l env r.id hold t) r.id a.row t a.found
                (release_locked-OnOk l env r.id hold t found)))))
        good
    where
      P : Result (Unit {0}) × (WalletReservation × Database) → Type 0
      P c = is_ok c.0 ≡ true → c.1.1 ≡ released_database l env r.id hold t

      marked :
          (c : Result (Unit {0}) × Database)
          → is_ok (mark_done r c).0 ≡ true
          → OnOk (λ _ t'. t' ≡ released_database l env r.id hold t) c
          → (mark_done r c).1.1 ≡ released_database l env r.id hold t
      marked (ok _, t') e h = h
      marked (err _, t') e h = ground (arith, e)
