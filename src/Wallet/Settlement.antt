-- ===== src/Wallet/Settlement.antt =====
-- What Commit of nexssflow/wallet.go has done when it reports success or an error.
use Prim.Native.String.{String}
use cost.Prelude.{
  ◌≡◌, refl, ◌⊎◌, inl, inr, ℤ, ◌+ℤ◌, ◌-ℤ◌, ◌≤ℤ◌, ltb, true, false, some, arith, int_laws, if-elim,
  Option-cases,
}
use cost.Text.{Text, text_eqb}
use cost.Errors.{Context, context_error, Result, ok, err, checked-elim}
use cost.Reservation.{clamp}
use cost.Sql.{Finish, transaction}
use cost.Sql.Rules.{OnOk, OnOk-mono, transaction-keeps, transaction-OnOk}
use cost.Postgres.Tables.{ReservationRow, find_reservation}
use cost.Wallet.Tables.{Database}
use cost.Wallet.Base.{WalletLedger, Environment, WalletReservation}
use cost.Wallet.Settle.{settle, commit_body, mark_done, commit}
use cost.Wallet.Accounts.{Accounted}
use cost.Wallet.Steps.{
  SettleEffect, settle-OnOk, settle_missing, commit_body-OnOk, settled_database,
}
use cost.Wallet.Keeps.{affordable_exact}

module _ (l : WalletLedger) (env : Environment) where
  -- The reservation has a row of this wallet, which has not expired.
  abbrev pub IsLive : Text → ReservationRow → Database → Type 0
  IsLive id hold t =
      (find_reservation id t.reservations ≡ some hold)
      × (text_eqb hold.scope l.identity.wallet_id ≡ true)
      × (ltb env.now hold.expires_at ≡ true)

module _ (l : WalletLedger) (env : Environment) (opening : ℤ) where
  -- The actual cost fits in the balance beside what the other reservations hold.
  abbrev pub Affords :
      ℤ → ReservationRow → {t : Database} → Accounted l.identity.wallet_id opening t → Type 0
  Affords actual hold a =
      actual +ℤ (a.row.reserved_micros -ℤ hold.amount_micros) ≤ℤ a.row.balance_micros

  -- From `t` to `t'` a live reservation has been deleted, its amount taken out of what is reserved,
  -- and the actual cost, which was affordable, debited, with an entry if it is more than 0.
  abbrev pub Charged :
      Text → ℤ → {t : Database} → Accounted l.identity.wallet_id opening t → Database → Type 0
  Charged id actual {t} a t' =
      (hold : ReservationRow) × IsLive l env id hold t
      × Affords actual hold a
      × (t' ≡ settled_database l env id actual hold t)

  abbrev pub CommitEffect :
      ℤ
      → WalletReservation
      → {t : Database} → Accounted l.identity.wallet_id opening t
      → Result (Unit {0}) × (WalletReservation × Database)
      → Type 0
  CommitEffect actual r a (ok _, (r', t')) =
      (r' ≡ record r { done = true }) × Charged r.id actual a t'
  CommitEffect actual r {t} a (err e, (r', t')) = (r' ≡ r) × (t' ≡ t ⊎ Charged r.id actual a t')

  commit_body-Charged :
      (id : Text) (actual : ℤ) (t : Database) (a : Accounted l.identity.wallet_id opening t)
      → OnOk (λ f t'. (f.result ≡ ok tt) × Charged id actual a t') (commit_body l env id actual t)
  commit_body-Charged id actual t a =
      commit_body-OnOk l env (λ f t'. (f.result ≡ ok tt) × Charged id actual a t') id actual a.row t
        a.found
        (elim (Option-cases (find_reservation id t.reservations)) [
          | inl missing ↦
              OnOk-mono (λ _ _. ⊥) _ (settle l env id actual a.row t) (λ _ _ never. absurd never)
                (settle_missing l env id actual a.row t missing)
          | inr (hold, h) ↦
              OnOk-mono (SettleEffect l env id actual hold a.row t) _
                (settle l env id actual a.row t)
                (λ f t' (own, live, _, affordable, good, e). (
                  good,
                  (
                    hold,
                    (h, own, live),
                    grind (
                      int_laws,
                      rw (affordable_exact l env opening id hold t a h own) at affordable,
                    ),
                    e,
                  ),
                ))
                (settle-OnOk l env id actual hold a.row t h)
        ])

  marked :
      (actual : ℤ) (r : WalletReservation) (t : Database)
      (a : Accounted l.identity.wallet_id opening t) (c : Result (Unit {0}) × Database)
      → c.1 ≡ t ⊎ Charged r.id actual a c.1
      → OnOk (λ _ t'. Charged r.id actual a t') c
      → CommitEffect actual r a (mark_done r c)
  marked actual r t a (ok _, t') kept done = (refl, done)
  marked actual r t a (err e, t') kept done = (refl, kept)

  -- Commit of an open handle on a wallet whose account holds, whatever the driver does: a reported
  -- success closes the handle, a reservation of this wallet with its id had not expired, the
  -- actual cost (a negative one as 0) fitted in the balance beside what the other reservations
  -- hold, and the tables are exactly those with the reservation deleted and the cost debited;
  -- after an error the handle is open and the tables are as before, or (a commit that failed for
  -- the client may have been applied) as after a success.
  pub commit_lem :
      (ctx : Context) (actual : ℤ) (r : WalletReservation) (t : Database)
      (a : Accounted l.identity.wallet_id opening t)
      → r.done ≡ false
      → CommitEffect (clamp actual) r a (commit ctx l env actual r t)
  unfolding commit
  commit_lem ctx actual r t a is_open =
      checked-elim P (context_error ctx) (r, t) (λ _ _. (refl, inl refl))
        (λ _.
          if-elim P r.done (λ closed. ground (arith, is_open, closed))
            (λ _.
              marked (clamp actual) r t a (transaction env.faults begun body t)
                (transaction-keeps (λ t'. t' ≡ t ⊎ Charged r.id (clamp actual) a t') env.faults
                  begun body t (inl refl) (OnOk-mono _ _ (body t) (λ f t' q. inr q.1) effect))
                (transaction-OnOk (λ _ t'. Charged r.id (clamp actual) a t') env.faults begun body t
                  (OnOk-mono _ _ (body t) (λ f t' q. rw q.0 q.1) effect))))
    where
      P : Result (Unit {0}) × (WalletReservation × Database) → Type 0
      P = CommitEffect (clamp actual) r a

      begun : String
      begun = "postgres wallet: begin settlement: %w"

      body : Database → Result (Finish (Unit {0})) × Database
      body = commit_body l env r.id (clamp actual)

      effect : OnOk (λ f t'. (f.result ≡ ok tt) × Charged r.id (clamp actual) a t') (body t)
      effect = commit_body-Charged r.id (clamp actual) t a
