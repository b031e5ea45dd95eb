-- ===== src/Postgres/Settlement.antt =====
-- Commit and Release of adapters/postgres/ledger.go: what they do to the account of their scope,
-- whatever fails on the way.
use Prim.Native.String.{String}
use cost.Prelude.{
  ap, ◌≡◌, refl, ◌⊎◌, inl, inr, ℤ, pos, pos_part, ◌+ℤ◌, ◌-ℤ◌, ◌≤ℤ◌, true, false, some, arith,
  int_laws, subst,
}
use cost.Int64.{IsInt64, max_int64, sub64, wrap, to_bits, of_bits}
use cost.Text.{Text, text_eqb, text_eqb_refl}
use cost.Errors.{Context, context_error, Result, ok, err, checked-elim}
use cost.Reservation.{clamp, clamp_nonneg}
use cost.Sql.{transaction}
use cost.Sql.Rules.{OnOk, OnOk-mono, transaction-keeps, transaction-OnOk}
use cost.Postgres.Tables.{
  ReservationRow, Database, find_reservation, delete_reservation, update_used, held,
}
use cost.Postgres.{Ledger, Environment, Reservation, settle_body, mark_done, commit, release}
use cost.Postgres.Rows.{
  held_nonneg, held-delete_reservation, find_reservation-nonneg, delete_reservation-AllNonneg,
}
use cost.Postgres.Steps.{settle_body-OnOk}
use cost.Postgres.Accounts.{Accounted, settled-Accounted}

-- The row of an open reservation that belongs to the scope of the ledger.
abbrev pub IsOwn : Ledger → Reservation → ReservationRow → Database → Type 0
IsOwn l r row t =
    (r.done ≡ false) × (find_reservation r.id t.reservations ≡ some row) × (row.scope ≡ l.scope)

-- The row is deleted, and its amount replaced by `actual` in the account.
abbrev pub Settled :
    Ledger
    → (limit cap settled actual : ℤ) → ReservationRow
    → Reservation
    → (t t' : Database) → Type 0
Settled l limit cap settled actual row r t t' =
    (t'.reservations ≡ delete_reservation r.id t.reservations)
    × Accounted l.scope limit (cap +ℤ pos (pos_part (actual -ℤ row.amount_micros)))
        (settled +ℤ actual) t'

-- How a call that settles a reservation at `actual` ends. With success the reservation is done and
-- its amount replaced by `actual` in the account, which may pass `cap` by what `actual` exceeds the
-- amount; with an error the handle stays open, and the account is the old one or, if a failed
-- commit was applied all the same, the new one.
abbrev pub SettleOutcome :
    Ledger
    → (limit cap settled actual : ℤ) → ReservationRow
    → Reservation
    → Database
    → Result (Unit {0}) × (Reservation × Database)
    → Type 0
SettleOutcome l limit cap settled actual row r t (ok _, (r', t')) =
    (r' ≡ record r { done = true }) × Settled l limit cap settled actual row r t t'
SettleOutcome l limit cap settled actual row r t (err e, (r', t')) =
    (r' ≡ r)
    × (Accounted l.scope limit cap settled t' ⊎ Settled l limit cap settled actual row r t t')

-- The row of an own reservation is part of what the scope holds.
amount-le :
    (scope : Text) (limit cap settled : ℤ) (id : Text) (row : ReservationRow) (t : Database)
    → Accounted scope limit cap settled t
    → cap ≤ℤ max_int64
    → find_reservation id t.reservations ≡ some row
    → row.scope ≡ scope
    → (pos 0 ≤ℤ row.amount_micros) × (row.amount_micros ≤ℤ max_int64)
amount-le scope limit cap settled id row t a small h own =
    let same : text_eqb row.scope scope ≡ true = rw own (text_eqb_refl scope) in
    let rest : pos 0 ≤ℤ held scope (delete_reservation id t.reservations) =
      held_nonneg scope _ (delete_reservation-AllNonneg id t.reservations a.amounts) in
    (
      find_reservation-nonneg id t.reservations row a.amounts h,
      grind (
        int_laws,
        a.exact,
        a.spent,
        a.within,
        rw same at (held-delete_reservation scope id t.reservations row h),
      ),
    )

module _ (l : Ledger) (env : Environment) (limit cap settled actual : ℤ) where
  New : ReservationRow → Reservation → (t t' : Database) → Type 0
  New row r t t' = Settled l limit cap settled actual row r t t'

  settle_body-Accounted :
      (r : Reservation) (row : ReservationRow) (t : Database) (change : ℤ → ℤ)
      (not_deleted not_updated not_committed : String)
      → Accounted l.scope limit cap settled t
      → IsOwn l r row t
      → pos 0 ≤ℤ actual
      → change row.amount_micros ≡ actual -ℤ row.amount_micros
      → OnOk
          (λ f t'. (f.result ≡ ok tt) × New row r t t')
          (settle_body l env r.id not_deleted not_updated not_committed change t)
  unfolding New
  settle_body-Accounted r row t change d u c a (_, found, own) h0 exact =
      OnOk-mono _ _ (settle_body l env r.id d u c change t)
        (λ f t' q. (
          q.0,
          (
            ap (λ (d : Database). d.reservations) q.2,
            rw q.2 (
                subst
                  (λ s.
                    Accounted l.scope limit (cap +ℤ pos (pos_part (actual -ℤ row.amount_micros))) s
                      (changed t))
                  total
                  (settled-Accounted l.scope limit cap settled r.id (change row.amount_micros) _ row
                    t a found own (rw total_gain h0) (rw exact (grind (int_laws, a.within))))),
          ),
        ))
        (settle_body-OnOk l env r.id d u c change row a.row t found a.found)
    where
      changed : Database → Database
      changed t = record t {
        budgets = update_used l.scope (λ used. used +ℤ change row.amount_micros) t.budgets;
        reservations = delete_reservation r.id t.reservations;
      }

      total_gain : change row.amount_micros +ℤ row.amount_micros ≡ actual
      total_gain = rw exact (grind int_laws)

      total : settled +ℤ (change row.amount_micros +ℤ row.amount_micros) ≡ settled +ℤ actual
      total = rw total_gain

  marked :
      (r : Reservation) (row : ReservationRow) (t : Database) (c : Result (Unit {0}) × Database)
      → Accounted l.scope limit cap settled c.1 ⊎ New row r t c.1
      → OnOk (λ _ t'. New row r t t') c
      → SettleOutcome l limit cap settled actual row r t (mark_done r c)
  unfolding New
  marked r row t (ok _, t') kept done = (refl, done)
  marked r row t (err e, t') kept done = (refl, kept)

  settle-SettleOutcome :
      (r : Reservation) (row : ReservationRow) (t : Database) (change : ℤ → ℤ)
      (begin_format not_deleted not_updated not_committed : String)
      → Accounted l.scope limit cap settled t
      → IsOwn l r row t
      → pos 0 ≤ℤ actual
      → change row.amount_micros ≡ actual -ℤ row.amount_micros
      → SettleOutcome l limit cap settled actual row r t (
          mark_done r (
            transaction env.faults begin_format
              (settle_body l env r.id not_deleted not_updated not_committed change)
              t))
  settle-SettleOutcome r row t change b d u c a own h0 exact =
      let body = settle_body-Accounted r row t change d u c a own h0 exact in
      let run = settle_body l env r.id d u c change in
      marked r row t (transaction env.faults b run t)
        (transaction-keeps (λ t'. Accounted l.scope limit cap settled t' ⊎ New row r t t')
          env.faults b run t (inl a) (OnOk-mono _ _ (run t) (λ f t' q. inr q.1) body))
        (transaction-OnOk (λ _ t'. New row r t t') env.faults b run t
          (OnOk-mono _ _ (run t) (λ f t' q. rw q.0 q.1) body))

clamp-sub64 :
    (actual amount : ℤ)
    → IsInt64 actual
    → pos 0 ≤ℤ amount
    → amount ≤ℤ max_int64
    → sub64 (clamp actual) amount ≡ clamp actual -ℤ amount
unfolding sub64 wrap to_bits of_bits ◌-ℤ◌
clamp-sub64 actual amount ha h0 hm = ground arith

-- Commit on PostgreSQL of an open reservation that has its row in the scope, for an int64 amount
-- and where the account of the scope holds within an int64: a reported success closes the handle,
-- deletes the row and replaces its amount by the actual one, a negative one as 0, in the account;
-- after an error the handle is still open, and the account is as before, or as after a success (a
-- commit that failed for the client may have been applied).
pub commit-SettleOutcome :
    (ctx : Context) (l : Ledger) (env : Environment) (limit cap settled actual : ℤ)
    (r : Reservation) (row : ReservationRow) (t : Database)
    → IsInt64 actual
    → cap ≤ℤ max_int64
    → Accounted l.scope limit cap settled t
    → IsOwn l r row t
    → SettleOutcome l limit cap settled (clamp actual) row r t (commit ctx l env actual r t)
unfolding commit
commit-SettleOutcome ctx l env limit cap settled actual r row t ha small a own =
    checked-elim (SettleOutcome l limit cap settled (clamp actual) row r t) (context_error ctx)
      (r, t) (λ e _. (refl, inl a))
      (λ _. simp own.0 (
        settle-SettleOutcome l env limit cap settled (clamp actual) r row t
          (λ reserved. sub64 (clamp actual) reserved) _ _ _ _ a own (clamp_nonneg actual)
          (let (h0, hm) = amount-le l.scope limit cap settled r.id row t a small own.1 own.2 in
            clamp-sub64 actual row.amount_micros ha h0 hm)))

-- Release on PostgreSQL of an open reservation that has its row in the scope, where the account of
-- the scope holds: a reported success closes the handle, deletes the row and takes its amount out
-- of the account; after an error the handle is still open, and the account is as before, or as
-- after a success (a commit that failed for the client may have been applied).
pub release-SettleOutcome :
    (ctx : Context) (l : Ledger) (env : Environment) (limit cap settled : ℤ) (r : Reservation)
    (row : ReservationRow) (t : Database)
    → Accounted l.scope limit cap settled t
    → IsOwn l r row t
    → SettleOutcome l limit cap settled (pos 0) row r t (release ctx l env r t)
unfolding release
release-SettleOutcome ctx l env limit cap settled r row t a own =
    checked-elim (SettleOutcome l limit cap settled (pos 0) row r t) (context_error ctx) (r, t)
      (λ e _. (refl, inl a))
      (λ _. simp own.0 (
        settle-SettleOutcome l env limit cap settled (pos 0) r row t (λ reserved. pos 0 -ℤ reserved)
          _ _ _ _ a own (omega arith) refl))
