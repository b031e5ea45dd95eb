-- ===== src/Wallet/Keeps.antt =====
-- Every method of nexssflow/wallet.go keeps the account of its wallet, whatever fails on the way.
use cost.Prelude.{
  ◌≡◌, ap, inl, inr, ℤ, pos, ◌+ℤ◌, ◌-ℤ◌, ◌≤ℤ◌, not, ltb_ℤ, leb_ℤ, true, false, if◌then◌else◌, some,
  List, int_laws, if-elim, Option-cases,
}
use cost.Int64.{sub64, sub64_exact}
use cost.Text.{Text, text_eqb, text_eqb_refl}
use cost.Errors.{Context, context_error, Result, ok, err, checked, checked-elim}
use cost.Event.{Event}
use cost.Ledger.{invalid_estimate}
use cost.Ledger.Admission.{IsEstimate, invalid_estimate-IsEstimate}
use cost.Reservation.{clamp, clamp_nonneg}
use cost.Sql.{CommitOutcome, committed, commit_failed, Finish}
use cost.Sql.Rules.{OnOk, OnOk-mono, transaction-keeps}
use cost.Postgres.Tables.{ReservationRow, find_reservation, delete_reservation, held}
use cost.Postgres.Rows.{
  find_reservation-nonneg, held-delete_reservation, held_nonneg, delete_reservation-AllNonneg,
}
use cost.Wallet.Tables.{WalletRow, WalletEntry, debit, credit, Database, total}
use cost.Wallet.Base.{WalletLedger, Environment, WalletReservation}
use cost.Wallet.Reserve.{reserve_body, reserve_with, reserve}
use cost.Wallet.Settle.{
  available_after_release, settle, commit_body, release_locked, release_body, mark_done, commit,
  release,
}
use cost.Wallet.Record.{known_usage, with_usage, nullif_empty, insert_usage, executed, record_event}
use cost.Wallet.Accounts.{
  Accounted, reserved_nonneg, left_after, reclaimed_database, reclaimed-Accounted, row-reclaimed,
  held-Accounted_at, settled-Accounted, released-Accounted,
}
use cost.Wallet.Steps.{
  ReserveEffect, reserve_body-OnOk, SettleEffect, settle-OnOk, settle_missing, commit_body-OnOk,
  ReleaseEffect, release_locked-OnOk, release_missing, release_body-OnOk, debit_entries,
}

module _ (l : WalletLedger) (env : Environment) (opening : ℤ) where
  abbrev Kept : Database → Type 0
  Kept t = Accounted l.identity.wallet_id opening t

  -- The test of Reserve is exact.
  fitting :
      (balance reserved estimate : ℤ) {t : Database} (a : Kept t)
      → a.row.reserved_micros ≡ reserved
      → a.row.balance_micros ≡ balance
      → ltb_ℤ (sub64 balance reserved) estimate ≡ false
      → reserved +ℤ estimate ≤ℤ balance
  fitting balance reserved estimate a er eb fits =
      let r0 = reserved_nonneg l.identity.wallet_id opening a in
      let exact : sub64 balance reserved ≡ balance -ℤ reserved =
        sub64_exact balance reserved (grind (int_laws, a.covered, a.small, er, eb, r0)) in
      grind (int_laws, rw exact at fits)

  reserve_body-Kept :
      (id : Text) (estimate : ℤ) (t : Database)
      → pos 0 ≤ℤ estimate
      → Kept t
      → OnOk (λ f t'. Kept t') (reserve_body l env id estimate t)
  reserve_body-Kept id estimate t he a =
      OnOk-mono (ReserveEffect l env id estimate a.row t) _ (reserve_body l env id estimate t)
        (λ f t' effect. after f t' effect) (reserve_body-OnOk l env id estimate a.row t a.found)
    where
      b : Kept (reclaimed_database l env a.row t)
      b = reclaimed-Accounted l env opening t a

      after :
          (f : Finish WalletReservation) (t' : Database)
          → ReserveEffect l env id estimate a.row t f t'
          → Kept t'
      after f t' (inl (_, e)) = rw e b
      after f t' (inr (fits, _, e)) =
          let same = row-reclaimed l env opening t a in
          let reserved : b.row.reserved_micros ≡ left_after l env a.row t =
            ap (λ (w : WalletRow). w.reserved_micros) same in
          let balance : b.row.balance_micros ≡ a.row.balance_micros =
            ap (λ (w : WalletRow). w.balance_micros) same in
          let room =
            fitting a.row.balance_micros (left_after l env a.row t) estimate b reserved balance
              fits in
          rw e (
            held-Accounted_at l env opening id estimate (left_after l env a.row t)
              (reclaimed_database l env a.row t) b reserved he (rw balance room))

  -- Reserve on a wallet keeps its account, whatever fails.
  pub reserve-Kept :
      (ctx : Context) (estimate : ℤ) (t : Database) → Kept t → Kept (reserve ctx l env estimate t).1
  unfolding reserve reserve_with
  reserve-Kept ctx estimate t a =
      checked-elim P (context_error ctx) t (λ _ _. a)
        (λ _.
          if-elim P (invalid_estimate estimate) (λ _. a)
            (λ v.
              if-elim P (not l.connected) (λ _. a)
                (λ _. with_id env.new_id (invalid_estimate-IsEstimate estimate v))))
    where
      P : Result WalletReservation × Database → Type 0
      P c = Kept c.1

      with_id : (r : Result Text) → IsEstimate estimate → P (reserve_with l env estimate r t)
      with_id (err e) he = a
      with_id (ok id) he =
          transaction-keeps Kept env.faults "postgres wallet: begin reservation: %w"
            (reserve_body l env id estimate) t a (reserve_body-Kept id estimate t he.0 a)

  debits_total :
      (id : Text) (actual : ℤ) (entries : List WalletEntry)
      → pos 0 ≤ℤ actual
      → total debit l.identity.wallet_id (debit_entries l env id actual entries)
        ≡ actual +ℤ total debit l.identity.wallet_id entries
  unfolding total
  debits_total id actual entries h0 = grind (int_laws, text_eqb_refl l.identity.wallet_id)

  credits_total :
      (id : Text) (actual : ℤ) (entries : List WalletEntry)
      → total credit l.identity.wallet_id (debit_entries l env id actual entries)
        ≡ total credit l.identity.wallet_id entries
  unfolding total
  credits_total id actual entries = grind (int_laws, text_eqb_refl l.identity.wallet_id)

  -- A hold of the wallet is part of what it has reserved.
  pub amount-le :
      (id : Text) (hold : ReservationRow) (t : Database) (a : Kept t)
      → find_reservation id t.reservations ≡ some hold
      → text_eqb hold.scope l.identity.wallet_id ≡ true
      → (pos 0 ≤ℤ hold.amount_micros) × (hold.amount_micros ≤ℤ a.row.reserved_micros)
  amount-le id hold t a h own =
      let rest : pos 0 ≤ℤ held l.identity.wallet_id (delete_reservation id t.reservations) =
        held_nonneg l.identity.wallet_id _
          (delete_reservation-AllNonneg id t.reservations a.amounts) in
      (
        find_reservation-nonneg id t.reservations hold a.amounts h,
        grind (
          int_laws,
          a.exact,
          rw own at (held-delete_reservation l.identity.wallet_id id t.reservations hold h),
        ),
      )

  -- The test of settle is exact.
  pub affordable_exact :
      (id : Text) (hold : ReservationRow) (t : Database) (a : Kept t)
      → find_reservation id t.reservations ≡ some hold
      → text_eqb hold.scope l.identity.wallet_id ≡ true
      → available_after_release a.row hold.amount_micros
        ≡ a.row.balance_micros -ℤ (a.row.reserved_micros -ℤ hold.amount_micros)
  affordable_exact id hold t a h own =
      let (h0, hr) = amount-le id hold t a h own in
      let inner : sub64 a.row.reserved_micros hold.amount_micros
          ≡ a.row.reserved_micros -ℤ hold.amount_micros =
        sub64_exact a.row.reserved_micros hold.amount_micros
          (grind (int_laws, a.covered, a.small)) in
      rw inner (
        sub64_exact a.row.balance_micros (a.row.reserved_micros -ℤ hold.amount_micros)
          (grind (int_laws, a.covered, a.small)))

  commit_body-Kept :
      (id : Text) (actual : ℤ) (t : Database)
      → pos 0 ≤ℤ actual
      → Kept t
      → OnOk (λ f t'. Kept t') (commit_body l env id actual t)
  commit_body-Kept id actual t h0 a =
      commit_body-OnOk l env (λ f t'. Kept t') id actual a.row t a.found
        (elim (Option-cases (find_reservation id t.reservations)) [
          | inl missing ↦
              OnOk-mono (λ _ _. ⊥) _ (settle l env id actual a.row t) (λ _ _ never. absurd never)
                (settle_missing l env id actual a.row t missing)
          | inr (hold, h) ↦
              OnOk-mono (SettleEffect l env id actual hold a.row t) _
                (settle l env id actual a.row t)
                (λ f t' (own, _, _, affordable, _, e). rw e (
                  settled-Accounted l env opening id actual hold
                    (debit_entries l env id actual t.entries) t a h own h0
                    (grind (int_laws, rw (affordable_exact id hold t a h own) at affordable))
                    (debits_total id actual t.entries h0) (credits_total id actual t.entries)))
                (settle-OnOk l env id actual hold a.row t h)
        ])

  -- A terminal method, from its transaction.
  terminal-Kept :
      (ctx : Context) (r : WalletReservation) (t : Database) (c : Result (Unit {0}) × Database)
      → Kept t
      → Kept c.1
      → Kept
          (checked
            (context_error ctx)
            (r, t)
            (if r.done then (ok tt, (r, t)) else mark_done r c)).1.1
  terminal-Kept ctx r t c a after =
      checked-elim P (context_error ctx) (r, t) (λ _ _. a)
        (λ _. if-elim P r.done (λ _. a) (λ _. marked c after))
    where
      P : Result (Unit {0}) × (WalletReservation × Database) → Type 0
      P q = Kept q.1.1

      marked : (c : Result (Unit {0}) × Database) → Kept c.1 → P (mark_done r c)
      marked (ok _, t') k = k
      marked (err e, t') k = k

  pub commit-Kept :
      (ctx : Context) (actual : ℤ) (r : WalletReservation) (t : Database)
      → Kept t
      → Kept (commit ctx l env actual r t).1.1
  unfolding commit
  commit-Kept ctx actual r t a = terminal-Kept ctx r t _ a (
      transaction-keeps Kept env.faults "postgres wallet: begin settlement: %w"
        (commit_body l env r.id (clamp actual)) t a
        (commit_body-Kept r.id (clamp actual) t (clamp_nonneg actual) a))

  release_body-Kept :
      (id : Text) (t : Database) → Kept t → OnOk (λ f t'. Kept t') (release_body l env id t)
  release_body-Kept id t a =
      release_body-OnOk l env (λ f t'. Kept t') id a.row t a.found
        (elim (Option-cases (find_reservation id t.reservations)) [
          | inl missing ↦
              OnOk-mono (λ _ _. ⊥) _ (release_locked l env id t) (λ _ _ never. absurd never)
                (release_missing l env id t missing)
          | inr (hold, h) ↦
              OnOk-mono (ReleaseEffect l env id hold t) _ (release_locked l env id t)
                (λ f t' (own, _, e). rw e (released-Accounted l env opening id hold t a h own))
                (release_locked-OnOk l env id hold t h)
        ])

  pub release-Kept :
      (ctx : Context) (r : WalletReservation) (t : Database)
      → Kept t
      → Kept (release ctx l env r t).1.1
  unfolding release
  release-Kept ctx r t a = terminal-Kept ctx r t _ a (
      transaction-keeps Kept env.faults "postgres wallet: begin release: %w"
        (release_body l env r.id) t a (release_body-Kept r.id t a))

module _ (l : WalletLedger) (opening : ℤ) where
  insert_usage-Kept :
      (event : Event) (t : Database)
      → Accounted l.identity.wallet_id opening t
      → Accounted l.identity.wallet_id opening (insert_usage l event t)
  unfolding insert_usage
  insert_usage-Kept event t a =
      if-elim (Accounted l.identity.wallet_id opening)
        (known_usage l.identity.wallet_id (nullif_empty event.id) t.usage_events)
        {y = with_usage l event t} (λ _. a)
        (λ _. record {
          row = a.row;
          found = a.found;
          exact = a.exact;
          amounts = a.amounts;
          covered = a.covered;
          small = a.small;
          paid = a.paid;
        })

  pub record_event-Kept :
      (ctx : Context) (outcome : CommitOutcome) (event : Event) (t : Database)
      → Accounted l.identity.wallet_id opening t
      → Accounted l.identity.wallet_id opening (record_event ctx l outcome event t).1
  unfolding record_event
  record_event-Kept ctx outcome event t a =
      checked-elim P (context_error ctx) t (λ _ _. a)
        (λ _.
          if-elim P (not l.connected) (λ _. a)
            (λ _.
              if-elim P (leb_ℤ event.cost_micros (pos 0)) (λ _. a)
                (λ _. if-elim P _ (λ _. a) (λ _. ended outcome (insert_usage-Kept event t a)))))
    where
      P : Result (Unit {0}) × Database → Type 0
      P c = Accounted l.identity.wallet_id opening c.1

      ended :
          (o : CommitOutcome) {t' : Database}
          → Accounted l.identity.wallet_id opening t'
          → P (executed o t t')
      ended committed k = k
      ended (commit_failed e true) k = k
      ended (commit_failed e false) k = a
