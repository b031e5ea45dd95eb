-- ===== src/Flow/Middleware/Charges.antt =====
-- What the PostgreSQL middleware leaves of a wallet: nothing is held any more, and the charge is
-- debited.
use cost.Prelude.{
  ◌≡◌, refl, ap, ◌∙◌, subst, ℤ, pos, ltb_ℤ, true, false, if◌then◌else◌, Option, some, [], ◌∷◌,
  arith, ◌+◌, ℕ, List,
}
use cost.Text.{Text, text, text_eqb_refl}
use cost.Errors.{Context, background, Error, errorf, txt, Result, ok, err, is_ok}
use cost.Postgres.Tables.{ReservationRow, find_reservation, delete_reservation, delete_expired}
use cost.Reservation.{clamp}
use cost.Sql.Rules.{OnOk}
use cost.Wallet
use cost.Wallet.Tables.{Database}
use cost.Wallet.Base.{WalletLedger, WalletIdentity, WalletReservation, lease}
use cost.Wallet.Reserve.{reserve}
use cost.Wallet.Settle.{commit, release}
use cost.Wallet.Accounts.{Accounted, left_after, reclaimed_database, held_database}
use cost.Wallet.Keeps.{reserve-Kept}
use cost.Wallet.Steps.{debit_entries}
use cost.Wallet.Holding.{IsHeld, reserve-IsHeld, release_lem}
use cost.Wallet.Settlement.{CommitEffect, commit_lem}
use cost.Flow.Value.{Value, nil_value}
use cost.Flow.Reserver.{Reserver, finish_reservation, actual_cost}
use cost.Flow.Settings.{PostgresSettings}
use cost.Flow.Middleware.{
  ActionEnd, action_panicked, action_failed, action_returned, Reply, replied, repanicked, reply_of,
  set_quota_state, released, with_reservation, guarded_action, committed, joined,
}
use cost.Flow.Middleware.Postgres.{Calls, wallet_reserver, wallet_style}

module _ (s : PostgresSettings) (l : WalletLedger) (calls : Calls Wallet.Base.Environment) where
  -- The state that an output reports of a charge
  abbrev pub charged_state : (actual : ℤ) → Text
  charged_state actual = if ltb_ℤ (pos 0) actual then text "wallet_charged" else text "reserved"

  -- How a granted reservation is settled, with what is charged and what the caller gets: an action
  -- that panics or fails has it released; one that returns has its cost committed, or, where the
  -- commit fails and leaves the tables, released.
  pub data Settled (estimate : ℤ) (r : WalletReservation) (t : Database)
      : ActionEnd → (charge : ℤ) → Reply → Type 0 where
    released_on_panic :
        is_ok (release background l calls.releasing r t).0 ≡ true
        → Settled estimate r t action_panicked (pos 0) repanicked
    released_on_failure :
        (output : Value) (e : Error)
        → is_ok (release background l calls.releasing r t).0 ≡ true
        → Settled estimate r t (action_failed output e) (pos 0) (replied output (e ∷ []))
    committed_cost :
        (output : Value) (reported : Option ℤ)
        → is_ok (commit background l calls.committing (actual_cost estimate reported) r t).0 ≡ true
        → Settled estimate r t
            (action_returned output reported)
            (actual_cost estimate reported)
            (reply_of (set_quota_state output true (charged_state (actual_cost estimate reported))))
    released_on_refusal :
        (output : Value) (reported : Option ℤ) (e : Error)
        → commit background l calls.committing (actual_cost estimate reported) r t ≡ (err e, (r, t))
        → is_ok (release background l calls.releasing r t).0 ≡ true
        → Settled estimate r t (action_returned output reported) (pos 0) (
            replied nil_value
              (errorf "cost: settle %s reservation: %w" (txt s.accounting_mode ∷ []) e ∷ []))

  -- From `t` to `u` what had expired is gone, nothing else is held, and the charge is debited.
  abbrev pub IsCharged : ℤ → WalletReservation → (t u : Database) → Type 0
  IsCharged charge r t u =
      (u.reservations ≡ delete_expired l.identity.wallet_id calls.reserving.now t.reservations)
      × (u.entries ≡ debit_entries l calls.committing r.id (clamp charge) t.entries)

  module _ (opening estimate : ℤ) (t : Database)
      (a : Accounted l.identity.wallet_id opening t) where
    abbrev calls_of_wallet : Reserver Database WalletReservation
    calls_of_wallet = wallet_reserver l calls

    abbrev ChargedReply : ℤ → Reply → WalletReservation → Reply × Database → Type 0
    ChargedReply charge reply r c = (c.0 ≡ reply) × IsCharged charge r t c.1

    abbrev Held : WalletReservation → Database → Type 0
    Held = IsHeld l calls.reserving opening estimate a

    -- The new reservation is the first of those that Reserve leaves.
    module _ (id : Text) where
      abbrev handle : WalletReservation
      handle = record { id = id; done = false }

      abbrev new_hold : ReservationRow
      new_hold = record {
        id = id;
        scope = l.identity.wallet_id;
        amount_micros = estimate;
        expires_at = calls.reserving.now + lease l;
      }

      abbrev held_tables : Database
      held_tables =
          held_database l calls.reserving id estimate (left_after l calls.reserving a.row t)
            (reclaimed_database l calls.reserving a.row t)

      found_new : find_reservation id held_tables.reservations ≡ some new_hold
      unfolding find_reservation
      found_new = rw (text_eqb_refl id) refl

      deleted_new :
          delete_reservation id held_tables.reservations
          ≡ delete_expired l.identity.wallet_id calls.reserving.now t.reservations
      unfolding delete_reservation
      deleted_new = rw (text_eqb_refl id) refl

      released-IsCharged :
          Accounted l.identity.wallet_id opening held_tables
          → is_ok (release background l calls.releasing handle held_tables).0 ≡ true
          → IsCharged (pos 0) handle t (release background l calls.releasing handle held_tables).1.1
      released-IsCharged a1 good =
          let e =
            release_lem l calls.releasing opening handle new_hold held_tables a1 refl found_new
              good in
          (
            ap (λ (u : Database). u.reservations) e ∙ deleted_new,
            ap (λ (u : Database). u.entries) e,
          )

      effect-IsCharged :
          (actual : ℤ) (a1 : Accounted l.identity.wallet_id opening held_tables)
          (c : Result (Unit {0}) × (WalletReservation × Database))
          → CommitEffect l calls.committing opening (clamp actual) handle a1 c
          → is_ok c.0 ≡ true
          → IsCharged actual handle t c.1.1
      effect-IsCharged actual a1 (ok _, (r', u)) (_, (hold, live, affords, e)) good = (
        ap (λ (v : Database). v.reservations) e ∙ deleted_new,
        ap (λ (v : Database). v.entries) e,
      )
      effect-IsCharged actual a1 (err _, (r', u)) h good = ground (arith, good)

      committed-IsCharged :
          (actual : ℤ)
          → Accounted l.identity.wallet_id opening held_tables
          → is_ok (commit background l calls.committing actual handle held_tables).0 ≡ true
          → IsCharged actual handle t
              (commit background l calls.committing actual handle held_tables).1.1
      committed-IsCharged actual a1 good =
          effect-IsCharged actual a1
            (commit background l calls.committing actual handle held_tables)
            (commit_lem l calls.committing opening background actual handle held_tables a1 refl)
            good

      joined_granted :
          (errors : List Error) (c : Result (Unit {0}))
          → is_ok c ≡ true
          → joined calls_of_wallet (wallet_style s) errors c ≡ errors
      joined_granted errors (ok _) good = refl
      joined_granted errors (err _) good = ground (arith, good)

      committed_granted :
          (now : ℕ) (name : Text) (output : Value) (actual : ℤ)
          (c : Result (Unit {0}) × (WalletReservation × Database))
          → is_ok c.0 ≡ true
          → committed calls_of_wallet (wallet_style s) now name output actual c
            ≡ (reply_of (set_quota_state output true (charged_state actual)), c.1.1)
      committed_granted now name output actual (ok _, (r', u)) good = ground arith
      committed_granted now name output actual (err _, (r', u)) good = ground (arith, good)

      with_reservation-IsCharged :
          (now : ℕ) (name : Text) (action : ActionEnd) (charge : ℤ) (reply : Reply)
          → Accounted l.identity.wallet_id opening held_tables
          → Settled estimate handle held_tables action charge reply
          → ChargedReply charge reply handle (
              with_reservation calls_of_wallet
                (wallet_style s)
                now
                name
                estimate
                action
                handle
                held_tables)
      unfolding with_reservation released finish_reservation
      with_reservation-IsCharged now name action_panicked charge reply a1 (released_on_panic good) =
          (refl, released-IsCharged a1 good)
      with_reservation-IsCharged now name action charge reply a1
            (released_on_failure output e good) =
          (ap (replied output) (joined_granted (e ∷ []) _ good), released-IsCharged a1 good)
      with_reservation-IsCharged now name action charge reply a1
            (committed_cost output reported good) =
          rw
            (committed_granted now name output (actual_cost estimate reported)
              (commit background l calls.committing (actual_cost estimate reported) handle
                held_tables)
              good)
            (refl, committed-IsCharged (actual_cost estimate reported) a1 good)
      with_reservation-IsCharged now name action charge reply a1
            (released_on_refusal output reported e refused good) =
          rw refused (ap (replied nil_value) (joined_granted _ _ good), released-IsCharged a1 good)

    abbrev Runs :
        (now : ℕ) → (name : Text) → ActionEnd → ℤ → Reply → WalletReservation → Database → Type 0
    Runs now name action charge reply r t1 =
        Accounted l.identity.wallet_id opening t1
        → Settled estimate r t1 action charge reply
        → ChargedReply charge reply r
            (with_reservation calls_of_wallet (wallet_style s) now name estimate action r t1)

    IsHeld-IsCharged :
        (now : ℕ) (name : Text) (action : ActionEnd) (charge : ℤ) (reply : Reply)
        (r : WalletReservation) (t1 : Database)
        → Held r t1
        → Runs now name action charge reply r t1
    IsHeld-IsCharged now name action charge reply r t1 (id, made, tables) =
        rw (made, tables)
          (λ a1 settled. with_reservation-IsCharged id now name action charge reply a1 settled)

    pub guarded_action-IsCharged :
        (ctx : Context) (now : ℕ) (name : Text) (input : Value) (action : ActionEnd) (charge : ℤ)
        (reply : Reply) (r : WalletReservation) (t1 : Database)
        → reserve ctx l calls.reserving estimate t ≡ (ok r, t1)
        → Settled estimate r t1 action charge reply
        → ChargedReply charge reply r
            (guarded_action calls_of_wallet (wallet_style s) ctx now name input estimate action t)
    unfolding guarded_action
    guarded_action-IsCharged ctx now name input action charge reply r t1 e settled = rw e (
        IsHeld-IsCharged now name action charge reply r t1
          (subst (OnOk Held) e (reserve-IsHeld l calls.reserving opening ctx estimate t a))
          (subst (λ c. Accounted l.identity.wallet_id opening c.1) e
            (reserve-Kept l calls.reserving opening ctx estimate t a))
          settled)
